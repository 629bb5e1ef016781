-- ===== src/Shell/Editor/Completing.antt =====
-- What the tabulator shows on the row, and what it makes of the text.
use polaros.Prelude.{
  ℕ, ◌≤◌, ◌<◌, ◌≡◌, refl, inl, inr, Bool-cases, true, leb, ltb, List, [], ◌∷◌, length, take, drop,
  All, All-append, All-take, All-drop, Bytes, arith, le→leb,
}
use polaros.Fs.Name.{Name}
use polaros.Shell.Unicode.Ascii.{boundary-IsAscii, without_last}
use polaros.Shell.Completion as Completion
use polaros.Shell.Completion.{
  starts_with, matching, last_space, tab_complete, common_prefix, is_char_boundary, shorten_all,
}
use polaros.Shell.Completion.Longest.{starts-length}
use polaros.Shell.History.{CommandHistory}
use polaros.Shell.Editor.{push_suffix, push_prefix, complete}
use polaros.Shell.Editor.Row.{shown-list_all, shown-print, row_of, IsPrintable, IsPrintable-IsAscii}
use polaros.Shell.Editor.Shown.{StepNarrow, Ready, Echoes}

-- A name that the screen shows as it is, at least as long as the part that is there.
abbrev pub Completes : ℕ → Name → Type 0
Completes k n = IsPrintable n × (k ≤ length n)

pub matching-Completes :
    (word : Name) (k : ℕ) (ns : List Name)
    → k ≤ length word
    → All IsPrintable ns
    → All (Completes k) (matching word ns)
matching-Completes word k [] le h = tt
matching-Completes word k (n ∷ ns) le h = elim (Bool-cases (starts_with n word)) [
  | inl t ↦
      rw t ((h.0, omega (arith, le, starts-length word n t)), matching-Completes word k ns le h.1)
  | inr f ↦ rw f (matching-Completes word k ns le h.1)
]

pub All-without_last : (P : ℕ → Type 0) (bs : Bytes) → All P bs → All P (without_last bs)
All-without_last P [] h = tt
All-without_last P (b ∷ []) h = tt
All-without_last P (b ∷ c ∷ bs) h = (h.0, All-without_last P (c ∷ bs) h.1)

module _ (prompt : Bytes) (shows : IsPrintable prompt) where
  push_suffix-Echoes :
      (buf : Bytes) (h : CommandHistory) (name : Name) (k : ℕ)
      → IsPrintable buf
      → Ready h
      → Completes k name
      → StepNarrow prompt (push_suffix buf h name k)
      → Echoes prompt buf (push_suffix buf h name k)
  push_suffix-Echoes buf h name k a r c =
      let long : leb k (length name) ≡ true = le→leb k (length name) c.1 in
      let rest = All-drop (λ (b : ℕ). (32 ≤ b) × (b < 127)) k name c.0 in
      rw (long, boundary-IsAscii name k (IsPrintable-IsAscii name c.0))
        (λ n.
          (shown-print prompt buf (drop k name) rest n, All-append _ buf (drop k name) a rest, r))

  push_prefix-Echoes :
      (buf : Bytes) (h : CommandHistory) (cs : List Name) (prefix : Name) (k : ℕ)
      → IsPrintable buf
      → Ready h
      → IsPrintable prefix
      → StepNarrow prompt (push_prefix buf h cs k (Completion.slice prefix))
      → Echoes prompt buf (push_prefix buf h cs k (Completion.slice prefix))
  push_prefix-Echoes buf h cs prefix k a r f = elim (Bool-cases (ltb k (length prefix))) [
    | inl t ↦ rw t (push_suffix-Echoes buf h prefix k a r (f, ground (arith, t)))
    | inr e ↦ rw e (λ n. (shown-list_all prompt (row_of prompt buf) buf cs shows a n, a, r))
  ]

  pub complete-Echoes :
      (buf : Bytes) (h : CommandHistory) (k : ℕ) (cs : List Name)
      → IsPrintable buf
      → Ready h
      → All (Completes k) cs
      → StepNarrow prompt (complete buf h k cs)
      → Echoes prompt buf (complete buf h k cs)
  unfolding complete common_prefix
  complete-Echoes buf h k [] a r c = λ n. (refl, a, r)
  complete-Echoes buf h k (n ∷ []) a r c = push_suffix-Echoes buf h n k a r c.0
  complete-Echoes buf h k (n ∷ m ∷ cs) a r c =
      let len = shorten_all n (m ∷ cs) (length n) in
      rw (boundary-IsAscii n len (IsPrintable-IsAscii n c.0.0)) (
        push_prefix-Echoes buf h (n ∷ m ∷ cs) (take len n) k a r
          (All-take (λ (b : ℕ). (32 ≤ b) × (b < 127)) len n c.0.0))
