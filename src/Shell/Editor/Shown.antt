-- ===== src/Shell/Editor/Shown.antt =====
-- What stands on the row of the screen while `read_line` of src/shell/mod.rs edits a line, as
-- src/drivers/vga.rs writes it.
use polaros.Prelude.{
  ℕ, zero, suc, ◌+◌, ◌-◌, ◌≡◌, refl, sym, ◌⊎◌, inl, inr, Bool-cases, leb, ltb, ◌==◌, if◌then◌else◌,
  List, [], ◌∷◌, length, All, Bytes, arith,
}
use mathlib.Core.Path.{subst}
use polaros.Shell.History as History
use polaros.Shell.History.{CommandHistory, entry_at}
use polaros.Shell.History.Calls.{IsValid, Fine, up-Fine, down-Fine}
use polaros.Shell.Editor.{new_line, Step, returns, continues, panics, recall_up, recall_down}
use polaros.Shell.Editor.Row.{shown, IsPrintable, row_of, Narrow, shown-clear_input, shown-retyped}

-- A history of lines that the screen shows as they are.
pub record Ready (h : CommandHistory) : Type 0 where
  pub valid : IsValid h
  pub plain : All IsPrintable h.entries

-- The text that a step leaves fits into the row.
abbrev pub StepNarrow : Bytes → Step → Type 0
StepNarrow prompt (continues buf h echo) = Narrow prompt buf
StepNarrow prompt (returns echo) = Unit
StepNarrow prompt panics = Unit

-- The row shows the text that a step leaves, and the step does not panic.
abbrev pub Echoes : Bytes → Bytes → Step → Type 0
Echoes prompt t (returns echo) = echo ≡ (new_line ∷ [])
Echoes prompt t (continues buf h echo) =
    (shown prompt (row_of prompt t) echo ≡ row_of prompt buf) × IsPrintable buf × Ready h
Echoes prompt t panics = ⊥

abbrev Recalled : History.Shown × CommandHistory → Type 0
Recalled (History.shows entry, h) = IsPrintable entry × Ready h
Recalled (History.nothing, h) = Ready h
Recalled (History.panics, h) = ⊥

entry_at-IsPrintable :
    (es : List Bytes) (i : ℕ) (e : Bytes)
    → All IsPrintable es
    → entry_at es i ≡ History.shows e
    → IsPrintable e
entry_at-IsPrintable [] i e h at = absurd (cc at)
entry_at-IsPrintable (d ∷ es) zero e h at = subst IsPrintable (ground (arith, at)) h.0
entry_at-IsPrintable (d ∷ es) (suc i) e h at = entry_at-IsPrintable es i e h.1 at

recalled :
    (h : CommandHistory) (o : History.Shown × CommandHistory)
    → Ready h
    → Fine o
    → o.1.entries ≡ h.entries
    → (o.0 ≡ History.nothing) ⊎ ((i : ℕ) × (o.0 ≡ entry_at h.entries i))
    → Recalled o
recalled h (History.nothing, h1) r f same c = record {
  valid = f.valid;
  plain = subst (All IsPrintable) (sym same) r.plain;
}
recalled h (History.panics, h1) r f same c = absurd (f.quiet refl)
recalled h (History.shows e, h1) r f same (inl n) = absurd (cc n)
recalled h (History.shows e, h1) r f same (inr (i, at)) = (
  entry_at-IsPrintable h.entries i e r.plain (sym at),
  record { valid = f.valid; plain = subst (All IsPrintable) (sym same) r.plain },
)

pub up-Recalled : (h : CommandHistory) → Ready h → Recalled (History.up h)
unfolding History.up
up-Recalled h r =
    let i = if ltb 0 h.cursor then h.cursor - 1 else h.cursor in
    let f = up-Fine h r.valid in
    elim (Bool-cases (length h.entries == 0)) [
      | inl e ↦ rw e r
      | inr e ↦ recalled h (History.up h) r f (rw e refl) (inr (i, rw e refl))
    ]

pub down-Recalled : (h : CommandHistory) → Ready h → Recalled (History.down h)
unfolding History.down
down-Recalled h r =
    let f = down-Fine h r.valid in
    elim (Bool-cases (leb (length h.entries) h.cursor)) [
      | inl e ↦ rw e r
      | inr e ↦ elim (Bool-cases (ltb (h.cursor + 1) (length h.entries))) [
        | inl more ↦
            recalled h (History.down h) r f (rw (e, more) refl)
              (inr (h.cursor + 1, rw (e, more) refl))
        | inr end ↦ recalled h (History.down h) r f (rw (e, end) refl) (inl (rw (e, end) refl))
      ]
    ]

module _ (prompt : Bytes) where
  pub up-Echoes :
      (buf : Bytes) (o : History.Shown × CommandHistory)
      → IsPrintable buf
      → Recalled o
      → StepNarrow prompt (recall_up buf o)
      → Echoes prompt buf (recall_up buf o)
  up-Echoes buf (History.shows entry, h) a r n = (shown-retyped prompt buf entry r.0 n, r.0, r.1)
  up-Echoes buf (History.nothing, h) a r n = (refl, a, r)
  up-Echoes buf (History.panics, h) a r n = absurd r

  pub down-Echoes :
      (buf : Bytes) (o : History.Shown × CommandHistory)
      → Recalled o
      → StepNarrow prompt (recall_down buf o)
      → Echoes prompt buf (recall_down buf o)
  down-Echoes buf (History.shows entry, h) r n = (shown-retyped prompt buf entry r.0 n, r.0, r.1)
  down-Echoes buf (History.nothing, h) r n =
      (shown-clear_input prompt (length buf) buf (omega arith), tt, r)
  down-Echoes buf (History.panics, h) r n = absurd r
