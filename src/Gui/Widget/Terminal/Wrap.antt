-- ===== src/Gui/Widget/Terminal/Wrap.antt =====
-- How `push_line` of src/gui/widget/terminal.rs breaks a text into lines.
use mathlib.Core.Path.{subst}
use polaros.Prelude.{
  ℕ, zero, suc, min, ◌+◌, ◌-◌, ◌↔◌, ◌≤◌, ◌<◌, ◌≡◌, refl, ap, sym, ◌∙◌, inl, inr, Bool-cases, true,
  false, leb, ◌==◌, Option, none, some, List, [], ◌∷◌, ◌++◌, append-nil, length, length-take,
  length-drop, take, drop, take-append-drop, All, Bytes, arith, leb→le, le→leb,
}
use polaros.Shell.Completion.{is_char_boundary}
use polaros.Gui.Widget.Terminal.{
  Terminal, cols, wrap, and_piece, newest, max_scrollback, with_pieces, push_line,
}
use polaros.Shell.Unicode.Ascii.{IsAscii, boundary-IsAscii, IsAscii-drop}

abbrev pub concat : List Bytes → Bytes
concat [] = []
concat (l ∷ ls) = l ++ concat ls

abbrev pub Fits : ℕ → Bytes → Type 0
Fits columns l = length l ≤ columns

-- The lines that a text is broken into: each fits, and together they are the text.
pub record Wrapped (columns : ℕ) (line : Bytes) (pieces : List Bytes) : Type 0 where
  pub whole : concat pieces ≡ line
  pub fit : All (Fits columns) pieces

and_piece-some :
    (left : Bytes) (o : Option (List Bytes)) (pieces : List Bytes)
    → and_piece left o ≡ some pieces
    → (rest : List Bytes) × (o ≡ some rest) × (pieces ≡ left ∷ rest)
and_piece-some left none pieces h = absurd (ground (arith, h))
and_piece-some left (some rest) pieces h = (rest, refl, ground (arith, h))

single-Wrapped :
    (columns : ℕ) (line : Bytes) (pieces : List Bytes)
    → leb (length line) columns ≡ true
    → pieces ≡ line ∷ []
    → Wrapped columns line pieces
single-Wrapped columns line pieces t e =
    subst (Wrapped columns line) (sym e)
      (record { whole = append-nil line; fit = (leb→le (length line) columns t, tt) })

-- Whatever comes out is the text in lines that fit.
pub wrap-Wrapped :
    (fuel columns : ℕ) (line : Bytes) (pieces : List Bytes)
    → wrap fuel columns line ≡ some pieces
    → Wrapped columns line pieces
unfolding wrap
wrap-Wrapped zero columns line pieces h = elim (Bool-cases (leb (length line) columns)) [
  | inl t ↦ single-Wrapped columns line pieces t (ground (arith, t, h))
  | inr f ↦ absurd (ground (arith, f, h))
]
wrap-Wrapped (suc fuel) columns line pieces h = elim (Bool-cases (leb (length line) columns)) [
  | inl t ↦ single-Wrapped columns line pieces t (ground (arith, t, h))
  | inr f ↦ elim (Bool-cases (is_char_boundary line columns)) [
    | inl b ↦
        let left = take columns line in
        let (rest, e, same) =
          and_piece-some left (wrap fuel columns (drop columns line)) pieces
            (ground (arith, f, b, h)) in
        let ih = wrap-Wrapped fuel columns (drop columns line) rest e in
        subst (Wrapped columns line) (sym same) (record {
          whole = ap (λ (r : Bytes). left ++ r) ih.whole ∙ take-append-drop columns line;
          fit = (omega (arith, length-take columns line), ih.fit);
        })
    | inr g ↦ absurd (ground (arith, f, g, h))
  ]
]

-- A text of ASCII is broken up without a panic, and the fuel is enough.
wrap-IsAscii :
    (fuel columns : ℕ) (line : Bytes)
    → 0 < columns
    → length line ≤ fuel
    → IsAscii line
    → (pieces : List Bytes) × (wrap fuel columns line ≡ some pieces)
unfolding wrap
wrap-IsAscii zero columns line pos room h =
    let t : leb (length line) columns ≡ true = le→leb (length line) columns (omega arith) in
    (line ∷ [], rw t refl)
wrap-IsAscii (suc fuel) columns line pos room h = elim (Bool-cases (leb (length line) columns)) [
  | inl t ↦ (line ∷ [], rw t refl)
  | inr f ↦
      let long : columns < length line = ground (arith, f) in
      let (rest, e) =
        wrap-IsAscii fuel columns (drop columns line) pos (omega (arith, length-drop columns line))
          (IsAscii-drop columns line h) in
      (take columns line ∷ rest, rw (f, boundary-IsAscii line columns h, e) refl)
]

boundary-drop :
    (c : ℕ) (line : Bytes) (n : ℕ)
    → is_char_boundary (drop c line) n ≡ is_char_boundary line (c + n)
boundary-drop zero line n = let e : n ≡ 0 + n = omega arith in ap (is_char_boundary line) e
boundary-drop (suc c) [] n = refl
boundary-drop (suc c) (b ∷ line) n =
    let e : suc (c + n) ≡ suc c + n = omega arith in
    boundary-drop c line n ∙ ap (is_char_boundary (b ∷ line)) e

-- The width of `k` lines and one.
abbrev pub width_of : ℕ → ℕ → ℕ
width_of zero columns = columns
width_of (suc k) columns = columns + width_of k columns

-- A line that is not the last one ends inside a character.
abbrev pub SplitsChar : ℕ → Bytes → Type 0
SplitsChar columns line =
    (k : ℕ) × (width_of k columns < length line)
    × (is_char_boundary line (width_of k columns) ≡ false)

and_piece-none : (left : Bytes) (o : Option (List Bytes)) → and_piece left o ≡ none → o ≡ none
and_piece-none left none h = refl
and_piece-none left (some rest) h = absurd (ground (arith, h))

wrap-SplitsChar :
    (fuel columns : ℕ) (line : Bytes)
    → 0 < columns
    → length line ≤ fuel
    → wrap fuel columns line ≡ none
    → SplitsChar columns line
unfolding wrap
wrap-SplitsChar zero columns line pos room h =
    let t : leb (length line) columns ≡ true = le→leb (length line) columns (omega arith) in
    absurd (ground (arith, t, h))
wrap-SplitsChar (suc fuel) columns line pos room h = elim (Bool-cases (leb (length line) columns)) [
  | inl t ↦ absurd (ground (arith, t, h))
  | inr f ↦
      let long : columns < length line = ground (arith, f) in
      elim (Bool-cases (is_char_boundary line columns)) [
        | inl b ↦
            let rest = drop columns line in
            let fails =
              and_piece-none (take columns line) (wrap fuel columns rest)
                (ground (arith, f, b, h)) in
            let shorter = length-drop columns line in
            let (k, lt, inside) =
              wrap-SplitsChar fuel columns rest pos (omega (arith, shorter)) fails in
            (
              suc k,
              omega (arith, shorter),
              sym (boundary-drop columns line (width_of k columns)) ∙ inside,
            )
        | inr g ↦ (0, long, g)
      ]
]

width_of-le : (k columns : ℕ) → columns ≤ width_of k columns
width_of-le zero columns = omega arith
width_of-le (suc k) columns = omega arith

SplitsChar-wrap :
    (fuel columns : ℕ) (line : Bytes)
    → 0 < columns
    → SplitsChar columns line
    → wrap fuel columns line ≡ none
unfolding wrap
SplitsChar-wrap zero columns line pos (k, lt, inside) =
    let f : leb (length line) columns ≡ false = ground (arith, width_of-le k columns) in rw f refl
SplitsChar-wrap (suc fuel) columns line pos (zero, lt, inside) =
    let f : leb (length line) columns ≡ false = ground arith in rw (f, inside) refl
SplitsChar-wrap (suc fuel) columns line pos (suc k, lt, inside) =
    let f : leb (length line) columns ≡ false = ground (arith, width_of-le k columns) in
    let rest = SplitsChar-wrap fuel columns (drop columns line) pos (
      k,
      omega (arith, length-drop columns line),
      boundary-drop columns line (width_of k columns) ∙ inside,
    ) in
    elim (Bool-cases (is_char_boundary line columns)) [
      | inl b ↦ rw (f, b, rest) refl
      | inr g ↦ rw (f, g) refl
    ]

pub length-newest : (ls : List Bytes) → length (newest ls) ≤ max_scrollback
length-newest ls = omega (arith, length-drop (length ls - max_scrollback) ls)

-- What a terminal shows after a text has been pushed: the newest 100 of its lines and of the pieces.
pub record Pushed (t t' : Terminal) (line : Bytes) : Type 0 where
  pub pieces : List Bytes
  pub wrapped : Wrapped (cols t) line pieces
  pub older : List Bytes
  pub split : t.lines ++ pieces ≡ older ++ t'.lines
  pub newest_stay : length t'.lines ≡ min 100 (length (t.lines ++ pieces))
  pub same : t' ≡ record t { lines = t'.lines }

-- A text of ASCII is pushed without a panic onto a terminal that is as wide as a character: it is shown
-- in pieces that fit and together are the text, behind what was there, and of all lines the newest 100
-- stay.
pub push_line-Pushed :
    (t : Terminal) (line : Bytes)
    → 0 < cols t
    → IsAscii line
    → (t' : Terminal) × (push_line t line ≡ some t') × Pushed t t' line
unfolding push_line
push_line-Pushed t line pos h =
    let (pieces, e) = wrap-IsAscii (length line) (cols t) line pos (omega arith) h in
    let wide : (cols t == 0) ≡ false = ground arith in
    let both = t.lines ++ pieces in
    let t' = record t { lines = newest both } in
    (
      t',
      rw (wide, e) refl,
      record {
        pieces = pieces;
        wrapped = wrap-Wrapped (length line) (cols t) line pieces e;
        older = take (length both - 100) both;
        split = sym (take-append-drop (length both - 100) both);
        newest_stay = omega (arith, length-drop (length both - 100) both);
        same = refl;
      },
    )

with_pieces-none : (t : Terminal) (o : Option (List Bytes)) → with_pieces t o ≡ none → o ≡ none
with_pieces-none t none h = refl
with_pieces-none t (some pieces) h = absurd (ground (arith, h))

-- Pushing a text onto a terminal that is as wide as a character panics exactly when the text is longer
-- than some whole number of lines and has the inside of a character where these end.
pub push_line-panic :
    (t : Terminal) (line : Bytes)
    → 0 < cols t
    → (push_line t line ≡ none) ↔ SplitsChar (cols t) line
unfolding push_line
push_line-panic t line pos =
    let wide : (cols t == 0) ≡ false = ground arith in
    rw wide (
      λ h.
          wrap-SplitsChar (length line) (cols t) line pos (omega arith)
            (with_pieces-none t (wrap (length line) (cols t) line) h),
      λ h. ap (with_pieces t) (SplitsChar-wrap (length line) (cols t) line pos h),
    )
