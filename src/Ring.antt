-- ===== src/Ring.antt =====
-- Fixed arrays that are read and written round their end: the lemmas that the event queue
-- (src/gui/event.rs) and the scancode buffer (src/drivers/keyboard.rs) share.
use native.Mathlib.Decide.{dec_lt}
use native.Mathlib.Nat.{mod-eq_of_lt, mod-eq-sub-mod, mod-add-mod}
use polaros.Prelude.{
  ℕ, zero, suc, ◌+◌, ◌-◌, ◌%◌, ◌≤◌, ◌<◌, ◌≡◌, ◌≢◌, refl, sym, ap, ap₂, ◌∙◌, ◌⊎◌, inl, inr, Option,
  none, some, List, [], ◌∷◌, ◌++◌, arith, ltb, if◌then◌else◌, length, get_or, set, get_or-set_self,
  get_or-set_ne,
}

-- What a bounded queue does with one more item: when it is full, the item is lost.
abbrev pub offer {ℓ} : {A : Type ℓ} → ℕ → List A → A → List A
offer cap q x = if ltb (length q) cap then q ++ x ∷ [] else q

abbrev pub tail {ℓ} : {A : Type ℓ} → List A → List A
tail [] = []
tail (x ∷ xs) = xs

abbrev pub head? {ℓ} : {A : Type ℓ} → List A → Option A
head? [] = none
head? (x ∷ xs) = some x

-- The slot after slot `i`.
abbrev pub next : ℕ → ℕ → ℕ
next cap i = (i + 1) % cap

module _ {ℓ} {A : Type ℓ} (cap : ℕ) (default : A) where
  -- The `n` items from slot `i` on.
  abbrev pub unroll : List A → ℕ → ℕ → List A
  unroll buf i zero = []
  unroll buf i (suc n) = get_or buf i default ∷ unroll buf (next cap i) n

  pub length-unroll : (buf : List A) (i n : ℕ) → length (unroll buf i n) ≡ n
  length-unroll buf i zero = refl
  length-unroll buf i (suc n) = ap suc (length-unroll buf (next cap i) n)

  pub unroll_pos :
      (buf : List A) (i n : ℕ)
      → n ≢ 0
      → unroll buf i n ≡ get_or buf i default ∷ unroll buf (next cap i) (n - 1)
  unroll_pos buf i zero h = absurd (h refl)
  unroll_pos buf i (suc n) h = ap (λ k. unroll buf i (suc k)) (omega arith)

pub round_cases :
    (cap i n : ℕ)
    → i < cap
    → n ≤ cap
    → ((i + n < cap) × ((i + n) % cap ≡ i + n)) ⊎ ((cap ≤ i + n) × ((i + n) % cap ≡ i + n - cap))
round_cases cap i n h k = elim (dec_lt (i + n) cap) [
  | yes lt ↦ inl (lt, mod-eq_of_lt lt)
  | no ge ↦ inr (
    omega arith,
    mod-eq-sub-mod {n = i + n} {m = cap} (omega arith)
        ∙ mod-eq_of_lt {n = i + n - cap} {m = cap} (omega arith),
  )
]

pub next-lt : (cap i : ℕ) → i < cap → next cap i < cap
next-lt cap i h = omega (arith, round_cases cap i 1 h (omega arith))

pub next-round : (cap i n : ℕ) → (next cap i + n) % cap ≡ (i + suc n) % cap
next-round cap i n = rw mod-add-mod (ap (λ k. k % cap) (omega arith))

-- Fewer steps than there are slots do not lead back.
pub round_ne : (cap i k : ℕ) → i < cap → suc k < cap → (i + suc k) % cap ≢ i
round_ne cap i k h l = omega (arith, round_cases cap i (suc k) h (omega arith))

module _ {ℓ} {A : Type ℓ} (cap : ℕ) (default : A) (buf : List A) (x : A)
    (room : cap ≤ length buf) where
  -- A write outside the items leaves them.
  pub unroll-set_ne :
      (i n k j : ℕ)
      → i < cap
      → n ≤ k
      → k < cap
      → j ≡ (i + k) % cap
      → unroll cap default (set buf j x) i n ≡ unroll cap default buf i n
  unroll-set_ne i zero k j hi hn hk e = refl
  unroll-set_ne i (suc n) zero j hi hn hk e = absurd (omega arith)
  unroll-set_ne i (suc n) (suc k) j hi hn hk e =
      let away : j ≢ i = rw e (round_ne cap i k hi hk) in
      ap₂ ◌∷◌ (get_or-set_ne buf j i x default away) (
        unroll-set_ne (next cap i) n k j (next-lt cap i hi) (omega arith) (omega arith)
          (e ∙ sym (next-round cap i k)))

  -- A write just behind the items adds one.
  pub unroll-set :
      (i n j : ℕ)
      → i < cap
      → n < cap
      → j ≡ (i + n) % cap
      → unroll cap default (set buf j x) i (suc n) ≡ unroll cap default buf i n ++ x ∷ []
  unroll-set i zero j hi hn e =
      let here : j ≡ i = omega (arith, round_cases cap i 0 hi (omega arith)) in
      rw here (ap (λ y. y ∷ []) (get_or-set_self buf i x default (omega arith)))
  unroll-set i (suc n) j hi hn e =
      let away : j ≢ i = rw e (round_ne cap i n hi hn) in
      ap₂ ◌∷◌ (get_or-set_ne buf j i x default away) (
        unroll-set (next cap i) n j (next-lt cap i hi) (omega arith) (e ∙ sym (next-round cap i n)))
