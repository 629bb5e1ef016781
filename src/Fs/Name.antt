-- ===== src/Fs/Name.antt =====
-- Rust's `String` as a key of a `BTreeMap`: its bytes, in byte-wise lexicographic order, and the
-- check of `core::str::from_utf8`, on which src/fs/ramfs.rs relies.
use Prim.Native.Nat.{compare, Ordering}
use polaros.Prelude.{
  ℕ, ◌≡◌, refl, Bool, true, false, ◌&&◌, Option, none, some, List, [], ◌∷◌, arith, leb, ltb, ◌==◌,
  if◌then◌else◌, Bytes,
}

abbrev pub Name : Type 0
Name = Bytes

-- `Ord for str`.
unfoldable pub cmp : Name → Name → Ordering
cmp [] [] = Ordering.eq
cmp [] (y ∷ ys) = Ordering.lt
cmp (x ∷ xs) [] = Ordering.gt
cmp (x ∷ xs) (y ∷ ys) = elim (compare x y) [
  | Ordering.lt ↦ Ordering.lt
  | Ordering.eq ↦ cmp xs ys
  | Ordering.gt ↦ Ordering.gt
]

-- `==` of strings.
abbrev pub name_eq : Name → Name → Bool
name_eq a b = elim (cmp a b) [ Ordering.eq ↦ true | _ ↦ false ]

pub cmp_refl : (a : Name) → cmp a a ≡ Ordering.eq
unfolding cmp
cmp_refl [] = refl
cmp_refl (x ∷ xs) = ground (arith, cmp_refl xs)

pub eq-cmp : (a b : Name) → cmp a b ≡ Ordering.eq → a ≡ b
unfolding cmp
eq-cmp [] [] h = refl
eq-cmp [] (y ∷ ys) h = cc
eq-cmp (x ∷ xs) [] h = cc
eq-cmp (x ∷ xs) (y ∷ ys) h = ground (arith, eq-cmp xs ys)

pub cmp_swap_lt : (a b : Name) → cmp a b ≡ Ordering.lt → cmp b a ≡ Ordering.gt
unfolding cmp
cmp_swap_lt [] [] h = cc
cmp_swap_lt [] (y ∷ ys) h = refl
cmp_swap_lt (x ∷ xs) [] h = cc
cmp_swap_lt (x ∷ xs) (y ∷ ys) h = ground (arith, cmp_swap_lt xs ys)

pub cmp_swap_gt : (a b : Name) → cmp a b ≡ Ordering.gt → cmp b a ≡ Ordering.lt
unfolding cmp
cmp_swap_gt [] [] h = cc
cmp_swap_gt [] (y ∷ ys) h = cc
cmp_swap_gt (x ∷ xs) [] h = refl
cmp_swap_gt (x ∷ xs) (y ∷ ys) h = ground (arith, cmp_swap_gt xs ys)

pub cmp_trans :
    (a b c : Name) → cmp a b ≡ Ordering.gt → cmp b c ≡ Ordering.gt → cmp a c ≡ Ordering.gt
unfolding cmp
cmp_trans [] [] c h k = cc
cmp_trans [] (y ∷ ys) c h k = cc
cmp_trans (x ∷ xs) [] [] h k = refl
cmp_trans (x ∷ xs) [] (z ∷ zs) h k = cc
cmp_trans (x ∷ xs) (y ∷ ys) [] h k = refl
cmp_trans (x ∷ xs) (y ∷ ys) (z ∷ zs) h k = ground (arith, cmp_trans xs ys zs)

-- The ranges of the bytes that may follow a leading byte (the well-formed sequences of Unicode).
abbrev Range : Type 0
Range = ℕ × ℕ

utf8_tail : ℕ → Option (List Range)
utf8_tail b =
    if ltb b 0x80
    then some []
    else if ltb b 0xC2
    then none
    else if ltb b 0xE0
    then some ((0x80, 0xBF) ∷ [])
    else if b == 0xE0
    then some ((0xA0, 0xBF) ∷ (0x80, 0xBF) ∷ [])
    else if b == 0xED
    then some ((0x80, 0x9F) ∷ (0x80, 0xBF) ∷ [])
    else if ltb b 0xF0
    then some ((0x80, 0xBF) ∷ (0x80, 0xBF) ∷ [])
    else if b == 0xF0
    then some ((0x90, 0xBF) ∷ (0x80, 0xBF) ∷ (0x80, 0xBF) ∷ [])
    else if ltb b 0xF4
    then some ((0x80, 0xBF) ∷ (0x80, 0xBF) ∷ (0x80, 0xBF) ∷ [])
    else if b == 0xF4
    then some ((0x80, 0x8F) ∷ (0x80, 0xBF) ∷ (0x80, 0xBF) ∷ [])
    else none

utf8_from : List Range → Bytes → Bool
utf8_from [] [] = true
utf8_from (r ∷ rs) [] = false
utf8_from [] (b ∷ bs) = elim (utf8_tail b) [ none ↦ false | some rs ↦ utf8_from rs bs ]
utf8_from ((lo, hi) ∷ rs) (b ∷ bs) = leb lo b && leb b hi && utf8_from rs bs

-- `core::str::from_utf8(bytes).is_ok()`.
unfoldable pub is_utf8 : Bytes → Bool
unfolding utf8_tail utf8_from
is_utf8 bs = utf8_from [] bs
