-- ===== src/Shell/Text/Order.antt =====
-- What `uniq` leaves of sorted lines.
use Prim.Native.Nat.{Ordering}
use polaros.Prelude.{
  ◌≡◌, refl, ◌⊎◌, inl, inr, Bool, Bool-cases, true, false, ◌||◌, ap, ◌∙◌, none, some, List, [], ◌∷◌,
  All, Bytes, arith,
}
use polaros.Fs.Name.{cmp, name_eq, eq-cmp, cmp_swap_gt}
use polaros.Shell.Text.{insert_line, sort, uniq_from}

abbrev pub leq : Bytes → Bytes → Bool
leq a b = elim (cmp a b) [ Ordering.gt ↦ false | _ ↦ true ]

leq_trans : (a b c : Bytes) → leq a b ≡ true → leq b c ≡ true → leq a c ≡ true
unfolding cmp
leq_trans [] b [] h k = refl
leq_trans [] b (z ∷ c) h k = refl
leq_trans (x ∷ a) [] c h k = cc
leq_trans (x ∷ a) (y ∷ b) [] h k = cc
leq_trans (x ∷ a) (y ∷ b) (z ∷ c) h k = ground (arith, leq_trans a b c)

lt_trans : (a b c : Bytes) → cmp a b ≡ Ordering.lt → cmp b c ≡ Ordering.lt → cmp a c ≡ Ordering.lt
unfolding cmp
lt_trans [] [] c h k = cc
lt_trans [] (y ∷ b) [] h k = cc
lt_trans [] (y ∷ b) (z ∷ c) h k = refl
lt_trans (x ∷ a) [] c h k = cc
lt_trans (x ∷ a) (y ∷ b) [] h k = cc
lt_trans (x ∷ a) (y ∷ b) (z ∷ c) h k = ground (arith, lt_trans a b c)

-- Each line comes after the ones before it, or is the same.
abbrev pub Sorted : List Bytes → Type 0
Sorted [] = Unit
Sorted (l ∷ ls) = All (λ m. leq l m ≡ true) ls × Sorted ls

-- Each line comes strictly after the ones before it.
abbrev pub Ascending : List Bytes → Type 0
Ascending [] = Unit
Ascending (l ∷ ls) = All (λ m. cmp l m ≡ Ordering.lt) ls × Ascending ls

All-leq :
    (a b : Bytes) (ls : List Bytes)
    → leq a b ≡ true
    → All (λ m. leq b m ≡ true) ls
    → All (λ m. leq a m ≡ true) ls
All-leq a b [] h k = tt
All-leq a b (l ∷ ls) h k = (leq_trans a b l h k.0, All-leq a b ls h k.1)

All-lt :
    (a b : Bytes) (ls : List Bytes)
    → cmp a b ≡ Ordering.lt
    → All (λ m. cmp b m ≡ Ordering.lt) ls
    → All (λ m. cmp a m ≡ Ordering.lt) ls
All-lt a b [] h k = tt
All-lt a b (l ∷ ls) h k = (lt_trans a b l h k.0, All-lt a b ls h k.1)

pub insert_line_cases :
    (l m : Bytes) (ms : List Bytes)
    → ((leq l m ≡ true) × (insert_line l (m ∷ ms) ≡ l ∷ m ∷ ms))
      ⊎ ((leq m l ≡ true) × (insert_line l (m ∷ ms) ≡ m ∷ insert_line l ms))
insert_line_cases l m ms = elim (Bool-cases (leq l m)) [
  | inl before ↦ inl (before, ground arith)
  | inr after ↦ inr (ground (arith, cmp_swap_gt l m), ground arith)
]

All-insert_line :
    (a l : Bytes) (ms : List Bytes)
    → leq a l ≡ true
    → All (λ m. leq a m ≡ true) ms
    → All (λ m. leq a m ≡ true) (insert_line l ms)
All-insert_line a l [] h k = (h, tt)
All-insert_line a l (m ∷ ms) h k = elim (insert_line_cases l m ms) [
  | inl (before, e) ↦ rw (e, All) (h, k)
  | inr (after, e) ↦ rw (e, All) (k.0, All-insert_line a l ms h k.1)
]

insert_line-Sorted : (l : Bytes) (ms : List Bytes) → Sorted ms → Sorted (insert_line l ms)
insert_line-Sorted l [] s = (tt, tt)
insert_line-Sorted l (m ∷ ms) s = elim (insert_line_cases l m ms) [
  | inl (before, e) ↦ rw (e, Sorted) ((before, All-leq l m ms before s.0), s)
  | inr (after, e) ↦ rw (e, Sorted) (All-insert_line m l ms after s.0, insert_line-Sorted l ms s.1)
]

pub sort-Sorted : (ls : List Bytes) → Sorted (sort ls)
sort-Sorted [] = tt
sort-Sorted (l ∷ ls) = insert_line-Sorted l (sort ls) (sort-Sorted ls)

less : (a b : Bytes) → leq a b ≡ true → name_eq a b ≡ false → cmp a b ≡ Ordering.lt
less a b h k = ground arith

uniq_some :
    (p : Bytes) (ls : List Bytes)
    → All (λ m. leq p m ≡ true) ls
    → Sorted ls
    → All (λ m. cmp p m ≡ Ordering.lt) (uniq_from (some p) ls) × Ascending (uniq_from (some p) ls)
unfolding uniq_from
uniq_some p [] h s = (tt, tt)
uniq_some p (l ∷ ls) h s =
    let same = uniq_some p ls h.1 s.1 in
    let other = uniq_some l ls s.0 s.1 in
    elim (Bool-cases (name_eq p l)) [
      | inl e ↦ rw e same
      | inr ne ↦
          let lt = less p l h.0 ne in
          rw ne ((lt, All-lt p l (uniq_from (some l) ls) lt other.0), other)
    ]

pub uniq-Ascending : (ls : List Bytes) → Sorted ls → Ascending (uniq_from none ls)
unfolding uniq_from
uniq-Ascending [] s = tt
uniq-Ascending (l ∷ ls) s = uniq_some l ls s.0 s.1

-- A line stands among the lines.
abbrev pub holds : Bytes → List Bytes → Bool
holds a [] = false
holds a (l ∷ ls) = name_eq a l || holds a ls

holds-insert_line : (a l : Bytes) (ms : List Bytes) → holds a (insert_line l ms) ≡ holds a (l ∷ ms)
holds-insert_line a l [] = refl
holds-insert_line a l (m ∷ ms) =
    let again = holds-insert_line a l ms in
    elim (insert_line_cases l m ms) [
      | inl (before, e) ↦ ap (holds a) e
      | inr (after, e) ↦ ap (holds a) e ∙ ground (arith, again)
    ]

pub holds-sort : (a : Bytes) (ls : List Bytes) → holds a (sort ls) ≡ holds a ls
holds-sort a [] = refl
holds-sort a (l ∷ ls) = holds-insert_line a l (sort ls) ∙ ground (arith, holds-sort a ls)

holds-uniq_some :
    (a p : Bytes) (ls : List Bytes)
    → (name_eq a p || holds a (uniq_from (some p) ls)) ≡ (name_eq a p || holds a ls)
unfolding uniq_from
holds-uniq_some a p [] = refl
holds-uniq_some a p (l ∷ ls) =
    let same = holds-uniq_some a p ls in
    let other = holds-uniq_some a l ls in
    elim (Bool-cases (name_eq p l)) [
      | inl e ↦ let q : p ≡ l = eq-cmp p l (ground arith) in rw e (same ∙ rw q (ground arith))
      | inr ne ↦ rw ne (ground (arith, other))
    ]

pub holds-uniq : (a : Bytes) (ls : List Bytes) → holds a (uniq_from none ls) ≡ holds a ls
unfolding uniq_from
holds-uniq a [] = refl
holds-uniq a (l ∷ ls) = holds-uniq_some a l ls
