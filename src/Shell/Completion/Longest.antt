-- ===== src/Shell/Completion/Longest.antt =====
-- What `common_prefix` returns is the longest common prefix.
use mathlib.Core.Path.{subst}
use polaros.Prelude.{
  ℕ, zero, suc, ◌+◌, ◌≤◌, ◌≡◌, refl, inl, inr, Bool-cases, min, true, List, [], ◌∷◌, length,
  length-take, take, ◌==◌, if◌then◌else◌, Bytes, All, arith,
}
use polaros.Fs.Name.{Name}
use polaros.Shell.Completion.{starts_with, shorten, shorten_all, slice, common_prefix}

-- How many first bytes two names share.
abbrev pub shared : Bytes → Bytes → ℕ
shared [] ys = 0
shared (a ∷ xs) [] = 0
shared (a ∷ xs) (b ∷ ys) = if a == b then suc (shared xs ys) else 0

shorten-shared :
    (xs ys : Bytes) (i len : ℕ)
    → len ≤ i + length xs
    → len ≤ i + length ys
    → shorten xs ys i len ≡ min len (i + shared xs ys)
unfolding shorten
shorten-shared [] ys i len h k = omega arith
shorten-shared (a ∷ xs) [] i len h k = omega arith
shorten-shared (a ∷ xs) (b ∷ ys) i len h k =
    let again = shorten-shared xs ys (i + 1) len (omega arith) (omega arith) in
    elim (Bool-cases (a == b)) [
      | inl same ↦ rw same (omega (arith, again))
      | inr other ↦ rw other (omega arith)
    ]

starts-shared : (n : ℕ) (xs ys : Bytes) → n ≤ shared xs ys → starts_with ys (take n xs) ≡ true
starts-shared zero xs ys h = refl
starts-shared (suc n) [] ys h = refl
starts-shared (suc n) (a ∷ xs) [] h = absurd (omega arith)
starts-shared (suc n) (a ∷ xs) (b ∷ ys) h = ground (arith, starts-shared n xs ys)

starts_self : (n : ℕ) (xs : Bytes) → starts_with xs (take n xs) ≡ true
starts_self zero xs = refl
starts_self (suc n) [] = refl
starts_self (suc n) (a ∷ xs) = ground (arith, starts_self n xs)

shared-longest :
    (q xs ys : Bytes) → starts_with xs q ≡ true → starts_with ys q ≡ true → length q ≤ shared xs ys
shared-longest [] xs ys h k = omega arith
shared-longest (x ∷ q) [] ys h k = cc
shared-longest (x ∷ q) (a ∷ xs) [] h k = cc
shared-longest (x ∷ q) (a ∷ xs) (b ∷ ys) h k = ground (arith, shared-longest q xs ys)

pub starts-length : (q xs : Bytes) → starts_with xs q ≡ true → length q ≤ length xs
starts-length [] xs h = omega arith
starts-length (x ∷ q) [] h = cc
starts-length (x ∷ q) (a ∷ xs) h = ground (arith, starts-length q xs)

-- The length that the loops come to.
record Narrowed (first : Name) (ss : List Name) (len n : ℕ) : Type 0 where
  short : n ≤ len
  common : All (λ s. starts_with s (take n first) ≡ true) ss

narrowed :
    (first : Name) (ss : List Name) (len : ℕ)
    → len ≤ length first
    → Narrowed first ss len (shorten_all first ss len)
unfolding shorten_all
narrowed first [] len h = record { short = omega arith; common = tt }
narrowed first (s ∷ ss) len h =
    let l = shorten first s 0 (min len (length s)) in
    let e = shorten-shared first s 0 (min len (length s)) (omega arith) (omega arith) in
    let again = narrowed first ss l (omega (arith, e)) in
    record {
      short = omega (arith, again.short, e);
      common = (
        starts-shared (shorten_all first ss l) first s (omega (arith, again.short, e)),
        again.common,
      );
    }

longest :
    (q first : Name) (ss : List Name) (len : ℕ)
    → len ≤ length first
    → starts_with first q ≡ true
    → length q ≤ len
    → All (λ s. starts_with s q ≡ true) ss
    → length q ≤ shorten_all first ss len
unfolding shorten_all
longest q first [] len h k le all = le
longest q first (s ∷ ss) len h k le all =
    let e = shorten-shared first s 0 (min len (length s)) (omega arith) (omega arith) in
    let near = shared-longest q first s k all.0 in
    let fits = starts-length q s all.0 in
    longest q first ss (shorten first s 0 (min len (length s))) (omega (arith, e)) k
      (omega (arith, e, near, fits)) all.1

-- Where `common_prefix` returns a prefix, all of the strings start with it, and no prefix of all of them
-- is longer.
pub common_prefix_lem :
    (first : Name) (ss : List Name) (p q : Name)
    → common_prefix (first ∷ ss) ≡ slice p
    → All (λ s. starts_with s q ≡ true) (first ∷ ss)
    → All (λ s. starts_with s p ≡ true) (first ∷ ss) × (length q ≤ length p)
unfolding common_prefix
common_prefix_lem first ss p q h all =
    let n = shorten_all first ss (length first) in
    let w = narrowed first ss (length first) (omega arith) in
    let same : take n first ≡ p = ground (arith, h) in
    let far =
      longest q first ss (length first) (omega arith) all.0 (starts-length q first all.0) all.1 in
    subst (λ (r : Name). All (λ s. starts_with s r ≡ true) (first ∷ ss) × (length q ≤ length r))
      same ((starts_self n first, w.common), omega (arith, far, w.short, length-take n first))
