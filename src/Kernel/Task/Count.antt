-- ===== src/Kernel/Task/Count.antt =====
-- How many tasks of a list are running, and how the operations on the list change that.
use polaros.Prelude.{
  ℕ, zero, suc, ◌+◌, ◌≤◌, ◌≡◌, refl, true, false, not, ◌||◌, ◌&&◌, ◌⊎◌, inl, inr, Bool-cases,
  Option, none, some, List, [], ◌∷◌, ◌++◌, arith, get_elem?, set, All, ◌==◌, if◌then◌else◌,
}
use polaros.Kernel.Task.{Task, is_running, is_terminated, terminate, kill_in, retain, running_index}

abbrev pub weight : Task → ℕ
weight t = if is_running t.state then 1 else 0

abbrev pub count_running : List Task → ℕ
count_running [] = 0
count_running (t ∷ ts) = weight t + count_running ts

abbrev pub first_running : List Task → Option Task
first_running [] = none
first_running (t ∷ ts) = if is_running t.state then some t else first_running ts

pub count-set :
    (ts : List Task) (i : ℕ) (t v : Task)
    → get_elem? ts i ≡ some t
    → count_running (set ts i v) + weight t ≡ count_running ts + weight v
count-set [] i t v h = cc
count-set (u ∷ ts) zero t v h = let e : u ≡ t = cc in rw e (omega arith)
count-set (u ∷ ts) (suc i) t v h = omega (arith, count-set ts i t v h)

pub weight-le-count :
    (ts : List Task) (i : ℕ) (t : Task) → get_elem? ts i ≡ some t → weight t ≤ count_running ts
weight-le-count [] i t h = cc
weight-le-count (u ∷ ts) zero t h = let e : u ≡ t = cc in rw e (omega arith)
weight-le-count (u ∷ ts) (suc i) t h = omega (arith, weight-le-count ts i t h)

pub count-append :
    (ts us : List Task) → count_running (ts ++ us) ≡ count_running ts + count_running us
count-append [] us = omega arith
count-append (t ∷ ts) us = omega (arith, count-append ts us)

-- Where one task runs, it is the first that runs.
pub first_running_only :
    (ts : List Task) (i : ℕ) (t : Task)
    → count_running ts ≡ 1
    → get_elem? ts i ≡ some t
    → weight t ≡ 1
    → first_running ts ≡ some t
first_running_only [] i t c h w = cc
first_running_only (u ∷ ts) zero t c h w = ground arith
first_running_only (u ∷ ts) (suc i) t c h w =
    ground (arith, first_running_only ts i t, weight-le-count ts i t h)

-- `retain` removes no running task.
pub count-retain : (ts : List Task) → count_running (retain ts) ≡ count_running ts
unfolding retain
count-retain [] = refl
count-retain (t ∷ ts) = ground (arith, count-retain ts)

pub first_running-retain : (ts : List Task) → first_running (retain ts) ≡ first_running ts
unfolding retain
first_running-retain [] = refl
first_running-retain (t ∷ ts) = ground (arith, first_running-retain ts)

-- What may stay: the kernel's task, and what has not terminated.
abbrev pub Stays : Task → Type 0
Stays t = ((t.id == 0) || not (is_terminated t.state)) ≡ true

pub retain-All : (ts : List Task) → All Stays (retain ts)
unfolding retain
retain-All [] = tt
retain-All (t ∷ ts) = ground (arith, retain-All ts)

-- The index that `cleanup_terminated` finds is that of the first running task.
pub running_index_first :
    (ts : List Task) (i current : ℕ) (t : Task)
    → first_running ts ≡ some t
    → (j : ℕ) × (get_elem? ts j ≡ some t) × (running_index ts i current ≡ i + j) × (weight t ≡ 1)
unfolding running_index
running_index_first [] i current t h = cc
running_index_first (u ∷ ts) i current t h = elim (Bool-cases (is_running u.state)) [
  | inl r ↦ (0, ground arith, ground arith, ground arith)
  | inr n ↦
      let (j, at, e, w) = running_index_first ts (i + 1) current t (ground arith) in
      (suc j, at, ground arith, w)
]

-- `kill_in` terminates one task of the given id, or changes nothing.
pub kill_in_cases :
    (id : ℕ) (ts : List Task)
    → (kill_in id ts ≡ (false, ts))
      ⊎ ((i : ℕ) × (t : Task) × (get_elem? ts i ≡ some t)
          × (t.id ≡ id)
          × (is_terminated t.state ≡ false)
          × (kill_in id ts ≡ (true, set ts i (terminate t))))
unfolding kill_in
kill_in_cases id [] = inl refl
kill_in_cases id (u ∷ ts) = elim (Bool-cases (u.id == id && not (is_terminated u.state))) [
  | inl hit ↦ inr (0, u, refl, ground arith, ground arith, ground arith)
  | inr miss ↦ elim (kill_in_cases id ts) [
    | inl e ↦ inl (ground arith)
    | inr (i, t, at, same, alive, e) ↦ inr (suc i, t, at, same, alive, ground arith)
  ]
]
