-- ===== src/Kernel/Task/Search.antt =====
-- The search of `find_and_switch` for the next runnable task: it ends, stays in range, and finds the
-- first one in round-robin order.
use polaros.Prelude.{
  ℕ, zero, suc, ◌+◌, ◌%◌, ◌≤◌, ◌<◌, ◌≡◌, ◌≢◌, refl, ap, ◌∙◌, Bool, true, false, ◌⊎◌, inl, inr,
  Bool-cases, Option, none, some, List, [], ◌∷◌, arith, length, get_elem?,
}
use native.Mathlib.Decide.{dec_lt}
use native.Mathlib.Nat.{mod-add-mod}
use polaros.Ring.{round_cases, round_ne}
use polaros.Kernel.Task.{Task, Outcome, returns, runnable, find_next}

-- The task at an index can run.
abbrev pub runnable_at : List Task → ℕ → Bool
runnable_at tasks i = elim (get_elem? tasks i) [ none ↦ false | some t ↦ runnable t.state ]

-- What the search from the `k`-th task behind `start` on comes to: a runnable task with no
-- runnable one before it, or none at all.
pub data Searched (tasks : List Task) (start k : ℕ) (o : Outcome (Option ℕ)) : Type 0 where
  found :
      (m : ℕ)
      → k ≤ m
      → m < length tasks
      → runnable_at tasks ((start + m) % length tasks) ≡ true
      → ((j : ℕ) → k ≤ j → j < m → runnable_at tasks ((start + j) % length tasks) ≡ false)
      → o ≡ returns (some ((start + m) % length tasks))
      → Searched tasks start k o
  nothing :
      ((j : ℕ) → k ≤ j → j < length tasks → runnable_at tasks ((start + j) % length tasks) ≡ false)
      → o ≡ returns none
      → Searched tasks start k o

pub get_elem?-lt :
    (tasks : List Task) (i : ℕ) → i < length tasks → (t : Task) × (get_elem? tasks i ≡ some t)
get_elem?-lt [] i h = absurd (omega arith)
get_elem?-lt (t ∷ ts) zero h = (t, refl)
get_elem?-lt (t ∷ ts) (suc i) h = get_elem?-lt ts i (omega arith)

round-lt : (n i : ℕ) → 0 < n → i % n < n
round-lt n i h = omega arith

module _ (tasks : List Task) (start : ℕ) (inside : start < length tasks) where
  from_k :
      (k : ℕ)
      → runnable_at tasks ((start + k) % length tasks) ≡ false
      → (j : ℕ) → k ≤ j
      → (suc k ≤ j → runnable_at tasks ((start + j) % length tasks) ≡ false)
      → runnable_at tasks ((start + j) % length tasks) ≡ false
  from_k k no_k j h above = elim (dec_lt k j) [
    | yes lt ↦ above lt
    | no ge ↦ let e : k ≡ j = omega arith in rw (← e) no_k
  ]

  Searched-suc :
      (k : ℕ) (o : Outcome (Option ℕ))
      → runnable_at tasks ((start + k) % length tasks) ≡ false
      → Searched tasks start (suc k) o
      → Searched tasks start k o
  Searched-suc k o no_k (found m le lt at_m before e) =
      found m (omega arith) lt at_m (λ j h l. from_k k no_k j h (λ above. before j above l)) e
  Searched-suc k o no_k (nothing none_from e) =
      nothing (λ j h l. from_k k no_k j h (λ above. none_from j above l)) e

  following_cases :
      (k : ℕ)
      → k < length tasks
      → ((suc k < length tasks) × ((start + suc k) % length tasks ≢ start))
        ⊎ ((suc k ≡ length tasks) × ((start + suc k) % length tasks ≡ start))
  following_cases k h = elim (dec_lt (suc k) (length tasks)) [
    | yes lt ↦ inl (lt, round_ne (length tasks) start k inside lt)
    | no ge ↦
        inr (
          omega arith,
          omega (arith, round_cases (length tasks) start (suc k) inside (omega arith)),
        )
  ]

  -- One round of the loop.
  module _ (fuel next : ℕ) (t : Task) (at_next : get_elem? tasks next ≡ some t) where
    round_here :
        runnable t.state ≡ true → find_next (suc fuel) tasks start next ≡ returns (some next)
    unfolding find_next
    round_here can = cc

    round_last :
        runnable t.state ≡ false
        → (next + 1) % length tasks ≡ start
        → find_next (suc fuel) tasks start next ≡ returns none
    unfolding find_next
    round_last cannot back = ground arith

    round_more :
        runnable t.state ≡ false
        → (next + 1) % length tasks ≢ start
        → find_next (suc fuel) tasks start next
          ≡ find_next fuel tasks start ((next + 1) % length tasks)
    unfolding find_next
    round_more cannot away = ground arith

  following :
      (k next : ℕ)
      → next ≡ (start + k) % length tasks
      → (next + 1) % length tasks ≡ (start + suc k) % length tasks
  following k next e = rw (e, mod-add-mod) (ap (λ n. n % length tasks) (omega arith))

  -- With a round of fuel for each task that is left, the search ends without a panic.
  pub find_next-Searched :
      (fuel k next : ℕ)
      → k < length tasks
      → length tasks ≤ fuel + k
      → next ≡ (start + k) % length tasks
      → Searched tasks start k (find_next fuel tasks start next)
  find_next-Searched zero k next h l e = absurd (omega arith)
  find_next-Searched (suc fuel) k next h l e =
      let below = round-lt (length tasks) (start + k) (omega arith) in
      let (t, at_next) = get_elem?-lt tasks next (omega arith) in
      let step = following k next e in
      let here : runnable_at tasks next ≡ runnable t.state = cc in
      elim (Bool-cases (runnable t.state)) [
        | inl can ↦
            found k (omega arith) h (rw (← e) (here ∙ can)) (λ j p q. absurd (omega arith))
              (rw (← e) (round_here fuel next t at_next can))
        | inr cannot ↦ elim (following_cases k h) [
          | inl (more, away) ↦ Searched-suc k _ (rw (← e) (here ∙ cannot)) (
              rw (round_more fuel next t at_next cannot (rw step away))
                (find_next-Searched fuel (suc k) _ more (omega arith) step))
          | inr (last, back) ↦
              nothing
                (λ j p q. from_k k (rw (← e) (here ∙ cannot)) j p (λ above. absurd (omega arith)))
                (round_last fuel next t at_next cannot (step ∙ back))
        ]
      ]
