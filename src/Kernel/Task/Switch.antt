-- ===== src/Kernel/Task/Switch.antt =====
-- `find_and_switch`: whom it switches to, and what it leaves behind.
use native.Mathlib.Decide.{dec_lt}
use native.Mathlib.Nat.{mod-add-mod}
use polaros.Prelude.{
  ℕ, zero, suc, ◌+◌, ◌%◌, ◌≤◌, ◌<◌, ◌≡◌, ◌≢◌, ap, ◌∙◌, true, false, Option, none, some, arith,
  length, get_elem?, set,
}
use polaros.Ring.{round_cases, round_ne}
use polaros.Kernel.Task.{
  Task, Scheduler, Outcome, returns, reset, leave, enter, find_next, find_and_switch,
}
use polaros.Kernel.Task.Search.{
  runnable_at, Searched, found, nothing, find_next-Searched, get_elem?-lt,
}

-- The task `d` places behind the current one, going round.
abbrev pub behind : Scheduler → ℕ → ℕ
behind s d = (s.current + d) % length s.tasks

-- The outcome of `find_and_switch`. It stays, with a new quantum, when no other task can run. It
-- goes to the first task behind the current one that can run: that one is running, with a new
-- quantum, and the one it leaves is ready if it was running.
pub data Switched (s : Scheduler) (o : Outcome (Option (ℕ × ℕ) × Scheduler)) : Type 0 where
  stays :
      (old : Task)
      → get_elem? s.tasks s.current ≡ some old
      → ((d : ℕ) → 0 < d → d < length s.tasks → runnable_at s.tasks (behind s d) ≡ false)
      → o ≡ returns (none, record s { tasks = set s.tasks s.current (reset old) })
      → Switched s o
  goes :
      (old next : Task) (m : ℕ)
      → get_elem? s.tasks s.current ≡ some old
      → 0 < m
      → m < length s.tasks
      → get_elem? s.tasks (behind s m) ≡ some next
      → runnable_at s.tasks (behind s m) ≡ true
      → ((d : ℕ) → 0 < d → d < m → runnable_at s.tasks (behind s d) ≡ false)
      → o
        ≡ returns (
          some (s.current, behind s m),
          record s {
            tasks = set (set s.tasks s.current (leave old)) (behind s m) (enter next);
            current = behind s m;
          },
        )
      → Switched s o

module _ (s : Scheduler) (inside : s.current < length s.tasks) where
  abbrev start : ℕ
  start = (s.current + 1) % length s.tasks

  start-behind : (j : ℕ) → (start + j) % length s.tasks ≡ behind s (suc j)
  start-behind j = rw mod-add-mod (ap (λ k. k % length s.tasks) (omega arith))

  behind_all : behind s (length s.tasks) ≡ s.current
  behind_all =
      omega (arith, round_cases (length s.tasks) s.current (length s.tasks) inside (omega arith))

  shifted :
      (m : ℕ)
      → ((j : ℕ) → 0 ≤ j → j < m → runnable_at s.tasks ((start + j) % length s.tasks) ≡ false)
      → (d : ℕ) → 0 < d
      → d < suc m
      → runnable_at s.tasks (behind s d) ≡ false
  shifted m before zero p q = absurd (omega arith)
  shifted m before (suc d) p q = rw (← start-behind d) (before d (omega arith) (omega arith))

  switched :
      (old : Task)
      → get_elem? s.tasks s.current ≡ some old
      → Searched s.tasks start 0 (find_next (length s.tasks) s.tasks start start)
      → Switched s (find_and_switch s)
  switched old at_old (nothing none_from e) =
      stays old at_old (λ d p q. shifted (length s.tasks) none_from d p (omega arith))
        (unfold find_and_switch in cc)
  switched old at_old (found m le lt at_m before e) = elim (dec_lt (suc m) (length s.tasks)) [
    | yes less ↦
        let (next, at_next) = get_elem?-lt s.tasks (behind s (suc m)) (omega arith) in
        let away : behind s (suc m) ≢ s.current =
          round_ne (length s.tasks) s.current m inside less in
        let e' = e ∙ ap (λ i. returns (some i)) (start-behind m) in
        goes old next (suc m) at_old (omega arith) less at_next (rw (← start-behind m) at_m)
          (shifted m before) (unfold find_and_switch in ground (arith, e'))
    | no all ↦
        let full : suc m ≡ length s.tasks = omega arith in
        let back : (start + m) % length s.tasks ≡ s.current =
          start-behind m ∙ ap (behind s) full ∙ behind_all in
        stays old at_old (λ d p q. shifted m before d p (omega arith))
          (unfold find_and_switch in ground (arith, e))
  ]

  -- With the current index in range, find_and_switch never panics and never runs for ever: it goes
  -- to the first task behind the current one that can run, or stays with a new quantum when no
  -- other task can run.
  pub find_and_switch-Switched : Switched s (find_and_switch s)
  find_and_switch-Switched =
      let (old, at_old) = get_elem?-lt s.tasks s.current inside in
      switched old at_old (
        find_next-Searched s.tasks start (omega arith) (length s.tasks) 0 start (omega arith)
          (omega arith) (omega (arith, round_cases (length s.tasks) start 0)))
