-- ===== src/Kernel/Task/Invariant.antt =====
-- The scheduler's invariant, kept by every call: exactly one task is running, `current` is its
-- index, and the kernel's task stands first and is never terminated.
use polaros.Prelude.{
  ℕ, zero, suc, ◌-◌, ◌<◌, ◌≡◌, ◌≢◌, refl, ap, sym, ◌∙◌, true, false, ◌⊎◌, inl, inr, Bool-cases,
  Option, none, some, List, [], ◌∷◌, arith, length, length-set, get_elem?, get_elem?-set_self,
  get_elem?-set_ne, lt_of_get_elem?, set, ltb, leb,
}
use polaros.Ring.{round_cases}
use polaros.Kernel.Task.{
  Task, Scheduler, Outcome, returns, is_terminated, is_running, reset, leave, enter, terminate, new,
  find_and_switch, schedule_preempt, schedule_yield, terminate_current, kernel_task,
  exit_current_task,
}
use polaros.Kernel.Task.Search.{runnable_at}
use polaros.Kernel.Task.Count.{weight, count_running, count-set, weight-le-count}
use polaros.Kernel.Task.Switch.{Switched, stays, goes, behind, find_and_switch-Switched}

-- All of the invariant but that the current task is running.
pub record IsSound (s : Scheduler) : Type 0 where
  pub task : Task
  pub at_current : get_elem? s.tasks s.current ≡ some task
  pub counted : count_running s.tasks ≡ weight task
  pub kernel : Task
  pub at_zero : get_elem? s.tasks 0 ≡ some kernel
  pub kernel_id : kernel.id ≡ 0
  pub kernel_alive : is_terminated kernel.state ≡ false

pub record IsValid (s : Scheduler) : Type 0 where
  pub sound : IsSound s
  pub runs : is_running sound.task.state ≡ true

pub new-IsValid : IsValid new
unfolding new
new-IsValid = record {
  sound = record {
    task = kernel_task;
    at_current = refl;
    counted = refl;
    kernel = kernel_task;
    at_zero = refl;
    kernel_id = refl;
    kernel_alive = refl;
  };
  runs = refl;
}

-- A task of the list is replaced by one that is terminated only if it was, or is not the kernel's.
kernel-set :
    (ts : List Task) (i : ℕ) (t v k : Task)
    → get_elem? ts i ≡ some t
    → get_elem? ts 0 ≡ some k
    → k.id ≡ 0
    → is_terminated k.state ≡ false
    → v.id ≡ t.id
    → (t.id ≡ 0 → is_terminated t.state ≡ false → is_terminated v.state ≡ false)
    → (k' : Task) × (get_elem? (set ts i v) 0 ≡ some k')
      × (k'.id ≡ 0)
      × (is_terminated k'.state ≡ false)
kernel-set (u ∷ ts) zero t v k at at0 kid alive same keep =
    (v, refl, same ∙ ground arith, keep (ground arith) (ground arith))
kernel-set (u ∷ ts) (suc i) t v k at at0 kid alive same keep = (k, at0, kid, alive)
kernel-set [] i t v k at at0 kid alive same keep = cc

-- The scheduler that stays with its current task.
module _ (s : Scheduler) (h : IsSound s) where
  inside : s.current < length s.tasks
  inside = lt_of_get_elem? s.tasks s.current h.task h.at_current

  -- The current task is replaced by one that differs in what the invariant does not read.
  stay-IsValid :
      (old v : Task)
      → get_elem? s.tasks s.current ≡ some old
      → v.id ≡ old.id
      → v.state ≡ old.state
      → is_running h.task.state ≡ true
      → IsValid (record s { tasks = set s.tasks s.current v })
  stay-IsValid old v at_old id_same state_same r =
      let same : h.task ≡ old = ground (arith, h.at_current) in
      let c = count-set s.tasks s.current old v at_old in
      let (k, at0, kid, alive) =
        kernel-set s.tasks s.current old v h.kernel at_old h.at_zero h.kernel_id h.kernel_alive
          id_same (λ p q. rw state_same q) in
      let w : weight v ≡ weight old = ground arith in
      record {
        sound = record {
          task = v;
          at_current = get_elem?-set_self s.tasks s.current v inside;
          counted = omega (arith, c, h.counted, ap weight same, w);
          kernel = k;
          at_zero = at0;
          kernel_id = kid;
          kernel_alive = alive;
        };
        runs = ground arith;
      }

  -- The scheduler that goes on to another task.
  go-IsValid :
      (old next : Task) (n : ℕ)
      → get_elem? s.tasks s.current ≡ some old
      → n ≢ s.current
      → get_elem? s.tasks n ≡ some next
      → IsValid
          (record s { tasks = set (set s.tasks s.current (leave old)) n (enter next); current = n })
  go-IsValid old next n at_old away at_next =
      let left = set s.tasks s.current (leave old) in
      let same : h.task ≡ old = ground (arith, h.at_current) in
      let c = count-set s.tasks s.current old (leave old) at_old in
      let at_next' : get_elem? left n ≡ some next =
        get_elem?-set_ne s.tasks s.current n (leave old) (λ e. away (sym e)) ∙ at_next in
      let c' = count-set left n next (enter next) at_next' in
      let small = weight-le-count left n next at_next' in
      let (k, at0, kid, alive) =
        kernel-set s.tasks s.current old (leave old) h.kernel at_old h.at_zero h.kernel_id
          h.kernel_alive refl (λ p q. ground arith) in
      let (k', at0', kid', alive') =
        kernel-set left n next (enter next) k at_next' at0 kid alive refl (λ p q. refl) in
      record {
        sound = record {
          task = enter next;
          at_current =
              get_elem?-set_self left n (enter next) (lt_of_get_elem? left n next at_next');
          counted = ground (arith, h.counted, ap weight same);
          kernel = k';
          at_zero = at0';
          kernel_id = kid';
          kernel_alive = alive';
        };
        runs = refl;
      }

-- The call comes to a result, without a panic, and the scheduler that it leaves is valid.
abbrev pub Keeps : Outcome (Option (ℕ × ℕ) × Scheduler) → Type 0
Keeps o = (r : Option (ℕ × ℕ)) × (s' : Scheduler) × (o ≡ returns (r, s')) × IsValid s'

module _ (s : Scheduler) (h : IsSound s) where
  kernel_runnable : runnable_at s.tasks 0 ≡ true
  kernel_runnable = ground (arith, h.at_zero, h.kernel_alive)

  not_idle :
      s.current ≢ 0
      → ¬ ((d : ℕ) → 0 < d → d < length s.tasks → runnable_at s.tasks (behind s d) ≡ false)
  not_idle ne idle =
      let back : behind s (length s.tasks - s.current) ≡ 0 = omega (
        arith,
        inside s h,
        round_cases (length s.tasks) s.current (length s.tasks - s.current) (inside s h)
            (omega arith),
      ) in
      let dead =
        idle (length s.tasks - s.current) (omega (arith, inside s h)) (omega (arith, inside s h)) in
      cc (kernel_runnable, dead, ap (runnable_at s.tasks) back)

  outcome-Keeps :
      (o : Outcome (Option (ℕ × ℕ) × Scheduler))
      → (is_running h.task.state ≡ true) ⊎ (s.current ≢ 0)
      → Switched s o
      → Keeps o
  outcome-Keeps o why (stays old at_old idle q) =
      (none, _, q, stay-IsValid s h old (reset old) at_old refl refl runs)
    where
      runs : is_running h.task.state ≡ true
      runs = elim why [ inl r ↦ r | inr ne ↦ absurd (not_idle ne idle) ]
  outcome-Keeps o why (goes old next m at_old pos small at_next can before q) =
      let away : behind s m ≢ s.current =
        omega (
          arith,
          inside s h,
          round_cases (length s.tasks) s.current m (inside s h) (omega arith),
        ) in
      (some (s.current, behind s m), _, q, go-IsValid s h old next (behind s m) at_old away at_next)

  pub switch-Keeps : (is_running h.task.state ≡ true) ⊎ (s.current ≢ 0) → Keeps (find_and_switch s)
  switch-Keeps why = outcome-Keeps (find_and_switch s) why (find_and_switch-Switched s (inside s h))

-- A cooperative yield on a valid scheduler, whatever the tasks, comes to a result without a panic and keeps the
-- invariant.
pub schedule_yield-Keeps : (s : Scheduler) → IsValid s → Keeps (schedule_yield s)
unfolding schedule_yield
schedule_yield-Keeps s v = elim (Bool-cases (leb (length s.tasks) 1)) [
  | inl one ↦ (none, s, ground arith, v)
  | inr more ↦ rw more (switch-Keeps s v.sound (inl v.runs))
]

-- The current task with one tick less.
abbrev spend : Task → Task
spend t = record t { quantum_remaining = t.quantum_remaining - 1 }

abbrev ticked : Scheduler → Task → Scheduler
ticked s t = record s { tasks = set s.tasks s.current (spend t) }

-- A timer tick on a valid scheduler, whatever the tasks and the quantum that is left, comes to a result without a panic
-- and keeps the invariant.
pub schedule_preempt-Keeps : (s : Scheduler) → IsValid s → Keeps (schedule_preempt s)
unfolding schedule_preempt
schedule_preempt-Keeps s v =
    let h = v.sound in
    let at = h.at_current in
    let v1 = stay-IsValid s h h.task (spend h.task) at refl refl v.runs in
    elim (Bool-cases (leb (length s.tasks) 1)) [
      | inl one ↦ (none, s, ground arith, v)
      | inr more ↦ elim (Bool-cases (ltb 0 h.task.quantum_remaining)) [
        | inl some_left ↦ elim (Bool-cases (ltb 0 (h.task.quantum_remaining - 1))) [
          | inl still ↦ (none, ticked s h.task, ground arith, v1)
          | inr over ↦
              let (r, s', e, v') = switch-Keeps (ticked s h.task) v1.sound (inl v1.runs) in
              (r, s', ground arith, v')
        ]
        | inr over ↦ let (r, s', e, v') = switch-Keeps s h (inl v.runs) in (r, s', ground arith, v')
      ]
    ]

-- The current task, not the kernel's, has terminated.
terminated-IsSound :
    (s : Scheduler) (v : IsValid s)
    → s.current ≢ 0
    → IsSound (record s { tasks = set s.tasks s.current (terminate v.sound.task) })
terminated-IsSound s v ne =
    let h = v.sound in
    let t = h.task in
    let c = count-set s.tasks s.current t (terminate t) h.at_current in
    record {
      task = terminate t;
      at_current = get_elem?-set_self s.tasks s.current (terminate t) (inside s h);
      counted = omega (arith, c, h.counted);
      kernel = h.kernel;
      at_zero = get_elem?-set_ne s.tasks s.current 0 (terminate t) ne ∙ h.at_zero;
      kernel_id = h.kernel_id;
      kernel_alive = h.kernel_alive;
    }

-- The exit of a task other than the first, in a valid scheduler, comes to a result without a panic,
-- and the scheduler that it leaves is valid.
pub exit_current_task-Keeps :
    (s : Scheduler) → IsValid s → s.current ≢ 0 → Keeps (exit_current_task s)
unfolding exit_current_task terminate_current schedule_yield
exit_current_task-Keeps s v ne =
    let h = v.sound in
    let s1 = record s { tasks = set s.tasks s.current (terminate h.task) } in
    let (r, s', e, v') = switch-Keeps s1 (terminated-IsSound s v ne) (inr ne) in
    let at = h.at_current in
    let small = length-set s.tasks s.current (terminate h.task) in
    let room = inside s h in (r, s', ground arith, v')
