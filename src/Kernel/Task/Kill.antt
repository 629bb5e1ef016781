-- ===== src/Kernel/Task/Kill.antt =====
-- `kill_task` and `cleanup_terminated`, as the shell's `kill` (src/shell/commands.rs) calls them, and
-- `spawn`: they keep the invariant and the current task.
use polaros.Prelude.{
  ℕ, zero, suc, ◌≡◌, ◌≢◌, refl, ap, sym, ◌∙◌, Bool, true, false, ◌⊎◌, inl, inr, Bool-cases, some,
  List, [], ◌∷◌, ◌++◌, arith, get_elem?, get_elem?-set_ne, All, Bytes, if◌then◌else◌,
}
use polaros.Kernel.Task.{
  Task, Scheduler, is_running, terminate, spawn, new_task, kill_task, retain, running_index,
  cleanup_terminated,
}
use polaros.Kernel.Task.Count.{
  count_running, first_running, count-set, count-append, first_running_only, count-retain,
  first_running-retain, Stays, retain-All, running_index_first, kill_in_cases,
}
use polaros.Kernel.Task.Invariant.{IsValid}

-- The part of `cmd_kill` that changes the scheduler; it is reached with an id that is not 0.
unfoldable pub kill_and_cleanup : Scheduler → ℕ → Bool × Scheduler
unfolding kill_task cleanup_terminated
kill_and_cleanup s id =
    let (killed, s') = kill_task s id in
    if killed then (true, cleanup_terminated s') else (false, s')

retain-zero :
    (ts : List Task) (k : Task)
    → get_elem? ts 0 ≡ some k
    → k.id ≡ 0
    → get_elem? (retain ts) 0 ≡ some k
unfolding retain
retain-zero [] k h e = cc
retain-zero (t ∷ ts) k h e = ground arith

get_elem?-append :
    (ts us : List Task) (i : ℕ) (t : Task)
    → get_elem? ts i ≡ some t
    → get_elem? (ts ++ us) i ≡ some t
get_elem?-append [] us i t h = cc
get_elem?-append (u ∷ ts) us zero t h = h
get_elem?-append (u ∷ ts) us (suc i) t h = get_elem?-append ts us i t h

module _ (s : Scheduler) (v : IsValid s) where
  open v use {sound}

  one_runs : count_running s.tasks ≡ 1
  one_runs = ground (arith, sound.counted, v.runs)

  pub first-current : first_running s.tasks ≡ some sound.task
  first-current =
      first_running_only s.tasks s.current sound.task one_runs sound.at_current
        (ground (arith, v.runs))

  -- Cleaning up keeps the invariant and the current task, and leaves no terminated task but the
  -- kernel's.
  pub cleanup-IsValid :
      (w : IsValid (cleanup_terminated s)) × (w.sound.task ≡ sound.task)
      × All Stays (cleanup_terminated s).tasks
  unfolding cleanup_terminated
  cleanup-IsValid =
      let kept = retain s.tasks in
      let (j, at, e, w) =
        running_index_first kept 0 s.current sound.task
          (first_running-retain s.tasks ∙ first-current) in
      let e' : running_index kept 0 s.current ≡ j = omega (arith, e) in
      (
        record {
          sound = record {
            task = sound.task;
            at_current = rw e' at;
            counted = count-retain s.tasks ∙ sound.counted;
            kernel = sound.kernel;
            at_zero = retain-zero s.tasks sound.kernel sound.at_zero sound.kernel_id;
            kernel_id = sound.kernel_id;
            kernel_alive = sound.kernel_alive;
          };
          runs = v.runs;
        },
        refl,
        retain-All s.tasks,
      )

  met :
      (t : Task) (i : ℕ) (u : Task)
      → get_elem? s.tasks i ≡ some t
      → get_elem? s.tasks i ≡ some u
      → t ≡ u
  met t i u at at' = cc

  idle_other :
      (id : ℕ)
      → id ≢ sound.task.id
      → (i : ℕ) (t : Task) → get_elem? s.tasks i ≡ some t
      → t.id ≡ id
      → is_running t.state ≡ false
  idle_other id ne i t at same = elim (Bool-cases (is_running t.state)) [
    | inl r ↦
        let first = first_running_only s.tasks i t one_runs at (ground arith) in
        let e : t ≡ sound.task = ground (arith, first-current) in
        absurd (ne (sym same ∙ ap (λ (u : Task). u.id) e))
    | inr n ↦ n
  ]

  -- To kill a task that is neither the kernel's nor the current one keeps the invariant and the
  -- current task.
  kill-IsValid :
      (id : ℕ)
      → id ≢ 0
      → id ≢ sound.task.id
      → (w : IsValid (kill_task s id).1) × (w.sound.task ≡ sound.task)
  unfolding kill_task
  kill-IsValid id ne0 ne = elim (kill_in_cases id s.tasks) [
    | inl e ↦ rw e (v, refl)
    | inr (i, t, at, same, alive, e) ↦
        let idle : is_running t.state ≡ false = idle_other id ne i t at same in
        let c = count-set s.tasks i t (terminate t) at in
        let away : i ≢ s.current = λ p. absurd (
          ne (
            sym same
            ∙ ap (λ (u : Task). u.id)
                (met t s.current sound.task (rw p at at) sound.at_current))) in
        let away0 : i ≢ 0 = λ p. absurd (
          ne0 (
            sym same
            ∙ ap (λ (u : Task). u.id) (met t 0 sound.kernel (rw p at at) sound.at_zero)
            ∙ sound.kernel_id)) in
        rw e (
          record {
            sound = record {
              task = sound.task;
              at_current =
                  get_elem?-set_ne s.tasks i s.current (terminate t) away ∙ sound.at_current;
              counted = ground (arith, c, sound.counted, idle);
              kernel = sound.kernel;
              at_zero = get_elem?-set_ne s.tasks i 0 (terminate t) away0 ∙ sound.at_zero;
              kernel_id = sound.kernel_id;
              kernel_alive = sound.kernel_alive;
            };
            runs = v.runs;
          },
          refl,
        )
  ]

  -- A new task waits behind the others: it is ready, and the current task goes on.
  pub spawn-IsValid :
      (name : Bytes) (stack : ℕ)
      → (w : IsValid (spawn s name stack).1) × (w.sound.task ≡ sound.task)
  unfolding spawn
  spawn-IsValid name stack =
      let extra = new_task name stack s.next_task_id ∷ [] in
      (
        record {
          sound = record {
            task = sound.task;
            at_current = get_elem?-append s.tasks extra s.current sound.task sound.at_current;
            counted = unfold new_task in ground (arith, count-append s.tasks extra, sound.counted);
            kernel = sound.kernel;
            at_zero = get_elem?-append s.tasks extra 0 sound.kernel sound.at_zero;
            kernel_id = sound.kernel_id;
            kernel_alive = sound.kernel_alive;
          };
          runs = v.runs;
        },
        refl,
      )

-- In a valid scheduler, kill of an id that is neither 0 nor the current task's keeps the invariant
-- and the current task, and leaves no terminated task but the kernel's where it found one to kill.
pub kill_and_cleanup-IsValid :
    (s : Scheduler) (v : IsValid s) (id : ℕ)
    → id ≢ 0
    → id ≢ v.sound.task.id
    → (w : IsValid (kill_and_cleanup s id).1) × (w.sound.task ≡ v.sound.task)
      × (((kill_and_cleanup s id).0 ≡ false) ⊎ All Stays (kill_and_cleanup s id).1.tasks)
unfolding kill_and_cleanup
kill_and_cleanup-IsValid s v id ne0 ne =
    let (w, same) = kill-IsValid s v id ne0 ne in
    elim (Bool-cases (kill_task s id).0) [
      | inl hit ↦
          let (w', same', clean) = cleanup-IsValid (kill_task s id).1 w in
          rw hit (w', same' ∙ same, inr clean)
      | inr miss ↦ rw miss (w, same, inl refl)
    ]
