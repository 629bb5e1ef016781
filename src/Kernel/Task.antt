-- ===== src/Kernel/Task.antt =====
-- src/kernel/task/scheduler.rs: tasks, and the round-robin scheduler. A method returns the new
-- scheduler beside its result; the pair of context pointers is the pair of the tasks' indices.
pub mod Search
pub mod Switch
pub mod Count
pub mod Invariant
pub mod Kill
pub mod Fair
use polaros.Prelude.{
  ℕ, zero, suc, ◌+◌, ◌-◌, ◌*◌, ◌%◌, Bool, true, false, not, ◌&&◌, ◌||◌, Option, none, some, List,
  [], ◌∷◌, ◌++◌, length, get_elem?, set, ltb, leb, ◌==◌, if◌then◌else◌, Bytes, text,
}

pub data TaskState : Type 0 where
  ready running terminated : TaskState

-- `context` is the saved stack pointer. The stack that a task owns is `stack`, by its lowest address.
pub record Task : Type 0 where
  pub id : ℕ
  pub state : TaskState
  pub context : ℕ
  pub name : Bytes
  pub quantum_remaining : ℕ
  pub stack : Option ℕ

-- `NEXT_TASK_ID` is kept beside the fields of `Scheduler`.
pub record Scheduler : Type 0 where
  pub tasks : List Task
  pub current : ℕ
  pub next_task_id : ℕ

-- An index out of range panics. `out_of_fuel` is the result of a loop that is cut off (Search shows
-- that none is).
pub data Outcome {ℓ} (A : Type ℓ) : Type ℓ where
  returns : A → Outcome A
  panics out_of_fuel : Outcome A

abbrev pub task_stack_size : ℕ
task_stack_size = 4096 * 4

abbrev pub default_quantum : ℕ
default_quantum = 10

unfoldable pub kernel_task : Task
kernel_task = record {
  id = 0;
  state = running;
  context = 0;
  name = text "kernel";
  quantum_remaining = default_quantum;
  stack = none;
}

unfoldable pub new : Scheduler
unfolding kernel_task
new = record { tasks = kernel_task ∷ []; current = 0; next_task_id = 1 }

-- `stack` is the address that the allocator gave; seven words are pushed on the new stack.
unfoldable pub new_task : Bytes → ℕ → ℕ → Task
new_task name stack id = record {
  id = id;
  state = ready;
  context = stack + task_stack_size - 7 * 8;
  name = name;
  quantum_remaining = default_quantum;
  stack = some stack;
}

unfoldable pub spawn : Scheduler → Bytes → ℕ → ℕ × Scheduler
unfolding new_task
spawn s name stack = (
  s.next_task_id,
  record s {
    tasks = s.tasks ++ new_task name stack s.next_task_id ∷ [];
    next_task_id = s.next_task_id + 1;
  },
)

abbrev pub is_running : TaskState → Bool
is_running running = true
is_running ready = false
is_running terminated = false

abbrev pub is_terminated : TaskState → Bool
is_terminated terminated = true
is_terminated ready = false
is_terminated running = false

-- `state == Ready || state == Running`.
abbrev pub runnable : TaskState → Bool
runnable ready = true
runnable running = true
runnable terminated = false

-- The loop of `find_and_switch`: `some i` for a `break` at `next_idx = i`, `none` when it is back at
-- `start`.
unfoldable pub find_next : ℕ → List Task → ℕ → ℕ → Outcome (Option ℕ)
find_next zero tasks start next_idx = out_of_fuel
find_next (suc fuel) tasks start next_idx =
    let following = (next_idx + 1) % length tasks in
    let again = find_next fuel tasks start following in
    elim (get_elem? tasks next_idx) [
      | none ↦ panics
      | some t ↦
          if runnable t.state
          then returns (some next_idx)
          else if following == start
          then returns none
          else again
    ]

-- `task.quantum_remaining = DEFAULT_QUANTUM`.
abbrev pub reset : Task → Task
reset t = record t { quantum_remaining = default_quantum }

-- A running task that is left becomes ready.
abbrev pub leave : Task → Task
leave t = record t { state = if is_running t.state then ready else t.state }

abbrev pub enter : Task → Task
enter t = record t { state = running; quantum_remaining = default_quantum }

unfoldable pub find_and_switch : Scheduler → Outcome (Option (ℕ × ℕ) × Scheduler)
find_and_switch s =
    let old_idx = s.current in
    let start = (old_idx + 1) % length s.tasks in
    elim (find_next (length s.tasks) s.tasks start start) [
      | panics ↦ panics
      | out_of_fuel ↦ out_of_fuel
      | returns found ↦ elim (get_elem? s.tasks old_idx) [
        | none ↦ panics
        | some old ↦
            let stay = record s { tasks = set s.tasks old_idx (reset old) } in
            elim found [
              | none ↦ returns (none, stay)
              | some next_idx ↦
                  if next_idx == old_idx
                  then returns (none, stay)
                  else elim (get_elem? s.tasks next_idx) [
                    | none ↦ panics
                    | some next ↦ returns (
                      some (old_idx, next_idx),
                      record s {
                        tasks = set (set s.tasks old_idx (leave old)) next_idx (enter next);
                        current = next_idx;
                      },
                    )
                  ]
            ]
      ]
    ]

unfoldable pub schedule_preempt : Scheduler → Outcome (Option (ℕ × ℕ) × Scheduler)
schedule_preempt s =
    if leb (length s.tasks) 1 then returns (none, s) else elim (get_elem? s.tasks s.current) [
      | none ↦ panics
      | some t ↦
          let spent = record t { quantum_remaining = t.quantum_remaining - 1 } in
          let s' = record s { tasks = set s.tasks s.current spent } in
          if ltb 0 t.quantum_remaining
          then (if ltb 0 spent.quantum_remaining then returns (none, s') else find_and_switch s')
          else find_and_switch s
    ]

unfoldable pub schedule_yield : Scheduler → Outcome (Option (ℕ × ℕ) × Scheduler)
schedule_yield s = if leb (length s.tasks) 1 then returns (none, s) else find_and_switch s

abbrev pub terminate : Task → Task
terminate t = record t { state = terminated }

unfoldable pub terminate_current : Scheduler → Outcome Scheduler
terminate_current s = elim (get_elem? s.tasks s.current) [
  | none ↦ panics
  | some t ↦ returns (record s { tasks = set s.tasks s.current (terminate t) })
]

-- `exit_current_task`, up to the switch of the contexts.
unfoldable pub exit_current_task : Scheduler → Outcome (Option (ℕ × ℕ) × Scheduler)
exit_current_task s = elim (terminate_current s) [
  | panics ↦ panics
  | out_of_fuel ↦ out_of_fuel
  | returns s' ↦ schedule_yield s'
]

unfoldable pub kill_in : ℕ → List Task → Bool × List Task
kill_in id [] = (false, [])
kill_in id (t ∷ ts) =
    let (killed, rest) = kill_in id ts in
    if t.id == id && not (is_terminated t.state)
    then (true, terminate t ∷ ts)
    else (killed, t ∷ rest)

unfoldable pub kill_task : Scheduler → ℕ → Bool × Scheduler
unfolding kill_in
kill_task s id = let (killed, tasks') = kill_in id s.tasks in (killed, record s { tasks = tasks' })

-- `retain`.
unfoldable pub retain : List Task → List Task
retain [] = []
retain (t ∷ ts) =
    let rest = retain ts in if t.id == 0 || not (is_terminated t.state) then t ∷ rest else rest

-- The index of the first running task, or what `current` was.
unfoldable pub running_index : List Task → ℕ → ℕ → ℕ
running_index [] i current = current
running_index (t ∷ ts) i current =
    let rest = running_index ts (i + 1) current in if is_running t.state then i else rest

unfoldable pub cleanup_terminated : Scheduler → Scheduler
unfolding retain running_index
cleanup_terminated s =
    let tasks' = retain s.tasks in
    record s { tasks = tasks'; current = running_index tasks' 0 s.current }
