-- ===== src/Kernel/Tests.antt =====
-- The scheduler at concrete inputs: a kernel with two more tasks.
use polaros.Prelude.{ℕ, ◌≡◌, ◌≤◌, refl, some, none, [], ◌∷◌, arith, text, All, false, ◌⊎◌}
use polaros.Kernel.Task.{
  Task, Scheduler, ready, running, terminated, new, kernel_task, spawn, new_task, returns,
  find_next, find_and_switch, schedule_yield,
}
use polaros.Kernel.Task.Count.{Stays}
use polaros.Kernel.Task.Switch.{Switched, behind, find_and_switch-Switched}
use polaros.Kernel.Task.Invariant.{IsValid, new-IsValid}
use polaros.Kernel.Task.Kill.{kill_and_cleanup, spawn-IsValid, kill_and_cleanup-IsValid}
use polaros.Kernel.Task.Fair.{yields, yields_fair}

-- The scheduler of a system that has started one task.
abbrev one_more : Scheduler
one_more = (spawn new (text "a") 4096).1

abbrev one_more-IsValid : IsValid one_more
one_more-IsValid = (spawn-IsValid new new-IsValid (text "a") 4096).0

abbrev kernel_ready : Task
kernel_ready = record {
  id = 0;
  state = ready;
  context = 0;
  name = text "kernel";
  quantum_remaining = 3;
  stack = none;
}

abbrev shell : Task
shell = record {
  id = 1;
  state = running;
  context = 20424;
  name = text "shell";
  quantum_remaining = 1;
  stack = some 4096;
}

abbrev ended : Task
ended = record {
  id = 2;
  state = terminated;
  context = 81864;
  name = text "ended";
  quantum_remaining = 0;
  stack = some 65536;
}

abbrev waiting : Task
waiting = record {
  id = 2;
  state = ready;
  context = 81864;
  name = text "waiting";
  quantum_remaining = 10;
  stack = some 65536;
}

-- The kernel and the shell, which is running, and a third task.
abbrev with_third : Task → Scheduler
with_third t = record { tasks = kernel_ready ∷ shell ∷ t ∷ []; current = 1; next_task_id = 3 }

abbrev three : Scheduler
three = with_third ended

abbrev busy : Scheduler
busy = with_third waiting

abbrev three-IsValid : IsValid three
three-IsValid = record {
  sound = record {
    task = shell;
    at_current = refl;
    counted = refl;
    kernel = kernel_ready;
    at_zero = refl;
    kernel_id = refl;
    kernel_alive = refl;
  };
  runs = refl;
}

abbrev busy-IsValid : IsValid busy
busy-IsValid = record {
  sound = record {
    task = shell;
    at_current = refl;
    counted = refl;
    kernel = kernel_ready;
    at_zero = refl;
    kernel_id = refl;
    kernel_alive = refl;
  };
  runs = refl;
}

yield_to_first : (s : Scheduler) × (schedule_yield one_more ≡ returns (some (0, 1), s))
unfolding schedule_yield find_and_switch find_next spawn new_task new kernel_task
yield_to_first = (_, refl)

yield_past_ended : (s : Scheduler) × (schedule_yield three ≡ returns (some (1, 0), s))
unfolding schedule_yield find_and_switch find_next
yield_past_ended = (_, refl)

find_and_switch-Switched_example : Switched three (find_and_switch three)
find_and_switch-Switched_example = find_and_switch-Switched three (omega arith)

kill_and_cleanup-IsValid_example :
    (w : IsValid (kill_and_cleanup busy 2).1) × (w.sound.task ≡ shell)
    × (((kill_and_cleanup busy 2).0 ≡ false) ⊎ All Stays (kill_and_cleanup busy 2).1.tasks)
kill_and_cleanup-IsValid_example =
    kill_and_cleanup-IsValid busy busy-IsValid 2 (omega arith) (omega arith)

yields_fair_example :
    (k : ℕ) × (s' : Scheduler) × (k ≤ 2)
    × (yields k three ≡ returns s')
    × IsValid s'
    × (s'.current ≡ behind three 2)
yields_fair_example = yields_fair three 2 three-IsValid (omega arith) refl
