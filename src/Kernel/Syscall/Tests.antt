-- ===== src/Kernel/Syscall/Tests.antt =====
-- System calls at concrete inputs.
use polaros.Prelude.{
  ℕ, zero, suc, ◌+◌, ◌<◌, true, leb, get_elem?, ◌-◌, if◌then◌else◌, ◌≡◌, ◌≢◌, refl, some, none, [],
  ◌∷◌, arith, text, length, Bytes, take, set,
}
use polaros.Fs.Name.{cmp, is_utf8}
use polaros.Fs.Tree.{file, dir, nil, cons, get}
use polaros.Fs.RamFs.{RamFs, get_dir, read, exists, is_dir}
use polaros.Kernel.Task.{
  Task, Scheduler, ready, running, returns, enter, terminate, exit_current_task, terminate_current,
  schedule_yield, find_and_switch, find_next,
}
use polaros.Kernel.Task.Invariant.{IsValid}
use polaros.Kernel.Syscall.{
  OpenFile, FdTable, u64_max, no_files, split, trim_start, parse_file_path, first_free, alloc_fd,
  sys_open, sys_close, sys_stat,
}
use polaros.Kernel.Syscall.Table.{Opened, sys_open-Opened}
use polaros.Kernel.Syscall.Reads.{reads, open_reads}
use polaros.Kernel.Syscall.Dispatch.{Machine, Memory, no_return, sys_exit, syscall_dispatch}
use polaros.Kernel.Syscall.Sound.{
  IsSound, Keeps, HasBytes, no_files-IsTable, syscall_dispatch-Keeps, exit_closes,
}

abbrev greeting : Bytes
greeting = 72 ∷ 105 ∷ 33 ∷ []

-- A directory `docs` with a file `hi` of three bytes.
abbrev sample : RamFs
sample = record { root = cons (text "docs") (dir (cons (text "hi") (file greeting) nil)) nil }

abbrev opened_hi : OpenFile
opened_hi = record { path = text "docs" ∷ []; name = text "hi"; offset = 1 }

abbrev one_file : FdTable
one_file = set no_files 3 (some opened_hi)

parse_plain : parse_file_path (text "docs//hi/") ≡ (text "docs" ∷ [], text "hi")
unfolding parse_file_path split trim_start
parse_plain = refl

open_hi : (sys_open sample one_file (text "/docs/hi")).0 ≡ 4
unfolding sys_open parse_file_path split trim_start exists is_dir get_dir get cmp alloc_fd
    first_free is_utf8
open_hi = refl

close_twice : (sys_close (sys_close one_file 3).1 3).0 ≡ u64_max
unfolding sys_close
close_twice = refl

sys_open-Opened_example :
    Opened sample no_files (text "/docs/hi") (sys_open sample no_files (text "/docs/hi"))
sys_open-Opened_example = sys_open-Opened sample no_files (text "/docs/hi") refl

read_hi : read sample (text "docs" ∷ []) (text "hi") ≡ some greeting
unfolding read get_dir get cmp
read_hi = refl

opens : (sys_open sample no_files (text "/docs/hi")).0 ≢ u64_max
unfolding sys_open parse_file_path split trim_start exists is_dir get_dir get cmp alloc_fd
    first_free is_utf8
opens = omega arith

open_reads_example :
    (content : Bytes) × (read sample
        (parse_file_path (text "/docs/hi")).0
        (parse_file_path (text "/docs/hi")).1
      ≡ some content)
    × (reads sample
          (sys_open sample no_files (text "/docs/hi")).1
          (sys_open sample no_files (text "/docs/hi")).0
          (2 ∷ 2 ∷ [])
        ≡ take 4 content)
    × (sys_stat sample (text "/docs/hi") ≡ length content)
open_reads_example = open_reads sample no_files (text "/docs/hi") (2 ∷ 2 ∷ []) refl opens

abbrev kernel : Task
kernel = record {
  id = 0;
  state = ready;
  context = 0;
  name = text "kernel";
  quantum_remaining = 3;
  stack = none;
}

abbrev program : Task
program = record {
  id = 1;
  state = running;
  context = 20424;
  name = text "program";
  quantum_remaining = 1;
  stack = some 4096;
}

abbrev two_tasks : Scheduler
two_tasks = record { tasks = kernel ∷ program ∷ []; current = 1; next_task_id = 2 }

abbrev two_tasks-IsValid : IsValid two_tasks
two_tasks-IsValid = record {
  sound = record {
    task = program;
    at_current = refl;
    counted = refl;
    kernel = kernel;
    at_zero = refl;
    kernel_id = refl;
    kernel_alive = refl;
  };
  runs = refl;
}

-- A program runs, and the memory is zero.
-- The path "/docs/hi", from the address 16 on.
abbrev path_at_16 : Memory
path_at_16 a = if leb 16 a then get_elem? (text "/docs/hi") (a - 16) else none

byte_at : (bs : Bytes) (i : ℕ) → i < length bs → (b : ℕ) × (get_elem? bs i ≡ some b)
byte_at [] i h = absurd (omega arith)
byte_at (b ∷ bs) zero h = (b, refl)
byte_at (b ∷ bs) (suc i) h = byte_at bs i (omega arith)

mapped_at : (i : ℕ) → i < 8 → (b : ℕ) × (path_at_16 (16 + i) ≡ some b)
mapped_at i h =
    let (b, e) = byte_at (text "/docs/hi") i (omega arith) in
    let behind : leb 16 (16 + i) ≡ true = ground arith in
    let same : 16 + i - 16 ≡ i = omega arith in (b, rw (behind, same) e)

path_mapped : HasBytes path_at_16 16 8
path_mapped = (omega arith, mapped_at)

abbrev machine : Machine
machine = record {
  memory = path_at_16;
  fs = sample;
  fds = no_files;
  scheduler = two_tasks;
  screen = [];
}

machine-IsSound : IsSound machine
machine-IsSound = record { scheduled = two_tasks-IsValid; table = no_files-IsTable }

syscall_dispatch-Keeps_example : Keeps (syscall_dispatch machine 4 16 8 0)
syscall_dispatch-Keeps_example =
    syscall_dispatch-Keeps machine 4 16 8 0 machine-IsSound (omega arith) path_mapped

-- The program has a file open when it exits.
abbrev reading : Machine
reading = record machine { fds = one_file }

abbrev after_exit : Machine
after_exit = record machine {
  scheduler = record {
    tasks = enter kernel ∷ terminate program ∷ [];
    current = 0;
    next_task_id = 2;
  };
}

program_exits : sys_exit reading ≡ returns (no_return, after_exit)
unfolding sys_exit exit_current_task terminate_current schedule_yield find_and_switch find_next
program_exits = refl

exit_closes_example : after_exit.fds ≡ no_files
exit_closes_example =
    exit_closes reading after_exit no_return
      (record { size = refl; stdin = refl; stdout = refl; stderr = refl }) program_exits
