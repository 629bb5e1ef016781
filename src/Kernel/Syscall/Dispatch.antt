-- ===== src/Kernel/Syscall/Dispatch.antt =====
-- `syscall_dispatch`: what a call does to all of the state that it can change, and the invariant
-- that every call keeps.
use polaros.Prelude.{
  ℕ, zero, suc, ◌+◌, ◌-◌, Bool, true, false, ◌&&◌, ◌||◌, Option, none, some, get_elem?, [], ◌∷◌,
  ◌++◌, length, get_or, Bytes, ltb, leb, if◌then◌else◌, ◌==◌,
}
use polaros.Fs.RamFs.{RamFs, read}
use polaros.Kernel.Task.{
  Scheduler, Outcome, returns, panics, out_of_fuel, schedule_yield, exit_current_task,
}
use polaros.Kernel.Syscall.{
  FdTable, max_fds, reserved_fds, clear_from, einval, sys_open, sys_read, sys_close, sys_stat,
  sys_write, sys_getpid,
}

-- `screen` is all that was printed. The memory is that of user programs: a byte at each address that is
-- mapped for them, and `none` at all others.
pub record Machine : Type 0 where
  pub memory : ℕ → Option ℕ
  pub fs : RamFs
  pub fds : FdTable
  pub scheduler : Scheduler
  pub screen : Bytes

abbrev pub Memory : Type 0
Memory = ℕ → Option ℕ

abbrev pub and_byte : Option ℕ → Option Bytes → Option Bytes
and_byte none bytes = none
and_byte (some b) none = none
and_byte (some b) (some bytes) = some (b ∷ bytes)

-- `from_raw_parts(ptr, len)`, and `none` if it is not in the memory of user programs.
abbrev pub bytes_at : Memory → ℕ → ℕ → Option Bytes
bytes_at memory ptr zero = some []
bytes_at memory ptr (suc len) = and_byte (memory ptr) (bytes_at memory (ptr + 1) len)

unfoldable pub slice_at : Memory → ℕ → ℕ → Option Bytes
slice_at memory ptr len = if ptr == 0 then none else bytes_at memory ptr len

-- `copy_from_slice` into `from_raw_parts_mut(ptr, ..)`, in the same way.
abbrev pub written_at : Memory → ℕ → Bytes → Memory
written_at memory ptr bytes a =
    if leb ptr a && ltb (a - ptr) (length bytes) then some (get_or bytes (a - ptr) 0) else memory a

abbrev pub over : Memory → ℕ → Bytes → Option Bytes → Option Memory
over memory ptr bytes none = none
over memory ptr bytes (some old) = some (written_at memory ptr bytes)

unfoldable pub copy_to : Memory → ℕ → Bytes → Option Memory
unfolding slice_at
copy_to memory ptr bytes = over memory ptr bytes (slice_at memory ptr (length bytes))

-- What a call comes to: its result, or no return to the caller; or it strays from the memory of user
-- programs, where a page fault stops the machine or the kernel reads or writes its own memory, as no
-- pointer is checked. What follows then is not modelled.
pub data Reply : Type 0 where
  result : ℕ → Reply
  no_return strays : Reply

unfoldable pub sys_exit : Machine → Outcome (Reply × Machine)
sys_exit m =
    let fds' = clear_from reserved_fds m.fds in
    elim (exit_current_task m.scheduler) [
      | panics ↦ panics
      | out_of_fuel ↦ out_of_fuel
      | returns (switch, s) ↦ returns (no_return, record m { fds = fds'; scheduler = s })
    ]

unfoldable pub sys_yield : Machine → Outcome (Reply × Machine)
sys_yield m = elim (schedule_yield m.scheduler) [
  | panics ↦ panics
  | out_of_fuel ↦ out_of_fuel
  | returns (switch, s) ↦ returns (result 0, record m { scheduler = s })
]

-- The calls, and their numbers.
pub data Syscall : Type 0 where
  exit write yield_cpu getpid open_file read_file close_file stat unknown : Syscall

abbrev pub syscall_of : ℕ → Syscall
syscall_of nr =
    if nr == 0
    then exit
    else if nr == 1
    then write
    else if nr == 2
    then yield_cpu
    else if nr == 3
    then getpid
    else if nr == 4
    then open_file
    else if nr == 5
    then read_file
    else if nr == 6
    then close_file
    else if nr == 7
    then stat
    else unknown

abbrev pub is_output : ℕ → Bool
is_output fd = fd == 1 || fd == 2

-- `sys_read` gets as far as the copy.
abbrev pub reads_file : RamFs → FdTable → ℕ → Bool
reads_file fs fds fd = if leb max_fds fd then false else elim (get_elem? fds fd) [
  | none ↦ false
  | some none ↦ false
  | some (some f) ↦ elim (read fs f.path f.name) [ none ↦ false | some content ↦ true ]
]

-- A call on the bytes that a pointer and a length give.
abbrev pub with_slice : Machine → Option Bytes → (Bytes → ℕ × Machine) → Outcome (Reply × Machine)
with_slice m none call = returns (strays, m)
with_slice m (some bytes) call = let r = call bytes in returns (result r.0, r.1)

-- `sys_read` writes to memory once it has found the file.
abbrev pub with_memory : Machine → ℕ → FdTable → Option Memory → Outcome (Reply × Machine)
with_memory m n fds none = returns (strays, m)
with_memory m n fds (some memory) = returns (result n, record m { memory = memory; fds = fds })

abbrev pub read_reply : Machine → ℕ → ℕ → ℕ → Outcome (Reply × Machine)
read_reply m fd buf_ptr len =
    let (n, bytes, fds') = sys_read m.fs m.fds fd len in
    if reads_file m.fs m.fds fd
    then with_memory m n fds' (copy_to m.memory buf_ptr bytes)
    else returns (result n, m)

unfoldable pub serve : Machine → Syscall → ℕ → ℕ → ℕ → Outcome (Reply × Machine)
unfolding slice_at copy_to
serve m exit arg0 arg1 arg2 = sys_exit m
serve m write arg0 arg1 arg2 =
    if is_output arg0
    then with_slice m (slice_at m.memory arg1 arg2)
        (λ bytes. let r = sys_write arg0 bytes in (r.0, record m { screen = m.screen ++ r.1 }))
    else returns (result (sys_write arg0 []).0, m)
serve m yield_cpu arg0 arg1 arg2 = sys_yield m
serve m getpid arg0 arg1 arg2 = returns (result (sys_getpid m.scheduler.tasks), m)
serve m open_file arg0 arg1 arg2 =
    with_slice m (slice_at m.memory arg0 arg1)
      (λ path. let r = sys_open m.fs m.fds path in (r.0, record m { fds = r.1 }))
serve m read_file arg0 arg1 arg2 = read_reply m arg0 arg1 arg2
serve m close_file arg0 arg1 arg2 =
    let (n, fds') = sys_close m.fds arg0 in returns (result n, record m { fds = fds' })
serve m stat arg0 arg1 arg2 =
    with_slice m (slice_at m.memory arg0 arg1) (λ path. (sys_stat m.fs path, m))
serve m unknown arg0 arg1 arg2 = returns (result einval, m)

unfoldable pub syscall_dispatch : Machine → ℕ → ℕ → ℕ → ℕ → Outcome (Reply × Machine)
unfolding serve
syscall_dispatch m nr arg0 arg1 arg2 = serve m (syscall_of nr) arg0 arg1 arg2
