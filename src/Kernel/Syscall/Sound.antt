-- ===== src/Kernel/Syscall/Sound.antt =====
-- The invariant that every system call keeps.
use polaros.Prelude.{
  ℕ, zero, suc, min, drop, ltb, if◌then◌else◌, length-take, ◌+◌, ◌<◌, ◌==◌, false, ◌≤◌, ◌≡◌, ◌≢◌,
  refl, ap, ◌∙◌, ◌⊎◌, inl, inr, Bool-cases, Option-cases, Option, none, some, List, [], ◌∷◌, length,
  length-set, get_elem?, get_elem?-set_ne, replicate, set, arith, Bytes, leb,
}
use polaros.Fs.RamFs.{RamFs, read}
use polaros.Kernel.Task.{Task, Scheduler, Outcome, returns, panics, out_of_fuel, exit_current_task}
use polaros.Kernel.Task.Invariant.{IsValid, schedule_yield-Keeps, exit_current_task-Keeps}
use polaros.Kernel.Task.Count.{first_running}
use polaros.Kernel.Task.Kill.{first-current}
use polaros.Kernel.Syscall.{
  FdTable, OpenFile, no_files, clear_from, sys_open, sys_read, sys_close, sys_getpid,
}
use polaros.Kernel.Syscall.Table.{opened, refused, opened_file, sys_open-Opened, sys_close_lem}
use polaros.Kernel.Syscall.Dispatch.{
  Machine, Memory, bytes_at, slice_at, copy_to, written_at, with_slice, read_reply, reads_file,
  is_output, Reply, result, no_return, strays, Syscall, exit, write, yield_cpu, getpid, open_file,
  read_file, close_file, stat, unknown, serve, sys_exit, sys_yield, syscall_dispatch, syscall_of,
}

-- The table has its 16 places, of which the first three stay free.
pub record IsTable (fds : FdTable) : Type 0 where
  pub size : length fds ≡ 16
  pub stdin : get_elem? fds 0 ≡ some none
  pub stdout : get_elem? fds 1 ≡ some none
  pub stderr : get_elem? fds 2 ≡ some none

pub record IsSound (m : Machine) : Type 0 where
  pub scheduled : IsValid m.scheduler
  pub table : IsTable m.fds

-- The call comes to an end, without a panic and within the memory of user programs, and leaves a sound
-- machine.
abbrev pub Keeps : Outcome (Reply × Machine) → Type 0
Keeps o = (r : Reply) × (m' : Machine) × (o ≡ returns (r, m')) × (r ≢ strays) × IsSound m'

-- The bytes that a pointer and a length name are in the memory of user programs.
abbrev pub HasBytes : Memory → ℕ → ℕ → Type 0
HasBytes memory ptr len = (ptr ≢ 0) × ((i : ℕ) → i < len → (b : ℕ) × (memory (ptr + i) ≡ some b))

-- The pointers that a call uses are good ones.
abbrev pub HasPointers : Machine → Syscall → ℕ → ℕ → ℕ → Type 0
HasPointers m write arg0 arg1 arg2 = HasBytes m.memory arg1 arg2
HasPointers m read_file arg0 arg1 arg2 = HasBytes m.memory arg1 arg2
HasPointers m open_file arg0 arg1 arg2 = HasBytes m.memory arg0 arg1
HasPointers m stat arg0 arg1 arg2 = HasBytes m.memory arg0 arg1
HasPointers m exit arg0 arg1 arg2 = Unit
HasPointers m yield_cpu arg0 arg1 arg2 = Unit
HasPointers m getpid arg0 arg1 arg2 = Unit
HasPointers m close_file arg0 arg1 arg2 = Unit
HasPointers m unknown arg0 arg1 arg2 = Unit

bytes_at-some :
    (memory : Memory) (ptr len : ℕ)
    → ((i : ℕ) → i < len → (b : ℕ) × (memory (ptr + i) ≡ some b))
    → (bytes : Bytes) × (bytes_at memory ptr len ≡ some bytes)
bytes_at-some memory ptr zero h = ([], refl)
bytes_at-some memory ptr (suc len) h =
    let (b, e) = h 0 (omega arith) in
    let here : memory ptr ≡ some b = let z : ptr ≡ ptr + 0 = omega arith in ap memory z ∙ e in
    let (bytes, e') = bytes_at-some memory (ptr + 1) len (λ i lt.
      let (c, f) = h (suc i) (omega arith) in
      let z : ptr + 1 + i ≡ ptr + suc i = omega arith in (c, ap memory z ∙ f)) in
    (b ∷ bytes, rw (here, e') refl)

slice_at-some :
    (memory : Memory) (ptr len : ℕ)
    → HasBytes memory ptr len
    → (bytes : Bytes) × (slice_at memory ptr len ≡ some bytes)
unfolding slice_at
slice_at-some memory ptr len h =
    let (bytes, e) = bytes_at-some memory ptr len h.1 in
    let not_null : (ptr == 0) ≡ false = let n = h.0 in ground arith in (bytes, rw not_null e)

copy_to-some :
    (memory : Memory) (ptr len : ℕ) (bytes : Bytes)
    → length bytes ≤ len
    → HasBytes memory ptr len
    → (memory' : Memory) × (copy_to memory ptr bytes ≡ some memory')
unfolding copy_to
copy_to-some memory ptr len bytes short h =
    let (old, e) =
      slice_at-some memory ptr (length bytes) (h.0, λ i lt. h.1 i (omega (arith, short))) in
    (written_at memory ptr bytes, rw e refl)

length-sys_read :
    (fs : RamFs) (fds : FdTable) (fd len : ℕ) → length (sys_read fs fds fd len).1 ≤ len
unfolding sys_read
length-sys_read fs fds fd len = elim (Bool-cases (leb 16 fd)) [
  | inl out ↦ rw out (omega arith)
  | inr within ↦ elim (Option-cases (get_elem? fds fd)) [
    | inl e ↦ rw (within, e) (omega arith)
    | inr (none, e) ↦ rw (within, e) (omega arith)
    | inr (some f, e) ↦ elim (Option-cases (read fs f.path f.name)) [
      | inl e2 ↦ rw (within, e, e2) (omega arith)
      | inr (content, e2) ↦
          let remaining = if ltb f.offset (length content) then drop f.offset content else [] in
          rw (within, e, e2) (omega (arith, length-take (min (length remaining) len) remaining))
    ]
  ]
]

returned : (m : Machine) (n : ℕ) → IsSound m → Keeps (returns (result n, m))
returned m n h = (result n, m, refl, (λ p. cc p), h)

set-IsTable :
    (fds : FdTable) (fd : ℕ) (v : Option OpenFile) → 3 ≤ fd → IsTable fds → IsTable (set fds fd v)
set-IsTable fds fd v h t = record {
  size = length-set fds fd v ∙ t.size;
  stdin = get_elem?-set_ne fds fd 0 v (omega arith) ∙ t.stdin;
  stdout = get_elem?-set_ne fds fd 1 v (omega arith) ∙ t.stdout;
  stderr = get_elem?-set_ne fds fd 2 v (omega arith) ∙ t.stderr;
}

sys_open-IsTable :
    (fs : RamFs) (fds : FdTable) (p : Bytes) → IsTable fds → IsTable (sys_open fs fds p).1
sys_open-IsTable fs fds p t = elim (sys_open-Opened fs fds p t.size) [
  | refused why e ↦ rw e t
  | opened fd can ge lt at used e ↦ rw e (set-IsTable fds fd (some (opened_file p)) ge t)
]

sys_close-IsTable : (fds : FdTable) (fd : ℕ) → IsTable fds → IsTable (sys_close fds fd).1
sys_close-IsTable fds fd t = elim (sys_close_lem fds fd t.size) [
  | inl (done, ge, used, e, again) ↦ rw e (set-IsTable fds fd none ge t)
  | inr (failed, e, why) ↦ rw e t
]

-- A descriptor that is in use is not one of the first three.
in_use_ge :
    (fds : FdTable) (fd : ℕ) (f : OpenFile)
    → IsTable fds
    → get_elem? fds fd ≡ some (some f)
    → 3 ≤ fd
in_use_ge fds zero f t at = cc (t.stdin)
in_use_ge fds (suc zero) f t at = cc (t.stdout)
in_use_ge fds (suc (suc zero)) f t at = cc (t.stderr)
in_use_ge fds (suc (suc (suc n))) f t at = omega arith

sys_read_cases :
    (fs : RamFs) (fds : FdTable) (fd len : ℕ)
    → ((sys_read fs fds fd len).2 ≡ fds)
      ⊎ ((f : OpenFile) × (g : OpenFile) × (get_elem? fds fd ≡ some (some f))
          × ((sys_read fs fds fd len).2 ≡ set fds fd (some g)))
unfolding sys_read
sys_read_cases fs fds fd len = elim (Option-cases (get_elem? fds fd)) [
  | inl e ↦ inl (ground arith)
  | inr (o, e) ↦ elim (Option-cases o) [
    | inl e' ↦ inl (ground arith)
    | inr (f, e') ↦ elim (Option-cases (read fs f.path f.name)) [
      | inl e2 ↦ inl (ground arith)
      | inr (content, e2) ↦ elim (Bool-cases (leb 16 fd)) [
        | inl out ↦ inl (ground arith)
        | inr within ↦ inr (
          f,
          record f { offset = f.offset + (sys_read fs fds fd len).0 },
          cc (e, e'),
          ground arith,
        )
      ]
    ]
  ]
]

sys_read-IsTable :
    (fs : RamFs) (fds : FdTable) (fd len : ℕ) → IsTable fds → IsTable (sys_read fs fds fd len).2
sys_read-IsTable fs fds fd len t = elim (sys_read_cases fs fds fd len) [
  | inl e ↦ rw e t
  | inr (f, g, at, e) ↦ rw e (set-IsTable fds fd (some g) (in_use_ge fds fd f t at) t)
]

clear_all : (fds : FdTable) → clear_from 0 fds ≡ replicate (length fds) none
clear_all [] = refl
clear_all (f ∷ fds) = ap (λ l. none ∷ l) (clear_all fds)

clear_table : (fds : FdTable) → IsTable fds → clear_from 3 fds ≡ no_files
clear_table [] t = absurd (omega (arith, t.size))
clear_table (a ∷ []) t = cc (t.stdout)
clear_table (a ∷ b ∷ []) t = cc (t.stderr)
clear_table (a ∷ b ∷ c ∷ fds) t =
    let e : length fds ≡ 13 = omega (arith, t.size) in
    let rest : clear_from 0 fds ≡ replicate 13 none =
      clear_all fds ∙ ap (λ n. replicate n none) e in
    cc (t.stdin, t.stdout, t.stderr, rest)

pub no_files-IsTable : IsTable no_files
no_files-IsTable = record { size = refl; stdin = refl; stdout = refl; stderr = refl }

exit-Keeps : (m : Machine) → IsSound m → m.scheduler.current ≢ 0 → Keeps (sys_exit m)
unfolding sys_exit
exit-Keeps m h ne =
    let (r, s', e, v) = exit_current_task-Keeps m.scheduler h.scheduled ne in
    let cleared = clear_table m.fds h.table in
    (
      no_return,
      record m { fds = clear_from 3 m.fds; scheduler = s' },
      ground (arith, e),
      (λ p. cc p),
      record { scheduled = v; table = rw cleared no_files-IsTable },
    )

yield-Keeps : (m : Machine) → IsSound m → Keeps (sys_yield m)
unfolding sys_yield
yield-Keeps m h =
    let (r, s', e, v) = schedule_yield-Keeps m.scheduler h.scheduled in
    (
      result 0,
      record m { scheduler = s' },
      ground (arith, e),
      (λ p. cc p),
      record { scheduled = v; table = h.table },
    )

with_slice-Keeps :
    (m : Machine) (ptr len : ℕ) (call : Bytes → ℕ × Machine)
    → HasBytes m.memory ptr len
    → ((bytes : Bytes) → IsSound (call bytes).1)
    → Keeps (with_slice m (slice_at m.memory ptr len) call)
with_slice-Keeps m ptr len call h k =
    let (bytes, e) = slice_at-some m.memory ptr len h in
    rw e (returned (call bytes).1 (call bytes).0 (k bytes))

read-Keeps :
    (m : Machine) (fd ptr len : ℕ)
    → IsSound m
    → HasBytes m.memory ptr len
    → Keeps (read_reply m fd ptr len)
read-Keeps m fd ptr len h p =
    let r = sys_read m.fs m.fds fd len in
    let (memory, e) = copy_to-some m.memory ptr len r.1 (length-sys_read m.fs m.fds fd len) p in
    elim (Bool-cases (reads_file m.fs m.fds fd)) [
      | inl t ↦
          rw (t, e)
            (returned (record m { memory = memory; fds = r.2 }) r.0
              (record {
                scheduled = h.scheduled;
                table = sys_read-IsTable m.fs m.fds fd len h.table;
              }))
      | inr f ↦ rw f (returned m r.0 h)
    ]

serve-Keeps :
    (m : Machine) (call : Syscall) (arg0 arg1 arg2 : ℕ)
    → IsSound m
    → m.scheduler.current ≢ 0
    → HasPointers m call arg0 arg1 arg2
    → Keeps (serve m call arg0 arg1 arg2)
unfolding serve
serve-Keeps m exit a b c h ne p = exit-Keeps m h ne
serve-Keeps m write a b c h ne p = elim (Bool-cases (is_output a)) [
  | inl t ↦
      rw t
        (with_slice-Keeps m b c _ p (λ bytes. record { scheduled = h.scheduled; table = h.table }))
  | inr f ↦ rw f (returned m _ h)
]
serve-Keeps m yield_cpu a b c h ne p = yield-Keeps m h
serve-Keeps m getpid a b c h ne p = returned m _ h
serve-Keeps m open_file a b c h ne p =
    with_slice-Keeps m a b _ p
      (λ path. record { scheduled = h.scheduled; table = sys_open-IsTable m.fs m.fds path h.table })
serve-Keeps m read_file a b c h ne p = read-Keeps m a b c h p
serve-Keeps m close_file a b c h ne p =
    returned (record m { fds = (sys_close m.fds a).1 }) _
      (record { scheduled = h.scheduled; table = sys_close-IsTable m.fds a h.table })
serve-Keeps m stat a b c h ne p = with_slice-Keeps m a b _ p (λ path. h)
serve-Keeps m unknown a b c h ne p = returned m _ h

-- Any system call, made by a task other than the first on a sound machine, comes to an end without a
-- panic and leaves the machine sound, where the bytes that its pointers and lengths name are in the memory
-- of user programs.
pub syscall_dispatch-Keeps :
    (m : Machine) (nr arg0 arg1 arg2 : ℕ)
    → IsSound m
    → m.scheduler.current ≢ 0
    → HasPointers m (syscall_of nr) arg0 arg1 arg2
    → Keeps (syscall_dispatch m nr arg0 arg1 arg2)
unfolding syscall_dispatch
syscall_dispatch-Keeps m nr arg0 arg1 arg2 h ne p =
    serve-Keeps m (syscall_of nr) arg0 arg1 arg2 h ne p

-- Where the first three places are free, the exit of one task closes every descriptor, whichever
-- task opened it.
pub exit_closes :
    (m m' : Machine) (r : Reply) → IsTable m.fds → sys_exit m ≡ returns (r, m') → m'.fds ≡ no_files
unfolding sys_exit
exit_closes m m' r t e = closes (exit_current_task m.scheduler) refl
  where
    cleared : clear_from 3 m.fds ≡ no_files
    cleared = clear_table m.fds t

    closes :
        (o : Outcome (Option (ℕ × ℕ) × Scheduler))
        → exit_current_task m.scheduler ≡ o
        → m'.fds ≡ no_files
    closes panics q = absurd (ground (arith, e, q))
    closes out_of_fuel q = absurd (ground (arith, e, q))
    closes (returns (switch, s)) q = ground (arith, e, q, cleared)

getpid_first : (ts : List Task) (t : Task) → first_running ts ≡ some t → sys_getpid ts ≡ t.id
unfolding sys_getpid
getpid_first [] t h = cc
getpid_first (u ∷ ts) t h = ground (arith, getpid_first ts t)

-- `sys_getpid` returns the id of the current task of a valid scheduler.
pub getpid_lem : (s : Scheduler) (v : IsValid s) → sys_getpid s.tasks ≡ v.sound.task.id
getpid_lem s v = getpid_first s.tasks v.sound.task (first-current s v)
