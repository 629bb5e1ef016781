-- ===== src/Shell/Commands/Directory.antt =====
-- What every command of src/shell/commands.rs keeps: the order of the directories, and that the
-- shell's directory exists.
use polaros.Prelude.{
  ℕ, ◌+◌, ◌⊎◌, min, take, drop, ◌≡◌, refl, inl, inr, Option-cases, Bool-cases, true, false, Option,
  none, some, [], ◌∷◌, arith, Bytes,
}
use polaros.Fs.Name.{Name, name_eq, cmp_refl}
use polaros.Fs.Tree.{Dir, dir}
use polaros.Fs.Tree.Order.{IsSorted}
use polaros.Fs.Tree.Laws.{get-insert}
use polaros.Fs.RamFs.{
  RamFs, DirPath, get_dir, get_dir_mut, at_dir, read, write, create, mkdir, remove, replace,
}
use polaros.Fs.RamFs.View.{is_some, get_dir_mut-Descends}
use polaros.Fs.RamFs.Results.{has_dir}
use polaros.Fs.RamFs.Calls.{
  step-IsSorted, write_file as call_write, create_file, make_dir, remove_entry,
}
use polaros.Shell.Line.{split_whitespace, split_once, first}
use polaros.Shell.Files.{
  Result, with_name, two_args, write_args, cp_args, mv_args, copied, moved, cmd_touch, cmd_write,
  cmd_rm, cmd_mkdir, cmd_cp, cmd_mv, cmd_ls, cmd_cat,
}
use polaros.Shell.Files.Places.{cmd_cd-IsStep}
use polaros.Fs.Codec.{load_from}
use polaros.Fs.Codec.Sound.{load_from_sound}
use polaros.Shell.Disk.{
  Drive, Collected, collected, read_failed, read_out_of_fuel, read_rest, total_of, magic,
  data_start_sector, cmd_load,
}
use polaros.Shell.Commands
use polaros.Shell.Commands.{
  Command, clear, cd, load, save, echo, ls, cat, touch, write_file, rm, mkdir_command, pwd, grep,
  wc, cp, mv, hexdump, head, tail, sort_lines, uniq, env_command, export, other, unknown,
}

get_dir_mut-get_dir {ℓ} :
    {A : Type ℓ} (f : Dir → A × Dir) (d : Dir) (p : DirPath) (a : A) (d' : Dir)
    → get_dir_mut d p f ≡ some (a, d')
    → is_some (get_dir d' p) ≡ true
unfolding get_dir
get_dir_mut-get_dir f d [] a d' h = refl
get_dir_mut-get_dir f d (b ∷ p) a d' h =
    let g = get_dir_mut-Descends f b p d a d' h in
    ground (
      arith,
      g.written,
      get-insert b b (dir g.changed) d,
      cmp_refl b,
      get_dir_mut-get_dir f g.next p a g.changed g.below,
    )

at_dir-has_dir {ℓ} :
    {A : Type ℓ} (fs : RamFs) (p : DirPath) (missing : A) (f : Dir → A × Dir)
    → has_dir fs p ≡ true
    → has_dir (at_dir fs p missing f).1 p ≡ true
at_dir-has_dir fs p missing f h = elim (Option-cases (get_dir_mut fs.root p f)) [
  | inl e ↦ ground (arith, e, h)
  | inr ((a, d'), e) ↦ ground (arith, e, get_dir_mut-get_dir f fs.root p a d' e)
]

-- The directories are in order, and the one at the path is there.
pub record IsSoundAt (cwd : DirPath) (fs : RamFs) : Type 0 where
  pub sorted : IsSorted fs.root
  pub there : has_dir fs cwd ≡ true

pub write-IsSoundAt :
    (cwd : DirPath) (fs : RamFs) (n : Name) (b : Bytes)
    → IsSoundAt cwd fs
    → IsSoundAt cwd (write fs cwd n b).1
unfolding write
write-IsSoundAt cwd fs n b h = record {
  sorted = step-IsSorted fs (call_write cwd n b) h.sorted;
  there = at_dir-has_dir fs cwd false _ h.there;
}

create-IsSoundAt :
    (cwd : DirPath) (fs : RamFs) (n : Name) → IsSoundAt cwd fs → IsSoundAt cwd (create fs cwd n).1
unfolding create
create-IsSoundAt cwd fs n h = record {
  sorted = step-IsSorted fs (create_file cwd n) h.sorted;
  there = at_dir-has_dir fs cwd false _ h.there;
}

mkdir-IsSoundAt :
    (cwd : DirPath) (fs : RamFs) (n : Name) → IsSoundAt cwd fs → IsSoundAt cwd (mkdir fs cwd n).1
unfolding mkdir
mkdir-IsSoundAt cwd fs n h = record {
  sorted = step-IsSorted fs (make_dir cwd n) h.sorted;
  there = at_dir-has_dir fs cwd false _ h.there;
}

remove-IsSoundAt :
    (cwd : DirPath) (fs : RamFs) (n : Name) → IsSoundAt cwd fs → IsSoundAt cwd (remove fs cwd n).1
unfolding remove
remove-IsSoundAt cwd fs n h = record {
  sorted = step-IsSorted fs (remove_entry cwd n) h.sorted;
  there = at_dir-has_dir fs cwd _ _ h.there;
}

-- The commands that change the file system.
module _ (args : Bytes) (fs : RamFs) (cwd : DirPath) (h : IsSoundAt cwd fs) where
  with_name-IsSoundAt :
      (name : Option Name) (usage : Bytes) (f : Name → Result)
      → ((n : Name) → IsSoundAt cwd (f n).1)
      → IsSoundAt cwd (with_name name usage fs f).1
  with_name-IsSoundAt none usage f k = h
  with_name-IsSoundAt (some n) usage f k = k n

  cmd_touch-IsSoundAt : IsSoundAt cwd (cmd_touch args fs cwd).1
  unfolding cmd_touch
  cmd_touch-IsSoundAt =
      with_name-IsSoundAt (first (split_whitespace args)) _ _ (λ n. create-IsSoundAt cwd fs n h)

  cmd_rm-IsSoundAt : IsSoundAt cwd (cmd_rm args fs cwd).1
  unfolding cmd_rm
  cmd_rm-IsSoundAt =
      with_name-IsSoundAt (first (split_whitespace args)) _ _ (λ n. remove-IsSoundAt cwd fs n h)

  cmd_mkdir-IsSoundAt : IsSoundAt cwd (cmd_mkdir args fs cwd).1
  unfolding cmd_mkdir
  cmd_mkdir-IsSoundAt =
      with_name-IsSoundAt (first (split_whitespace args)) _ _ (λ n. mkdir-IsSoundAt cwd fs n h)

  moved-IsSoundAt :
      (content : Option Bytes) (src dst : Name) → IsSoundAt cwd (moved content src dst fs cwd).1
  moved-IsSoundAt none src dst = h
  moved-IsSoundAt (some b) src dst =
      let w = write-IsSoundAt cwd fs dst b h in
      elim (Bool-cases (write fs cwd dst b).0) [
        | inl t ↦ rw t (remove-IsSoundAt cwd (write fs cwd dst b).1 src w)
        | inr f ↦ rw f w
      ]

  copied-IsSoundAt :
      (content : Option Bytes) (src dst : Name) → IsSoundAt cwd (copied content src dst fs cwd).1
  copied-IsSoundAt none src dst = h
  copied-IsSoundAt (some b) src dst = write-IsSoundAt cwd fs dst b h

  cp_args-IsSoundAt : (o : Option (Name × Name)) → IsSoundAt cwd (cp_args o fs cwd).1
  cp_args-IsSoundAt none = h
  cp_args-IsSoundAt (some (src, dst)) = copied-IsSoundAt (read fs cwd src) src dst

  mv_args-IsSoundAt : (o : Option (Name × Name)) → IsSoundAt cwd (mv_args o fs cwd).1
  mv_args-IsSoundAt none = h
  mv_args-IsSoundAt (some (src, dst)) = elim (Bool-cases (name_eq src dst)) [
    | inl t ↦ rw t h
    | inr f ↦ rw f (moved-IsSoundAt (read fs cwd src) src dst)
  ]

  write_args-IsSoundAt : (o : Option (Bytes × Bytes)) → IsSoundAt cwd (write_args o fs cwd).1
  write_args-IsSoundAt none = h
  write_args-IsSoundAt (some ([], content)) = h
  write_args-IsSoundAt (some (b ∷ bs, content)) = write-IsSoundAt cwd fs (b ∷ bs) content h

-- The file system of the shell, and its directory.
abbrev pub IsSound : {M : Type 0} → Commands.State M → Type 0
IsSound s = IsSoundAt s.cwd s.fs

Collected-cases :
    (c : Collected)
    → ((content : Bytes) × (c ≡ collected content))
      ⊎ (((sector : ℕ) × (c ≡ read_failed sector)) ⊎ (c ≡ read_out_of_fuel))
Collected-cases (collected content) = inl (content, refl)
Collected-cases (read_failed sector) = inr (inl (sector, refl))
Collected-cases read_out_of_fuel = inr (inr refl)

replace-IsSound :
    (fs new_fs : RamFs) (content : Bytes)
    → load_from content ≡ some new_fs
    → IsSoundAt [] (replace fs new_fs)
unfolding replace get_dir
replace-IsSound fs new_fs content e = record {
  sorted = (load_from_sound content new_fs e).0;
  there = refl;
}

cmd_load-IsSound :
    {M : Type 0} (drive : Drive M) (fs : RamFs) (cwd : DirPath) (s : M)
    → IsSoundAt cwd fs
    → let r = cmd_load drive fs cwd s in IsSoundAt r.2 r.1
unfolding cmd_load
cmd_load-IsSound drive fs cwd s h = elim (Bool-cases (drive.is_available s)) [
  | inr f ↦ rw f h
  | inl t ↦ elim (Option-cases (drive.read_sector data_start_sector s)) [
    | inl e ↦ rw (t, e) h
    | inr (first_sector, e) ↦ elim (Bool-cases (name_eq (take 4 first_sector) magic)) [
      | inr n ↦ rw (t, e, n) h
      | inl y ↦
          let total_len = total_of drive (drop 4 first_sector) in
          let first_chunk = take (min total_len 504) (drop 8 first_sector) in
          elim (Collected-cases
            (read_rest drive total_len (data_start_sector + 1) total_len first_chunk s)) [
              | inr (inl (sector, c)) ↦ rw (t, e, y, c) h
              | inr (inr c) ↦ rw (t, e, y, c) h
              | inl (content, c) ↦ elim (Option-cases (load_from content)) [
                | inl l ↦ rw (t, e, y, c, l) h
                | inr (new_fs, l) ↦ rw (t, e, y, c, l) (replace-IsSound fs new_fs content l)
              ]
            ]
    ]
  ]
]

module _ {M : Type 0} (outside : Commands.Outside M) where
  dispatch-IsSound :
      (command : Command) (cmd args : Bytes) (pipe : Option Bytes) (s : Commands.State M)
      → IsSound s
      → IsSound (Commands.dispatch outside command cmd args pipe s).1
  unfolding cmd_ls cmd_cat cmd_cp cmd_mv cmd_write
  dispatch-IsSound clear cmd args pipe s h = h
  dispatch-IsSound cd cmd args pipe s h = record {
    sorted = h.sorted;
    there = (cmd_cd-IsStep args s.fs s.cwd h.there).0;
  }
  dispatch-IsSound echo cmd args pipe s h = h
  dispatch-IsSound ls cmd args pipe s h = h
  dispatch-IsSound cat cmd args pipe s h =
      with_name-IsSoundAt args s.fs s.cwd h (first (split_whitespace args)) _ _ (λ n. h)
  dispatch-IsSound touch cmd args pipe s h = cmd_touch-IsSoundAt args s.fs s.cwd h
  dispatch-IsSound write_file cmd args pipe s h =
      write_args-IsSoundAt args s.fs s.cwd h (split_once 32 args)
  dispatch-IsSound rm cmd args pipe s h = cmd_rm-IsSoundAt args s.fs s.cwd h
  dispatch-IsSound mkdir_command cmd args pipe s h = cmd_mkdir-IsSoundAt args s.fs s.cwd h
  dispatch-IsSound pwd cmd args pipe s h = h
  dispatch-IsSound grep cmd args pipe s h = h
  dispatch-IsSound wc cmd args pipe s h = h
  dispatch-IsSound cp cmd args pipe s h = cp_args-IsSoundAt args s.fs s.cwd h (two_args args)
  dispatch-IsSound mv cmd args pipe s h = mv_args-IsSoundAt args s.fs s.cwd h (two_args args)
  dispatch-IsSound hexdump cmd args pipe s h = h
  dispatch-IsSound head cmd args pipe s h = h
  dispatch-IsSound tail cmd args pipe s h = h
  dispatch-IsSound sort_lines cmd args pipe s h = h
  dispatch-IsSound uniq cmd args pipe s h = h
  dispatch-IsSound env_command cmd args pipe s h = h
  dispatch-IsSound export cmd args pipe s h = h
  dispatch-IsSound save cmd args pipe s h = h
  dispatch-IsSound load cmd args pipe s h = cmd_load-IsSound outside.drive s.fs s.cwd s.machine h
  dispatch-IsSound other cmd args pipe s h = h
  dispatch-IsSound unknown cmd args pipe s h = h

  -- Every command, known or not and with any arguments and input, leaves the directories in order and
  -- the shell in a directory that exists.
  pub run_command-IsSound :
      (cmd args : Bytes) (pipe : Option Bytes) (s : Commands.State M)
      → IsSound s
      → IsSound (Commands.run_command outside cmd args pipe s).1
  unfolding Commands.run_command
  run_command-IsSound cmd args pipe s h =
      dispatch-IsSound (Commands.find_command Commands.table cmd) cmd args pipe s h
