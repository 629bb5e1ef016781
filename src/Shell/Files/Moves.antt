-- ===== src/Shell/Files/Moves.antt =====
-- What cp and mv of src/shell/commands.rs do to each place of the file system.
use polaros.Prelude.{
  ◌≡◌, refl, ap, ◌∙◌, inl, inr, Option-cases, Bool-cases, true, false, Option, none, some, [], ◌∷◌,
  arith, if◌then◌else◌, Bytes,
}
use polaros.Fs.Name.{Name, name_eq, cmp_refl}
use polaros.Fs.Tree.Order.{IsSorted}
use polaros.Fs.RamFs.{RamFs, DirPath, read, write, remove, is_dir}
use polaros.Fs.RamFs.View.{Node, file_node, view, same, read-view}
use polaros.Fs.RamFs.Results.{has_dir, write_lem, remove_lem, is_ok, removal}
use polaros.Fs.RamFs.Calls.{step-IsSorted, write_file}
use polaros.Shell.Files.{two_args, cmd_cp, cmd_mv}

same_dir : (p : DirPath) (n m : Name) → same p n p m ≡ name_eq n m
same_dir [] n m = refl
same_dir (c ∷ p) n m = ground (arith, cmp_refl c, same_dir p n m)

read-has_dir :
    (fs : RamFs) (p : DirPath) (n : Name) (b : Bytes) → read fs p n ≡ some b → has_dir fs p ≡ true
unfolding read
read-has_dir fs p n b h = ground arith

read-file_node :
    (fs : RamFs) (p : DirPath) (n : Name) (b : Bytes)
    → read fs p n ≡ some b
    → view fs.root p n ≡ some (file_node b)
read-file_node fs p n b h = ground (arith, read-view fs p n, h)

-- What stands at a place after `dst` has been written with what `src` holds.
abbrev pub copied_view : RamFs → DirPath → Name → Name → DirPath → Name → Option Node
copied_view fs cwd src dst q m = elim (read fs cwd src) [
  | none ↦ view fs.root q m
  | some b ↦
      if is_dir fs cwd dst
      then view fs.root q m
      else if same q m cwd dst
      then some (file_node b)
      else view fs.root q m
]

-- After cp the place of its second argument holds the content of the file that its first one names,
-- and every other place what it held; where the first is no file or the second is a directory, no
-- place changes.
pub cmd_cp_lem :
    (args : Bytes) (fs : RamFs) (cwd : DirPath) (src dst : Name) (q : DirPath) (m : Name)
    → two_args args ≡ some (src, dst)
    → view (cmd_cp args fs cwd).1.root q m ≡ copied_view fs cwd src dst q m
unfolding cmd_cp
cmd_cp_lem args fs cwd src dst q m h = elim (Option-cases (read fs cwd src)) [
  | inl e ↦ ground (arith, h, e)
  | inr (b, e) ↦ ground (arith, h, e, write_lem fs cwd dst b q m, read-has_dir fs cwd src b e)
]

-- What stands at a place after `src` has gone to `dst`.
abbrev pub moved_view : RamFs → DirPath → Name → Name → DirPath → Name → Option Node
moved_view fs cwd src dst q m = elim (read fs cwd src) [
  | none ↦ view fs.root q m
  | some b ↦
      if is_dir fs cwd dst
      then view fs.root q m
      else if same q m cwd src
      then none
      else if same q m cwd dst
      then some (file_node b)
      else view fs.root q m
]

removal_file :
    (fs : RamFs) (p : DirPath) (n : Name) (b : Bytes)
    → view fs.root p n ≡ some (file_node b)
    → is_ok (removal fs p n) ≡ true
removal_file fs p n b h = ground (arith, h)

-- In a file system whose directories are in order, after mv with two different arguments the place
-- of the second holds the content of the file that the first one named, nothing stands where that
-- file was, and every other place holds what it held; where the first is no file or the second is a
-- directory, no place changes.
pub cmd_mv_lem :
    (args : Bytes) (fs : RamFs) (cwd : DirPath) (src dst : Name) (q : DirPath) (m : Name)
    → IsSorted fs.root
    → two_args args ≡ some (src, dst)
    → name_eq src dst ≡ false
    → view (cmd_mv args fs cwd).1.root q m ≡ moved_view fs cwd src dst q m
unfolding cmd_mv
cmd_mv_lem args fs cwd src dst q m s h d = elim (Option-cases (read fs cwd src)) [
  | inl e ↦ ground (arith, h, d, e)
  | inr (b, e) ↦
      let fs1 = (write fs cwd dst b).1 in
      let s1 = step-IsSorted fs (write_file cwd dst b) s in
      let w = write_lem fs cwd dst b q m in
      elim (Bool-cases (is_dir fs cwd dst)) [
        | inl t ↦ ground (arith, h, d, e, t, w)
        | inr f ↦
            let done : (write fs cwd dst b).0 ≡ true =
              ground (arith, w.0, f, read-has_dir fs cwd src b e) in
            let there : view fs1.root cwd src ≡ some (file_node b) = ground (
              arith,
              done,
              d,
              (write_lem fs cwd dst b cwd src).1,
              same_dir cwd src dst,
              read-file_node fs cwd src b e,
            ) in
            let r = remove_lem fs1 cwd src s1 q m in
            let gone : is_ok (remove fs1 cwd src).0 ≡ true =
              ap is_ok r.0 ∙ removal_file fs1 cwd src b there in
            ground (arith, h, d, e, f, done, w.1, r.1, gone)
      ]
]
