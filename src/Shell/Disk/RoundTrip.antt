-- ===== src/Shell/Disk/RoundTrip.antt =====
-- What `cmd_save` writes on a working drive, `cmd_load` reads back.
use polaros.Prelude.{
  ℕ, ◌-◌, ◌%◌, ◌^◌, ◌≤◌, ◌<◌, ◌≡◌, refl, ap, sym, ◌∙◌, min, true, some, [], length, length-take,
  length-drop, take, drop, take-append-drop, append-nil, replicate, Bytes, u32_of-le, arith,
}
use polaros.Fs.Name.{cmp, name_eq}
use polaros.Fs.Tree.{dir}
use polaros.Fs.Tree.Order.{IsSorted}
use polaros.Fs.RamFs.{RamFs, DirPath, replace}
use polaros.Fs.Codec.{serialize, load_from}
use polaros.Fs.Codec.RoundTrip.{IsStorableEntry, load_from-serialize}
use polaros.Shell.Disk.{
  Drive, Written, written, collected, write_rest, read_rest, magic, header, header_bytes, total_of,
  cmd_save, cmd_load, saved, loaded,
}
use polaros.Shell.Disk.Sectors.{IsWorking, length-buffer, take-append, saves}

module _ {S : Type 0} (drive : Drive S) (works : IsWorking drive) where
  header_size : (content : Bytes) → length (header_bytes drive content) ≤ 512
  header_size content = simp length-take (omega arith)

  header-magic : (content : Bytes) → name_eq (take 4 (header drive content)) magic ≡ true
  unfolding cmp
  header-magic content = refl

  header-total :
      (content : Bytes)
      → length content < 4294967296
      → total_of drive (drop 4 (header drive content)) ≡ length content
  header-total content h =
      let small : length content % 2 ^ 32 ≡ length content = omega arith in
      u32_of-le (length content % 2 ^ 32) (omega arith) ∙ small

  header-first :
      (content : Bytes)
      → take (min (length content) 504) (drop 8 (header drive content)) ≡ take 504 content
  header-first content =
      take-append (min (length content) 504) (take 504 content)
        (replicate (512 - length (header_bytes drive content)) 0) (simp length-take (omega arith))

  load_lem :
      (other fs : RamFs) (cwd : DirPath) (head first content : Bytes) (total_len : ℕ) (s : S)
      → drive.read_sector 2048 s ≡ some head
      → name_eq (take 4 head) magic ≡ true
      → total_of drive (drop 4 head) ≡ total_len
      → take (min total_len 504) (drop 8 head) ≡ first
      → read_rest drive total_len 2049 total_len first s ≡ collected content
      → load_from content ≡ some fs
      → cmd_load drive other cwd s ≡ (loaded total_len, fs, [])
  unfolding cmd_load replace
  load_lem other fs cwd head first content total_len s at is_magic total is_first all parsed =
      rw (works.present s, at, is_magic, total, is_first, all, parsed)
        (ap (λ (n : ℕ). (loaded n, fs, [])) total)

  save_lem :
      (fs : RamFs) (s s' : S) (end : ℕ)
      → (drive.write_sector 2048 (header drive (serialize fs)) s).0 ≡ true
      → write_rest drive
          (length (serialize fs))
          2049
          (drop 504 (serialize fs))
          (drive.write_sector 2048 (header drive (serialize fs)) s).1
        ≡ (written end, s')
      → cmd_save drive fs s ≡ (saved (length (serialize fs)) (end - 2048), s')
  unfolding cmd_save
  save_lem fs s s' end ok e =
      rw (works.present s, ok, e)
        (ap (λ (r : Written × S). (saved (length (serialize fs)) (end - 2048), r.1)) e)

  -- On a working drive cmd_save reports success on a file system within the limits of the format,
  -- whose directories are in order and whose stored form is shorter than 2^32 bytes, and cmd_load,
  -- whatever the file system and the directory of the shell are by then, brings that file system
  -- back and goes to its root.
  pub save_load :
      (fs other : RamFs) (cwd : DirPath) (s : S)
      → IsSorted fs.root
      → IsStorableEntry (dir fs.root)
      → length (serialize fs) < 4294967296
      → (sectors : ℕ) × (s' : S) × (cmd_save drive fs s
          ≡ (saved (length (serialize fs)) sectors, s'))
        × (cmd_load drive other cwd s' ≡ (loaded (length (serialize fs)), fs, []))
  save_load fs other cwd s sorted storable h =
      let content = serialize fs in
      let size = length-buffer (header_bytes drive content) (header_size content) in
      let s1 = (drive.write_sector 2048 (header drive content) s).1 in
      let ok = works.writes 2048 (header drive content) s (omega arith) size in
      let left = length-drop 504 content in
      let next =
        saves drive works (length content) 2049 (drop 504 content) s1 (omega (arith, left))
          (omega (arith, left)) in
      let head : drive.read_sector 2048 next.s' ≡ some (header drive content) =
        next.holds.below 2048 (omega arith)
        ∙ works.reads_back 2048 (header drive content) s (omega arith) size in
      let all =
        next.holds.collects (take 504 content) (length content)
          (simp (length-take, length-drop) (omega arith))
        ∙ ap collected (take-append-drop 504 content) in
      let parsed : load_from content ≡ some fs =
        ap load_from (sym (append-nil content)) ∙ load_from-serialize fs [] sorted storable in
      (
        next.end - 2048,
        next.s',
        save_lem fs s next.s' next.end ok next.outcome,
        load_lem other fs cwd (header drive content) (take 504 content) content (length content)
            next.s' head (header-magic content) (header-total content h) (header-first content) all
            parsed,
      )
