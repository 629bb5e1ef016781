-- ===== src/Fs/Fat/Tests.antt =====
-- A small FAT32 volume: a file of five bytes, and an empty one.
use polaros.Prelude.{
  ℕ, ◌≡◌, refl, Option, none, some, [], ◌∷◌, ◌++◌, Bytes, text, replicate, ◌==◌, if◌then◌else◌,
}
use polaros.Fs.Name.{cmp}
use polaros.Fs.Fat.{
  value, panic, DirEntry, FatLayout, lines, plain_file, entry_at, layout_of, cluster_to_lba,
  find_entry, list_entries, read_fat_layout, list_root_files, find_in_root_dir, read_file,
}

-- 512 bytes a sector, one sector a cluster, one reserved sector, one FAT of one sector.
abbrev boot : Bytes
boot =
    replicate 11 0
    ++ (0 ∷ 2 ∷ 1 ∷ 1 ∷ 0 ∷ 1 ∷ [])
    ++ replicate 19 0
    ++ (1 ∷ 0 ∷ 0 ∷ 0 ∷ 0 ∷ 0 ∷ 0 ∷ 0 ∷ 2 ∷ 0 ∷ 0 ∷ 0 ∷ [])

abbrev entry_bytes : Bytes → ℕ → ℕ → Bytes
entry_bytes name first size = name ++ (32 ∷ replicate 14 0) ++ (first ∷ 0 ∷ size ∷ 0 ∷ 0 ∷ 0 ∷ [])

abbrev root : Bytes
root =
    entry_bytes (text "A       TXT") 3 5 ++ entry_bytes (text "B          ") 0 0 ++ replicate 64 0

abbrev volume : ℕ → Option Bytes
volume lba =
    if lba == 0
    then some boot
    else if lba == 2
    then some root
    else if lba == 3
    then some (text "hello" ++ replicate 507 0)
    else none

abbrev volume_layout : FatLayout
volume_layout = record { data_start = 2; root_cluster = 2; sectors_per_cluster = 1 }

abbrev empty_file : DirEntry
empty_file = record {
  name = text "B       ";
  ext = text "   ";
  attr = 32;
  cluster_high = 0;
  cluster_low = 0;
  size = 0;
}

volume_listing :
    list_root_files volume
    ≡ value (lines (plain_file (text "A.TXT") 5 ∷ plain_file (text "B") 0 ∷ []))
unfolding list_root_files read_fat_layout layout_of cluster_to_lba list_entries entry_at
volume_listing = refl

read_hello : read_file volume (text "A.TXT") ≡ value (some (text "hello"))
unfolding read_file read_fat_layout layout_of find_in_root_dir cluster_to_lba find_entry entry_at
    cmp
read_hello = refl

-- An empty file has no cluster: the number of its first one is 0.
read_empty : read_file volume (text "B") ≡ panic
unfolding read_file read_fat_layout layout_of find_in_root_dir cluster_to_lba find_entry entry_at
    cmp
read_empty = refl
