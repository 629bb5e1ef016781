-- ===== src/Fs/Fat.antt =====
-- src/fs/fat.rs: the reader of a FAT32 volume, on the sectors that the driver reads.
pub mod Search
pub mod Read
mod Tests
use polaros.Prelude.{
  ℕ, zero, suc, ◌+◌, ◌-◌, ◌*◌, ◌/◌, ◌%◌, ◌^◌, min, Bool, true, false, not, ◌&&◌, ◌||◌, Option, none,
  some, List, [], ◌∷◌, ◌++◌, length, take, drop, replicate, get_or, ltb, leb, ◌==◌, if◌then◌else◌,
  Bytes, u16_of, u32_of,
}
use polaros.Fs.Name.{Name, name_eq}

-- A value, or the panic of an addition, subtraction or multiplication of `u32` that overflows.
pub data Checked {ℓ} (A : Type ℓ) : Type ℓ where
  value : A → Checked A
  panic : Checked A

abbrev pub add : ℕ → ℕ → Checked ℕ
add a b = if ltb (a + b) 4294967296 then value (a + b) else panic

abbrev pub sub : ℕ → ℕ → Checked ℕ
sub a b = if leb b a then value (a - b) else panic

abbrev pub mul : ℕ → ℕ → Checked ℕ
mul a b = if ltb (a * b) 4294967296 then value (a * b) else panic

-- The fields of a packed structure, by their offset in the sector.
abbrev pub u8_at : Bytes → ℕ → ℕ
u8_at sector i = get_or sector i 0

abbrev pub u16_at : Bytes → ℕ → ℕ
u16_at sector i = u16_of (u8_at sector i) (u8_at sector (i + 1))

abbrev pub u32_at : Bytes → ℕ → ℕ
u32_at sector i =
    u32_of (u8_at sector i) (u8_at sector (i + 1)) (u8_at sector (i + 2)) (u8_at sector (i + 3))

-- The fields of the `BPB` that are read.
pub record Bpb : Type 0 where
  pub bytes_per_sector : ℕ
  pub sectors_per_cluster : ℕ
  pub reserved_sectors : ℕ
  pub fats : ℕ
  pub sectors_per_fat_32 : ℕ
  pub root_cluster : ℕ

abbrev pub bpb_of : Bytes → Bpb
bpb_of sector = record {
  bytes_per_sector = u16_at sector 11;
  sectors_per_cluster = u8_at sector 13;
  reserved_sectors = u16_at sector 14;
  fats = u8_at sector 16;
  sectors_per_fat_32 = u32_at sector 36;
  root_cluster = u32_at sector 44;
}

-- The fields of a `DirEntry` that are read.
pub record DirEntry : Type 0 where
  pub name : Bytes
  pub ext : Bytes
  pub attr : ℕ
  pub cluster_high : ℕ
  pub cluster_low : ℕ
  pub size : ℕ

-- The `i`-th entry of 32 bytes in the sector.
unfoldable pub entry_at : Bytes → ℕ → DirEntry
entry_at sector i =
    let start = drop (i * 32) sector in
    record {
      name = take 8 start;
      ext = take 3 (drop 8 start);
      attr = u8_at start 11;
      cluster_high = u16_at start 20;
      cluster_low = u16_at start 26;
      size = u32_at start 28;
    }

abbrev pub is_free : DirEntry → Bool
is_free e = get_or e.name 0 0 == 0xE5

abbrev pub is_end : DirEntry → Bool
is_end e = get_or e.name 0 0 == 0

abbrev pub is_long_name : DirEntry → Bool
is_long_name e = e.attr == 0x0F

abbrev pub is_dir : DirEntry → Bool
is_dir e = e.attr / 16 % 2 == 1

-- `b as char` in UTF-8.
abbrev pub latin1 : ℕ → Bytes
latin1 b = if ltb b 0x80 then b ∷ [] else (0xC0 + b / 64) ∷ (0x80 + b % 64) ∷ []

-- The characters that are no spaces.
abbrev pub unpadded : Bytes → Name
unpadded [] = []
unpadded (b ∷ bs) = if b == 0x20 then unpadded bs else latin1 b ++ unpadded bs

-- The separator is the code of '.'.
abbrev pub filename : DirEntry → Name
filename e =
    if get_or e.ext 0 0 == 0x20 then unpadded e.name else unpadded e.name ++ 46 ∷ unpadded e.ext

abbrev pub cluster : DirEntry → ℕ
cluster e = e.cluster_high * 65536 + e.cluster_low

abbrev pub entries_per_sector : ℕ
entries_per_sector = 16

pub record FatLayout : Type 0 where
  pub data_start : ℕ
  pub root_cluster : ℕ
  pub sectors_per_cluster : ℕ

pub data LayoutResult : Type 0 where
  read_error invalid_sector_size : LayoutResult
  layout : FatLayout → LayoutResult

unfoldable pub layout_of : Bpb → Checked LayoutResult
layout_of bpb =
    if not (bpb.bytes_per_sector == 512)
    then value invalid_sector_size
    else elim (mul bpb.fats bpb.sectors_per_fat_32) [
      | panic ↦ panic
      | value all_fats ↦ elim (add bpb.reserved_sectors all_fats) [
        | panic ↦ panic
        | value data_start ↦ value (
            layout (record {
              data_start = data_start;
              root_cluster = bpb.root_cluster;
              sectors_per_cluster = bpb.sectors_per_cluster;
            }))
      ]
    ]

unfoldable pub cluster_to_lba : ℕ → FatLayout → Checked ℕ
cluster_to_lba cluster_number l = elim (sub cluster_number 2) [
  | panic ↦ panic
  | value n ↦ elim (mul n l.sectors_per_cluster) [
    | panic ↦ panic
    | value sectors ↦ add l.data_start sectors
  ]
]

-- The loop of `find_in_root_dir` over `n` entries from the `i`-th on, for the closure of `read_file`.
unfoldable pub find_entry : Name → Bytes → ℕ → ℕ → Option DirEntry
find_entry name sector zero i = none
find_entry name sector (suc n) i =
    let entry = entry_at sector i in
    let later = find_entry name sector n (i + 1) in
    if is_end entry
    then none
    else if is_free entry || is_long_name entry
    then later
    else if name_eq (filename entry) name
    then some entry
    else later

-- A line of the listing: a directory, or a file with its size.
pub data Listed : Type 0 where
  directory : Name → Listed
  plain_file : Name → ℕ → Listed

abbrev pub listed : DirEntry → Listed
listed e = if is_dir e then directory (filename e) else plain_file (filename e) e.size

-- The loop of `list_root_files`.
unfoldable pub list_entries : Bytes → ℕ → ℕ → List Listed
list_entries sector zero i = []
list_entries sector (suc n) i =
    let entry = entry_at sector i in
    let later = list_entries sector n (i + 1) in
    if is_end entry
    then []
    else if is_free entry || is_long_name entry
    then later
    else listed entry ∷ later

-- What `list_root_files` gives: the lines, or one line with a message.
pub data Listing : Type 0 where
  lines : List Listed → Listing
  layout_failed root_unread : Listing

-- What the driver reads of each sector, or that it fails.
module _ (read_sector : ℕ → Option Bytes) where
  unfoldable pub read_fat_layout : Checked LayoutResult
  read_fat_layout = elim (read_sector 0) [
    | none ↦ value read_error
    | some sector ↦ layout_of (bpb_of sector)
  ]

  unfoldable pub list_root_files : Checked Listing
  list_root_files = elim read_fat_layout [
    | panic ↦ panic
    | value read_error ↦ value layout_failed
    | value invalid_sector_size ↦ value layout_failed
    | value (layout l) ↦ elim (cluster_to_lba l.root_cluster l) [
      | panic ↦ panic
      | value root_lba ↦ elim (read_sector root_lba) [
        | none ↦ value root_unread
        | some sector ↦ value (lines (list_entries sector entries_per_sector 0))
      ]
    ]
  ]

  unfoldable pub find_in_root_dir : FatLayout → Name → Checked (Option DirEntry)
  find_in_root_dir l name = elim (cluster_to_lba l.root_cluster l) [
    | panic ↦ panic
    | value root_lba ↦ elim (read_sector root_lba) [
      | none ↦ value none
      | some sector ↦ value (find_entry name sector entries_per_sector 0)
    ]
  ]

  -- The buffer is zero where the sector cannot be read: the result of the driver is not looked at.
  abbrev pub buffer_of : Option Bytes → Bytes
  buffer_of none = replicate 512 0
  buffer_of (some sector) = sector

  unfoldable pub read_file : Name → Checked (Option Bytes)
  read_file name = elim read_fat_layout [
    | panic ↦ panic
    | value read_error ↦ value none
    | value invalid_sector_size ↦ value none
    | value (layout l) ↦ elim (find_in_root_dir l name) [
      | panic ↦ panic
      | value none ↦ value none
      | value (some entry) ↦ elim (cluster_to_lba (cluster entry) l) [
        | panic ↦ panic
        | value lba ↦ value (some (take (min entry.size 512) (buffer_of (read_sector lba))))
      ]
    ]
  ]
