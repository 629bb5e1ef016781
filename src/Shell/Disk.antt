-- ===== src/Shell/Disk.antt =====
-- `cmd_save` and `cmd_load` of src/shell/commands.rs: the file system on the sectors of a disk.
pub mod Sectors
pub mod RoundTrip
mod Tests
use polaros.Prelude.{
  ℕ, zero, suc, ◌+◌, ◌-◌, ◌%◌, ◌^◌, ◌<◌, ◌≡◌, ◌≢◌, min, Bool, true, false, not, Option, none, some,
  List, [], ◌∷◌, ◌++◌, length, take, drop, replicate, ltb, ◌==◌, if◌then◌else◌, Bytes, u32_le,
  u32_of, text,
}
use polaros.Fs.Name.{name_eq}
use polaros.Fs.RamFs.{RamFs, DirPath, replace}
use polaros.Fs.Codec.{serialize, load_from}

-- The driver of src/drivers/ata.rs on the drive's state, which is hardware. `read_sector` gives what
-- it leaves in the buffer, or that it failed.
pub record Drive (S : Type 0) : Type 0 where
  pub is_available : S → Bool
  pub write_sector : ℕ → Bytes → S → Bool × S
  pub read_sector : ℕ → S → Option Bytes

abbrev pub data_start_sector : ℕ
data_start_sector = 2048

-- A buffer of 512 bytes that begins with these, and is zero behind them.
abbrev pub buffer : Bytes → Bytes
buffer bytes = bytes ++ replicate (512 - length bytes) 0

abbrev pub magic : Bytes
magic = text "PLRS"

-- What the two commands report.
pub data SaveReport : Type 0 where
  no_disk header_failed save_out_of_fuel : SaveReport
  sector_failed : ℕ → SaveReport
  saved : ℕ → ℕ → SaveReport

pub data LoadReport : Type 0 where
  disk_missing header_unread no_file_system load_out_of_fuel damaged : LoadReport
  sector_unread : ℕ → LoadReport
  loaded : ℕ → LoadReport

-- How the loop of `cmd_save` ends: with the sector behind the last one, or at the one that failed.
pub data Written : Type 0 where
  written : ℕ → Written
  write_failed : ℕ → Written
  write_out_of_fuel : Written

pub data Collected : Type 0 where
  collected : Bytes → Collected
  read_failed : ℕ → Collected
  read_out_of_fuel : Collected

module _ {S : Type 0} (drive : Drive S) where
  -- `data[offset..]` is the rest of the bytes.
  unfoldable pub write_rest : ℕ → ℕ → Bytes → S → Written × S
  write_rest fuel sector [] s = (written sector, s)
  write_rest zero sector (b ∷ bs) s = (write_out_of_fuel, s)
  write_rest (suc fuel) sector (b ∷ bs) s =
      let (ok, s') = drive.write_sector sector (buffer (take 512 (b ∷ bs))) s in
      let further = write_rest fuel (sector + 1) (drop 512 (b ∷ bs)) s' in
      if not ok then (write_failed sector, s') else further

  abbrev pub header_bytes : Bytes → Bytes
  header_bytes content = magic ++ (u32_le (length content % 2 ^ 32) ++ take 504 content)

  abbrev pub header : Bytes → Bytes
  header content = buffer (header_bytes content)

  unfoldable pub cmd_save : RamFs → S → SaveReport × S
  unfolding write_rest
  cmd_save fs s =
      let content = serialize fs in
      let (ok, s1) = drive.write_sector data_start_sector (header content) s in
      let (end, s2) = write_rest (length content) (data_start_sector + 1) (drop 504 content) s1 in
      if not (drive.is_available s)
      then (no_disk, s)
      else if not ok
      then (header_failed, s1)
      else elim end [
        | written sector ↦ (saved (length content) (sector - data_start_sector), s2)
        | write_failed sector ↦ (sector_failed sector, s2)
        | write_out_of_fuel ↦ (save_out_of_fuel, s2)
      ]

  -- The bytes so far are `content`; the loop ends when there are `total_len`.
  unfoldable pub read_rest : ℕ → ℕ → ℕ → Bytes → S → Collected
  read_rest zero sector total_len content s =
      if ltb (length content) total_len then read_out_of_fuel else collected content
  read_rest (suc fuel) sector total_len content s =
      let chunk = min (total_len - length content) 512 in
      if ltb (length content) total_len
      then (elim (drive.read_sector sector s) [
        | none ↦ read_failed sector
        | some buf ↦ read_rest fuel (sector + 1) total_len (content ++ take chunk buf) s
      ])
      else collected content

  -- `header[4..8]` as a number.
  abbrev pub total_of : Bytes → ℕ
  total_of (b0 ∷ b1 ∷ b2 ∷ b3 ∷ rest) = u32_of b0 b1 b2 b3
  total_of _ = 0

  -- The report, the file system and the shell's directory.
  unfoldable pub cmd_load : RamFs → DirPath → S → LoadReport × RamFs × DirPath
  unfolding read_rest
  cmd_load fs cwd s =
      if not (drive.is_available s)
      then (disk_missing, fs, cwd)
      else elim (drive.read_sector data_start_sector s) [
        | none ↦ (header_unread, fs, cwd)
        | some head ↦
            let total_len = total_of (drop 4 head) in
            let first_chunk = take (min total_len 504) (drop 8 head) in
            let end = read_rest total_len (data_start_sector + 1) total_len first_chunk s in
            if not (name_eq (take 4 head) magic) then (no_file_system, fs, cwd) else elim end [
              | read_failed sector ↦ (sector_unread sector, fs, cwd)
              | read_out_of_fuel ↦ (load_out_of_fuel, fs, cwd)
              | collected content ↦ elim (load_from content) [
                | none ↦ (damaged, fs, cwd)
                | some new_fs ↦ (loaded total_len, replace fs new_fs, [])
              ]
            ]
      ]
