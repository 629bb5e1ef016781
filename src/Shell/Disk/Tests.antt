-- ===== src/Shell/Disk/Tests.antt =====
-- A drive that is a function from sectors to bytes, and a file system saved to it.
use polaros.Prelude.{
  ℕ, ◌≡◌, ◌<◌, refl, true, Option, some, none, [], ◌∷◌, arith, text, length, Bytes, ◌==◌,
  if◌then◌else◌,
}
use polaros.Fs.Name.{is_utf8}
use polaros.Fs.Tree.{dir, file, nil, cons}
use polaros.Fs.Tree.Order.{IsSorted}
use polaros.Fs.RamFs.{RamFs, new}
use polaros.Fs.Codec.{serialize, serialize_dir, serialize_entry}
use polaros.Fs.Codec.RoundTrip.{IsStorableEntry}
use polaros.Shell.Disk.{Drive, cmd_save, cmd_load, saved, loaded}
use polaros.Shell.Disk.Sectors.{IsWorking}
use polaros.Shell.Disk.RoundTrip.{save_load}

abbrev Sectors : Type 0
Sectors = ℕ → Option Bytes

abbrev drive : Drive Sectors
drive = record {
  is_available = λ s. true;
  write_sector = λ sector buf s. (true, λ n. if n == sector then some buf else s n);
  read_sector = λ sector s. s sector;
}

drive-IsWorking : IsWorking drive
drive-IsWorking = record {
  present = λ s. refl;
  writes = λ sector buf s h k. refl;
  reads_back = λ sector buf s h k. ground arith;
  keeps = λ sector other buf s h k ne. ground arith;
}

abbrev sample : RamFs
sample = record { root = cons (text "hi") (file (72 ∷ 105 ∷ [])) nil }

sample-IsSorted : IsSorted sample.root
sample-IsSorted = (tt, tt, tt)

sample-IsStorable : IsStorableEntry (dir sample.root)
unfolding is_utf8
sample-IsStorable = (omega arith, (omega arith, refl, omega arith, tt))

sample-small : length (serialize sample) < 4294967296
unfolding serialize serialize_dir serialize_entry
sample-small = omega arith

save_load_example :
    (sectors : ℕ) × (s' : Sectors) × (cmd_save drive sample (λ n. none)
      ≡ (saved (length (serialize sample)) sectors, s'))
    × (cmd_load drive new (text "docs" ∷ []) s' ≡ (loaded (length (serialize sample)), sample, []))
save_load_example =
    save_load drive drive-IsWorking sample new (text "docs" ∷ []) (λ n. none) sample-IsSorted
      sample-IsStorable sample-small
