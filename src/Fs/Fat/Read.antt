-- ===== src/Fs/Fat/Read.antt =====
-- What `read_file` of src/fs/fat.rs returns.
use polaros.Prelude.{
  ℕ, ◌≤◌, ◌≡◌, refl, inl, inr, ◌⊎◌, Option-cases, min, Option, none, some, Bytes, length, take,
  length-take, arith,
}
use polaros.Fs.Name.{Name}
use polaros.Fs.Fat.{
  Checked, value, panic, FatLayout, LayoutResult, layout, read_error, invalid_sector_size, cluster,
  cluster_to_lba, read_fat_layout, find_in_root_dir, buffer_of, read_file,
}

Checked-cases {ℓ} : {A : Type ℓ} (c : Checked A) → (c ≡ panic) ⊎ ((a : A) × (c ≡ value a))
Checked-cases panic = inl refl
Checked-cases (value a) = inr (a, refl)

layout-cases :
    (r : LayoutResult)
    → (r ≡ read_error) ⊎ (r ≡ invalid_sector_size) ⊎ ((l : FatLayout) × (r ≡ layout l))
layout-cases read_error = inl refl
layout-cases invalid_sector_size = inr (inl refl)
layout-cases (layout l) = inr (inr (l, refl))

module _ (read_sector : ℕ → Option Bytes) (name : Name) where
  read_file_cases :
      (read_file read_sector name ≡ panic)
      ⊎ (read_file read_sector name ≡ value none)
      ⊎ ((size : ℕ) × (sector : Bytes) × (read_file read_sector name
            ≡ value (some (take (min size 512) sector))))
  unfolding read_file
  read_file_cases = elim (Checked-cases (read_fat_layout read_sector)) [
    | inl e ↦ inl (cc e)
    | inr (r, e) ↦ elim (layout-cases r) [
      | inl e1 ↦ inr (inl (cc (e, e1)))
      | inr (inl e1) ↦ inr (inl (cc (e, e1)))
      | inr (inr (l, e1)) ↦ elim (Checked-cases (find_in_root_dir read_sector l name)) [
        | inl e2 ↦ inl (cc (e, e1, e2))
        | inr (o, e2) ↦ elim (Option-cases o) [
          | inl e3 ↦ inr (inl (cc (e, e1, e2, e3)))
          | inr (entry, e3) ↦ elim (Checked-cases (cluster_to_lba (cluster entry) l)) [
            | inl e4 ↦ inl (cc (e, e1, e2, e3, e4))
            | inr (lba, e4) ↦
                inr (
                  inr (entry.size, buffer_of read_sector (read_sector lba), cc (e, e1, e2, e3, e4)))
          ]
        ]
      ]
    ]
  ]

  -- `read_file` never returns more than the 512 bytes of one sector, whatever the size of the file.
  pub read_file-short :
      (bytes : Bytes) → read_file read_sector name ≡ value (some bytes) → length bytes ≤ 512
  read_file-short bytes h = elim read_file_cases [
    | inl e ↦ cc
    | inr (inl e) ↦ cc
    | inr (inr (size, sector, e)) ↦
        let same : bytes ≡ take (min size 512) sector = cc in
        rw same (omega (arith, length-take (min size 512) sector))
  ]
