-- ===== src/Kernel/Syscall/Table.antt =====
-- The table of open files: `sys_open`, `sys_close` and what `sys_exit` does to it.
use native.Mathlib.Decide.{dec_lt}
use polaros.Prelude.{
  ℕ, zero, suc, ◌+◌, ◌≤◌, ◌<◌, ◌≡◌, refl, Bool, true, false, not, ◌&&◌, ◌||◌, ◌⊎◌, inl, inr,
  Bool-cases, Option-cases, Option, none, some, [], ◌∷◌, length, get_elem?, get_elem?-set_self, set,
  arith, Bytes, ltb, leb,
}
use polaros.Fs.Name.{is_utf8}
use polaros.Fs.RamFs.{RamFs, read, exists, is_dir}
use polaros.Fs.RamFs.View.{is_some, read-view, exists-view, is_dir-view}
use polaros.Kernel.Syscall.{
  OpenFile, FdTable, u64_max, parse_file_path, first_free, alloc_fd, sys_open, sys_close,
}

pub get_elem?-in :
    (fds : FdTable) (i : ℕ) → i < length fds → (f : Option OpenFile) × (get_elem? fds i ≡ some f)
get_elem?-in [] i h = absurd (omega arith)
get_elem?-in (f ∷ fds) zero h = (f, refl)
get_elem?-in (f ∷ fds) (suc i) h = get_elem?-in fds i (omega arith)

-- The place of the table is taken.
abbrev pub InUse : FdTable → ℕ → Type 0
InUse fds j = (f : OpenFile) × (get_elem? fds j ≡ some (some f))

data Free (fds : FdTable) (n fd : ℕ) : Type 0 where
  full : ((j : ℕ) → fd ≤ j → j < fd + n → InUse fds j) → first_free fds n fd ≡ none → Free fds n fd
  free :
      (k : ℕ)
      → fd ≤ k
      → k < fd + n
      → get_elem? fds k ≡ some none
      → ((j : ℕ) → fd ≤ j → j < k → InUse fds j)
      → first_free fds n fd ≡ some k
      → Free fds n fd

search-Free : (fds : FdTable) (n fd : ℕ) → fd + n ≤ length fds → Free fds n fd
search-Free fds zero fd h = full (λ j p q. absurd (omega arith)) (unfold first_free in refl)
search-Free fds (suc n) fd h =
    let (f, at) = get_elem?-in fds fd (omega arith) in
    elim (Option-cases f) [
      | inl e ↦
          free fd (omega arith) (omega arith) (cc (at, e)) (λ j p q. absurd (omega arith))
            (unfold first_free in ground (arith, at, e))
      | inr (g, e) ↦ later g (cc (at, e)) (search-Free fds n (fd + 1) (omega arith))
    ]
  where
    here :
        (g : OpenFile)
        → get_elem? fds fd ≡ some (some g)
        → (j : ℕ) → fd ≤ j
        → (fd + 1 ≤ j → InUse fds j)
        → InUse fds j
    here g at j p more = elim (Bool-cases (ltb fd j)) [
      | inl lt ↦ more (ground arith)
      | inr ge ↦ let e : j ≡ fd = ground arith in rw e (g, at)
    ]

    later :
        (g : OpenFile)
        → get_elem? fds fd ≡ some (some g)
        → Free fds n (fd + 1)
        → Free fds (suc n) fd
    later g at (full used e) =
        full (λ j p q. here g at j p (λ r. used j r (omega arith)))
          (unfold first_free in ground (arith, at, e))
    later g at (free k le lt at_k used e) =
        free k (omega arith) (omega arith) at_k (λ j p q. here g at j p (λ r. used j r q))
          (unfold first_free in ground (arith, at, e))

-- The path is text, and names a file.
abbrev pub openable : RamFs → Bytes → Bool
openable fs p = is_utf8 p && is_some (read fs (parse_file_path p).0 (parse_file_path p).1)

abbrev pub opened_file : Bytes → OpenFile
opened_file p = record { path = (parse_file_path p).0; name = (parse_file_path p).1; offset = 0 }

-- What `sys_open` comes to. It gives the first free descriptor of 3 to 15, and no other descriptor
-- changes; or it refuses and leaves the table as it is, where the path names no file or all of
-- the descriptors are taken.
pub data Opened (fs : RamFs) (fds : FdTable) (p : Bytes) (o : ℕ × FdTable) : Type 0 where
  opened :
      (fd : ℕ)
      → openable fs p ≡ true
      → 3 ≤ fd
      → fd < 16
      → get_elem? fds fd ≡ some none
      → ((j : ℕ) → 3 ≤ j → j < fd → InUse fds j)
      → o ≡ (fd, set fds fd (some (opened_file p)))
      → Opened fs fds p o
  refused :
      (openable fs p ≡ false) ⊎ ((j : ℕ) → 3 ≤ j → j < 16 → InUse fds j)
      → o ≡ (u64_max, fds)
      → Opened fs fds p o

module _ (fs : RamFs) (fds : FdTable) (p : Bytes) where
  readable :
      (exists fs (parse_file_path p).0 (parse_file_path p).1
        && not (is_dir fs (parse_file_path p).0 (parse_file_path p).1))
      ≡ is_some (read fs (parse_file_path p).0 (parse_file_path p).1)
  readable =
      let (d, n) = parse_file_path p in
      ground (arith, exists-view fs d n, is_dir-view fs d n, read-view fs d n)

  unreadable : openable fs p ≡ false → sys_open fs fds p ≡ (u64_max, fds)
  unfolding sys_open
  unreadable h = ground (arith, readable)

  -- On a table of 16 places sys_open gives the first free descriptor of 3 to 15 and changes no
  -- other, or it refuses and leaves the table as it is, where the path names no file or all of the
  -- descriptors are taken.
  pub sys_open-Opened : length fds ≡ 16 → Opened fs fds p (sys_open fs fds p)
  sys_open-Opened h = elim (Bool-cases (openable fs p)) [
    | inr not_file ↦ refused (inl not_file) (unreadable not_file)
    | inl is_file ↦ elim (search-Free fds 13 3 (omega arith)) [
      | full used e ↦
          refused (inr used) (unfold sys_open alloc_fd in ground (arith, readable, e, is_file))
      | free k le lt at used e ↦
          opened k is_file le lt at used
            (unfold sys_open alloc_fd in ground (arith, readable, e, is_file))
    ]
  ]

-- `sys_close` succeeds exactly on a descriptor of 3 to 15 that is in use. That one is free after it,
-- no other changes, and to close it again fails.
pub sys_close_lem :
    (fds : FdTable) (fd : ℕ)
    → length fds ≡ 16
    → ((sys_close fds fd).0 ≡ 0)
        × (3 ≤ fd)
        × InUse fds fd
        × ((sys_close fds fd).1 ≡ set fds fd none)
        × (sys_close (sys_close fds fd).1 fd ≡ (u64_max, (sys_close fds fd).1))
      ⊎ ((sys_close fds fd).0 ≡ u64_max)
        × ((sys_close fds fd).1 ≡ fds)
        × ((fd < 3) ⊎ (16 ≤ fd) ⊎ (get_elem? fds fd ≡ some none))
unfolding sys_close
sys_close_lem fds fd h = elim (Bool-cases (ltb fd 3 || leb 16 fd)) [
  | inl out ↦ elim (dec_lt fd 3) [
    | yes low ↦ inr (ground arith, ground arith, inl low)
    | no ge ↦ inr (ground arith, ground arith, inr (inl (ground arith)))
  ]
  | inr within ↦
      let (f, at) = get_elem?-in fds fd (ground arith) in
      let self = get_elem?-set_self fds fd none (ground arith) in
      elim (Option-cases f) [
        | inl e ↦ inr (ground (arith, at, e), ground (arith, at, e), inr (inr (cc (at, e))))
        | inr (g, e) ↦ inl (
          ground (arith, at, e),
          ground arith,
          (g, cc (at, e)),
          ground (arith, at, e),
          ground (arith, at, e, self),
        )
      ]
]
