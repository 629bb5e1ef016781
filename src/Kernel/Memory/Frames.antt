-- ===== src/Kernel/Memory/Frames.antt =====
-- No frame is handed out twice, and each lies in memory that the boot loader calls usable.
use polaros.Prelude.{
  max, ℕ, zero, suc, ◌+◌, ◌%◌, ◌≤◌, ◌<◌, ◌≡◌, ◌⊎◌, inl, inr, refl, Bool-cases, true, false, Option,
  none, some, List, [], ◌∷◌, ltb, leb, if◌then◌else◌, All, arith,
}
use polaros.Kernel.Memory.{page_size, MemoryRegion, PhysFrame, allocate_frame}

-- The address lies in a usable region of the map.
abbrev pub IsUsable : List MemoryRegion → ℕ → Type 0
IsUsable [] a = ⊥
IsUsable (r ∷ rs) a = ((r.usable ≡ true) × (r.start_addr ≤ a) × (a < r.end_addr)) ⊎ IsUsable rs a

-- The map ends below 2 ^ 52, as physical addresses do.
abbrev pub IsPhysical : List MemoryRegion → Type 0
IsPhysical regions = All (λ r. r.end_addr ≤ 4503599627370496) regions

-- A request is refused where no usable region has an address from `next_addr` on; otherwise it takes the
-- frame of a usable address that is not below `next_addr`, and goes on behind it.
pub data Allocated (frame : PhysFrame) (regions : List MemoryRegion) (next : ℕ) (o : Option ℕ × ℕ)
    : Type 0 where
  refused :
      All (λ r. (r.usable ≡ false) ⊎ (r.end_addr ≤ max next r.start_addr)) regions
      → o ≡ (none, next)
      → Allocated frame regions next o
  given :
      (addr : ℕ)
      → next ≤ addr
      → IsUsable regions addr
      → o ≡ (some (frame.containing_address addr), addr + 4096)
      → Allocated frame regions next o

pub allocate_frame-Allocated :
    (frame : PhysFrame) (regions : List MemoryRegion) (next : ℕ)
    → IsPhysical regions
    → Allocated frame regions next (allocate_frame frame regions next)
allocate_frame-Allocated frame [] next h = refused tt (unfold allocate_frame in refl)
allocate_frame-Allocated frame (r ∷ rs) next h =
    let addr = if leb r.start_addr next then next else r.start_addr in
    let more = allocate_frame-Allocated frame rs next h.1 in
    elim (Bool-cases r.usable) [
      | inr reserved ↦ skip (inl reserved) (unfold allocate_frame in ground (arith, reserved)) more
      | inl usable ↦ elim (Bool-cases (ltb addr r.end_addr)) [
        | inl room ↦
            given addr (ground arith) (inl (usable, ground arith, ground arith))
              (unfold allocate_frame in ground (arith, usable, room, h.0))
        | inr past ↦
            skip (inr (ground arith)) (unfold allocate_frame in ground (arith, usable, past)) more
      ]
    ]
  where
    skip :
        (r.usable ≡ false) ⊎ (r.end_addr ≤ max next r.start_addr)
        → allocate_frame frame (r ∷ rs) next ≡ allocate_frame frame rs next
        → Allocated frame rs next (allocate_frame frame rs next)
        → Allocated frame (r ∷ rs) next (allocate_frame frame (r ∷ rs) next)
    skip why e (refused all q) = refused (why, all) (rw e q)
    skip why e (given a le place q) = given a le (inr place) (rw e q)

-- The frames of so many requests, up to the first that is refused.
unfoldable pub frames : PhysFrame → List MemoryRegion → ℕ → ℕ → List ℕ
frames frame regions next zero = []
frames frame regions next (suc n) =
    let (given_frame, next') = allocate_frame frame regions next in
    elim given_frame [ none ↦ [] | some f ↦ f ∷ frames frame regions next' n ]

module _ (frame : PhysFrame) (regions : List MemoryRegion) (next n : ℕ) where
  frames-none :
      allocate_frame frame regions next ≡ (none, next) → frames frame regions next (suc n) ≡ []
  unfolding frames
  frames-none e = cc e

  frames-some :
      (f next' : ℕ)
      → allocate_frame frame regions next ≡ (some f, next')
      → frames frame regions next (suc n) ≡ f ∷ frames frame regions next' n
  unfolding frames
  frames-some f next' e = cc e

-- Each frame lies behind the whole of the one before it.
abbrev pub Apart : List ℕ → Type 0
Apart [] = Unit
Apart (f ∷ fs) = All (λ g. f + page_size ≤ g) fs × Apart fs

-- What holds of the frames that are given from `next` on.
abbrev Later : ℕ → ℕ → Type 0
Later next f = (next < f + page_size) × (f % page_size ≡ 0)

weaken : (next next' : ℕ) (fs : List ℕ) → next ≤ next' → All (Later next') fs → All (Later next) fs
weaken next next' [] h k = tt
weaken next next' (f ∷ fs) h k = ((omega (arith, k.0.0), k.0.1), weaken next next' fs h k.1)

behind :
    (f addr : ℕ) (fs : List ℕ)
    → f ≤ addr
    → f % page_size ≡ 0
    → All (Later (addr + 4096)) fs
    → All (λ g. f + page_size ≤ g) fs
behind f addr [] h e k = tt
behind f addr (g ∷ fs) h e k = (omega (arith, k.0.0, k.0.1), behind f addr fs h e k.1)

frames_from :
    (frame : PhysFrame) (regions : List MemoryRegion) (next n : ℕ)
    → IsPhysical regions
    → All (Later next) (frames frame regions next n) × Apart (frames frame regions next n)
unfolding frames
frames_from frame regions next zero h = (tt, tt)
frames_from frame regions next (suc n) h =
    let again = λ (next' : ℕ). frames_from frame regions next' n h in
    elim (allocate_frame-Allocated frame regions next h) [
      | refused all e ↦ rw (frames-none frame regions next n e, All, Apart) (tt, tt)
      | given addr le place e ↦
          let f = frame.containing_address addr in
          let (later, apart) = again (addr + 4096) in
          let fs = frames frame regions (addr + 4096) n in
          let lo = frame.starts_before addr in
          let hi = frame.ends_after addr in
          let al = frame.aligned addr in
          rw (frames-some frame regions next n f (addr + 4096) e, All, Apart)
            (
              ((omega (arith, hi, le), al), weaken next (addr + 4096) fs (omega arith) later),
              (behind f addr fs lo al later, apart),
            )
    ]

-- However many frames are requested from a new allocator, whatever the order of the regions of a
-- map below 2^52, each frame lies behind the whole of every frame that was given before it.
pub frames-Apart :
    (frame : PhysFrame) (regions : List MemoryRegion) (n : ℕ)
    → IsPhysical regions
    → Apart (frames frame regions 0 n)
frames-Apart frame regions n h = (frames_from frame regions 0 n h).1

-- Regions begin and end at frames, as those of the boot loader do.
abbrev pub IsFramed : List MemoryRegion → Type 0
IsFramed regions = All (λ r. (r.start_addr % 4096 ≡ 0) × (r.end_addr % 4096 ≡ 0)) regions

-- The whole frame lies in a usable region.
abbrev pub IsInside : List MemoryRegion → ℕ → Type 0
IsInside [] f = ⊥
IsInside (r ∷ rs) f =
    ((r.usable ≡ true) × (r.start_addr ≤ f) × (f + page_size ≤ r.end_addr)) ⊎ IsInside rs f

inside :
    (frame : PhysFrame) (regions : List MemoryRegion) (addr : ℕ)
    → IsFramed regions
    → IsUsable regions addr
    → IsInside regions (frame.containing_address addr)
inside frame [] addr h u = u
inside frame (r ∷ rs) addr h (inl (usable, from, to)) =
    let lo = frame.starts_before addr in
    let hi = frame.ends_after addr in
    let al = frame.aligned addr in
    inl (usable, omega (arith, h.0.0, lo, hi, al), omega (arith, h.0.1, lo, hi, al))
inside frame (r ∷ rs) addr h (inr later) = inr (inside frame rs addr h.1 later)

-- Every frame that is given lies wholly in a usable region.
pub frames-IsInside :
    (frame : PhysFrame) (regions : List MemoryRegion) (next n : ℕ)
    → IsPhysical regions
    → IsFramed regions
    → All (IsInside regions) (frames frame regions next n)
unfolding frames
frames-IsInside frame regions next zero h k = tt
frames-IsInside frame regions next (suc n) h k =
    let again = λ (next' : ℕ). frames-IsInside frame regions next' n h k in
    elim (allocate_frame-Allocated frame regions next h) [
      | refused all e ↦ rw (frames-none frame regions next n e, All) tt
      | given addr le place e ↦
          rw (frames-some frame regions next n (frame.containing_address addr) (addr + 4096) e, All)
            (inside frame regions addr k place, again (addr + 4096))
    ]
