-- ===== src/Kernel/Memory.antt =====
-- src/kernel/memory/frame_allocator.rs: the frames that are handed out for page tables and the heap.
pub mod Frames
mod Tests
use polaros.Prelude.{
  ℕ, ◌+◌, ◌*◌, ◌%◌, ◌≤◌, ◌<◌, ◌≡◌, Bool, true, false, Option, none, some, List, [], ◌∷◌, ltb, leb,
  if◌then◌else◌,
}

abbrev pub page_size : ℕ
page_size = 4096

-- A region of the boot loader's `MemoryMap`: whether its type is `Usable`, and the addresses that
-- `range.start_addr()` and `range.end_addr()` give.
pub record MemoryRegion : Type 0 where
  pub usable : Bool
  pub start_addr : ℕ
  pub end_addr : ℕ

-- `PhysFrame::containing_address` of the x86_64 crate, by the address at which the frame starts: the
-- frame contains the address, and starts at a multiple of its size.
pub record PhysFrame : Type 0 where
  pub containing_address : ℕ → ℕ
  pub starts_before : (a : ℕ) → containing_address a ≤ a
  pub ends_after : (a : ℕ) → a < containing_address a + page_size
  pub aligned : (a : ℕ) → containing_address a % page_size ≡ 0

-- `allocate_frame` on the map and `next_addr`. An address is a `u64`.
unfoldable pub allocate_frame : PhysFrame → List MemoryRegion → ℕ → Option ℕ × ℕ
allocate_frame frame [] next_addr = (none, next_addr)
allocate_frame frame (region ∷ regions) next_addr =
    let later = allocate_frame frame regions next_addr in
    let addr = if leb region.start_addr next_addr then next_addr else region.start_addr in
    if region.usable
    then (if ltb addr region.end_addr
        then (some (frame.containing_address addr), (addr + page_size) % 18446744073709551616)
        else later)
    else later
