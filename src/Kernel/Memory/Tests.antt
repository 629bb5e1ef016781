-- ===== src/Kernel/Memory/Tests.antt =====
-- The frame allocator at concrete inputs.
use polaros.Prelude.{◌*◌, ◌/◌, ◌≡◌, refl, true, false, List, [], ◌∷◌, arith}
use polaros.Kernel.Memory.{MemoryRegion, PhysFrame, allocate_frame}
use polaros.Kernel.Memory.Frames.{Allocated, allocate_frame-Allocated, frames, Apart, frames-Apart}

-- An address is rounded down.
abbrev down : PhysFrame
down = record {
  containing_address = λ a. a / 4096 * 4096;
  starts_before = λ a. omega arith;
  ends_after = λ a. omega arith;
  aligned = λ a. omega arith;
}

-- Two frames at 8192, and two more from 65536, behind a reserved region.
abbrev memory_map : List MemoryRegion
memory_map =
    record { usable = true; start_addr = 8192; end_addr = 16384 }
    ∷ record { usable = false; start_addr = 16384; end_addr = 65536 }
    ∷ record { usable = true; start_addr = 65536; end_addr = 73728 }
    ∷ []

four_frames : frames down memory_map 0 9 ≡ 8192 ∷ 12288 ∷ 65536 ∷ 69632 ∷ []
unfolding frames allocate_frame
four_frames = refl

frames-Apart_example : Apart (frames down memory_map 0 9)
frames-Apart_example =
    frames-Apart down memory_map 9 (omega arith, (omega arith, (omega arith, tt)))

allocate_frame-Allocated_example :
    Allocated down memory_map 16384 (allocate_frame down memory_map 16384)
allocate_frame-Allocated_example =
    allocate_frame-Allocated down memory_map 16384 (omega arith, (omega arith, (omega arith, tt)))
