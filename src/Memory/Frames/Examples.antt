-- ===== src/Memory/Frames/Examples.antt =====
-- Frames from a small memory map.
use iaos.Prelude.{◌≡◌, refl, arith, true, false, some, List, [], ◌∷◌, All}
use iaos.Memory.Frames.{
  MemoryRegion, init, nth_address, usable_frame, allocate_frame, allocate_global, allocated,
}
use iaos.Memory.Frames.Ascending.{AreAscending, IsUsableFrame, allocated-AreSafe}

-- Two usable regions around one that is reserved.
abbrev memory_map : List MemoryRegion
memory_map =
    record { start = 4096; end_at = 12288; is_usable = true }
    ∷ record { start = 12288; end_at = 20480; is_usable = false }
    ∷ record { start = 20480; end_at = 24576; is_usable = true }
    ∷ []

allocated_run : allocated 5 (some (init memory_map)) ≡ 4096 ∷ 8192 ∷ 20480 ∷ []
unfolding allocated allocate_global allocate_frame usable_frame nth_address
allocated_run = refl

allocated-AreSafe_example :
    AreAscending (allocated 5 (some (init memory_map)))
    × All (IsUsableFrame memory_map) (allocated 5 (some (init memory_map)))
allocated-AreSafe_example =
    allocated-AreSafe memory_map 5
      (
        omega arith,
        (omega arith, (omega arith, tt)),
        (omega arith, (omega arith, tt), (omega arith, tt, tt)),
      )
      ((refl, refl), ((refl, refl), ((refl, refl), tt)))
