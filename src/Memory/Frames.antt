-- ===== src/Memory/Frames.antt =====
-- agentos-kernel/src/memory/frame_allocator.rs: physical frames from the bootloader's memory map.
-- A region's kind is the test `r.kind == MemoryRegionKind::Usable`; a frame is its first address.
pub mod Ascending
mod Examples
use iaos.Prelude.{
  ℕ, zero, suc, ◌+◌, ◌-◌, ◌*◌, ◌/◌, Bool, true, false, Option, none, some, List, [], ◌∷◌, ltb,
  if◌then◌else◌,
}

pub record MemoryRegion : Type 0 where
  pub start : ℕ
  pub end_at : ℕ
  pub is_usable : Bool

pub record BootInfoFrameAllocator : Type 0 where
  pub memory_regions : List MemoryRegion
  pub next : ℕ

abbrev pub init : List MemoryRegion → BootInfoFrameAllocator
init memory_regions = record { memory_regions = memory_regions; next = 0 }

-- How many addresses a region adds.
abbrev pub addresses : MemoryRegion → ℕ
addresses r = if r.is_usable then r.end_at - r.start else 0

-- The k-th address of `flat_map(|r| r.start..r.end)` over the usable regions.
unfoldable pub nth_address : List MemoryRegion → ℕ → Option ℕ
nth_address [] k = none
nth_address (r ∷ rs) k =
    let rest = nth_address rs (k - addresses r) in
    if ltb k (addresses r) then some (r.start + k) else rest

-- `PhysFrame::containing_address`
abbrev pub containing_address : Option ℕ → Option ℕ
containing_address none = none
containing_address (some addr) = some (addr / 4096 * 4096)

-- `step_by(4096)`, mapped to frames, and its `nth`. Addresses are below 2 ^ 52, as those of real memory: the
-- source panics above.
unfoldable pub usable_frame : List MemoryRegion → ℕ → Option ℕ
usable_frame regions n = containing_address (nth_address regions (n * 4096))

unfoldable pub allocate_frame : BootInfoFrameAllocator → Option ℕ × BootInfoFrameAllocator
allocate_frame a = (usable_frame a.memory_regions a.next, record a { next = a.next + 1 })

-- The global slot; `none` for the frame is a panic.
unfoldable pub allocate_global :
    Option BootInfoFrameAllocator → Option ℕ × Option BootInfoFrameAllocator
allocate_global none = (none, none)
allocate_global (some a) = let (frame, a') = allocate_frame a in (frame, some a')

-- What `count` requests of the global allocator return, as far as they succeed.
unfoldable pub allocated : ℕ → Option BootInfoFrameAllocator → List ℕ
allocated zero slot = []
allocated (suc count) slot =
    let (frame, slot') = allocate_global slot in
    let rest = allocated count slot' in elim frame [ none ↦ [] | some f ↦ f ∷ rest ]
