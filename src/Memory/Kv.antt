-- ===== src/Memory/Kv.antt =====
-- agentos-kernel/src/memory/kv_allocator.rs: the blocks of the key-value cache.
-- The heap address of a block's data is not modelled; its contents are.
pub mod Invariant
pub mod Laws
mod Examples
use iaos.Prelude.{
  ℕ, zero, suc, ◌+◌, ◌-◌, ◌%◌, ◌^◌, Option, none, some, List, [], ◌∷◌, ltb, u32, u64, if◌then◌else◌,
  get_elem?, set, length, replicate, is_none, position,
}

abbrev pub kv_cache_page_size : ℕ
kv_cache_page_size = 4096

pub data KvCacheLocation : Type 0 where
  vram system_ram paged_disk : KvCacheLocation

pub record KvCacheBlock : Type 0 where
  pub block_id : ℕ
  pub pid : ℕ
  pub token_capacity : ℕ
  pub location : KvCacheLocation
  pub contents : List ℕ

-- `vec![0u8; n].into_boxed_slice()`
pub zeroed : ℕ → List ℕ
zeroed n = replicate n 0

unfoldable pub size_bytes : KvCacheBlock → ℕ
size_bytes b = length b.contents

pub record KvCacheMemoryManager : Type 0 where
  pub blocks : List (Option KvCacheBlock)
  pub allocated_count : ℕ

abbrev pub max_blocks : ℕ
max_blocks = 128

abbrev pub no_blocks : ℕ → List (Option KvCacheBlock)
no_blocks n = replicate n none

abbrev pub new : KvCacheMemoryManager
new = record { blocks = no_blocks max_blocks; allocated_count = 0 }

abbrev pub new_block : ℕ → ℕ → ℕ → KvCacheBlock
new_block idx pid tokens = record {
  block_id = u32 (idx + 1);
  pid = pid;
  token_capacity = tokens;
  location = system_ram;
  contents = zeroed kv_cache_page_size;
}

-- The heap has room for the block: the source panics where it has none.
unfoldable pub allocate_kv_block : ℕ → ℕ → KvCacheMemoryManager → KvCacheMemoryManager × Option ℕ
allocate_kv_block pid tokens m = elim (position is_none m.blocks) [
  | none ↦ (m, none)
  | some idx ↦ (
    record {
      blocks = set m.blocks idx (some (new_block idx pid tokens));
      allocated_count = u64 (m.allocated_count + 1);
    },
    some (u32 (idx + 1)),
  )
]

-- `self.blocks[idx].take()` and what follows; `-= 1` wraps in the release build.
unfoldable pub take_block :
    ℕ → Option (Option KvCacheBlock) → KvCacheMemoryManager → KvCacheMemoryManager × Option ℕ
take_block idx (some (some block)) m = (
  record { blocks = set m.blocks idx none; allocated_count = u64 (m.allocated_count + 2 ^ 64 - 1) },
  some block.pid,
)
take_block idx _ m = (m, none)

-- `checked_sub(1)?` turns the id 0 away.
unfoldable pub free_kv_block : ℕ → KvCacheMemoryManager → KvCacheMemoryManager × Option ℕ
unfolding take_block
free_kv_block zero m = (m, none)
free_kv_block (suc idx) m =
    if ltb idx (length m.blocks) then take_block idx (get_elem? m.blocks idx) m else (m, none)

abbrev pub get_allocated_count : KvCacheMemoryManager → ℕ
get_allocated_count m = m.allocated_count
