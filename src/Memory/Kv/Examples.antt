-- ===== src/Memory/Kv/Examples.antt =====
-- The theorems on the block table at a table with two blocks, and a run that reuses an id.
use iaos.Prelude.{ℕ, ◌≤◌, ◌≡◌, ◌≢◌, refl, ◌⊎◌, none, some, ◌==◌, if◌then◌else◌, position}
use iaos.Memory.Kv.{KvCacheMemoryManager, new, allocate_kv_block, free_kv_block}
use iaos.Memory.Kv.Invariant.{IsValid, new-IsValid, allocate-IsValid}
use iaos.Memory.Kv.Laws.{owner, free_lem, GotBlock, allocate_lem}

abbrev one : KvCacheMemoryManager
one = (allocate_kv_block 7 512 new).0

abbrev two : KvCacheMemoryManager
two = (allocate_kv_block 9 256 one).0

-- The id of a freed block is given out again.
id_reused : (allocate_kv_block 5 64 (free_kv_block 1 two).0).1 ≡ some 1
unfolding allocate_kv_block free_kv_block position
id_reused = refl

two-IsValid : IsValid two
two-IsValid = allocate-IsValid one (allocate-IsValid new new-IsValid 7 512) 9 256

free_lem_example :
    ((free_kv_block 1 two).1 ≡ owner 1 two)
    × ((j : ℕ) → owner j (free_kv_block 1 two).0 ≡ (if 1 == j then none else owner j two))
free_lem_example = free_lem two two-IsValid 1

allocate_lem_example :
    (((j : ℕ) → 1 ≤ j → j ≤ 128 → owner j two ≢ none) × (allocate_kv_block 5 64 two ≡ (two, none)))
    ⊎ ((id : ℕ) × GotBlock two two-IsValid 5 id (allocate_kv_block 5 64 two))
allocate_lem_example = allocate_lem two two-IsValid 5 64
