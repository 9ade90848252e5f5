-- ===== src/Memory/Kv/Invariant.antt =====
-- The invariant of the block table, and that allocating and freeing keep it.
use iaos.Prelude.{
  ℕ, zero, suc, ◌+◌, ◌-◌, ◌%◌, ◌^◌, ◌≤◌, ◌<◌, ◌≡◌, ◌≢◌, refl, ◌∙◌, inl, inr, Option, none, some,
  arith, get_elem?, set, length, length-set, length-replicate, get_elem?-lt, get_elem?-set_self,
  get_elem?-set_ne, count_some, count_some-le-length, count_some-fill, count_some-empty, is_none,
  position, FirstAt, position-FirstAt, position-eq-none, Option-cases, Bool-cases, ◌==◌, ltb,
}
use iaos.Memory.Kv.{
  KvCacheBlock, KvCacheMemoryManager, new, no_blocks, max_blocks, new_block, zeroed, size_bytes,
  kv_cache_page_size, allocate_kv_block, free_kv_block, take_block,
}

-- 128 slots, counted right; the block in slot i has the id i + 1 and a page of data.
pub record IsValid (m : KvCacheMemoryManager) : Type 0 where
  pub size : length m.blocks ≡ max_blocks
  pub counted : m.allocated_count ≡ count_some m.blocks
  pub ids :
      (i : ℕ) (b : KvCacheBlock)
      → get_elem? m.blocks i ≡ some (some b)
      → (b.block_id ≡ i + 1) × (size_bytes b ≡ kv_cache_page_size)

no_block : (n i : ℕ) (b : KvCacheBlock) → get_elem? (no_blocks n) i ≢ some (some b)
no_block zero i b e = cc
no_block (suc n) zero b e = cc
no_block (suc n) (suc i) b e = no_block n i b e

count-no_blocks : (n : ℕ) → count_some (no_blocks n) ≡ 0
unfolding count_some
count-no_blocks zero = refl
count-no_blocks (suc n) = count-no_blocks n

pub new-IsValid : IsValid new
new-IsValid = record {
  size = length-replicate {A = Option KvCacheBlock} 128 none;
  counted = omega (arith, count-no_blocks 128);
  ids = λ i b e. absurd (no_block 128 i b e);
}

pub count-le : {m : KvCacheMemoryManager} → IsValid m → m.allocated_count ≤ 128
count-le {m} v = omega (arith, v.size, v.counted, count_some-le-length m.blocks)

size-zeroed : (n : ℕ) → length (zeroed n) ≡ n
unfolding zeroed
size-zeroed n = length-replicate n 0

module _ (m : KvCacheMemoryManager) (v : IsValid m) where
  -- An empty slot is filled by the block that belongs there.
  fill-IsValid :
      (idx pid tokens : ℕ)
      → get_elem? m.blocks idx ≡ some none
      → IsValid (record {
        blocks = set m.blocks idx (some (new_block idx pid tokens));
        allocated_count = m.allocated_count + 1;
      })
  unfolding size_bytes
  fill-IsValid idx pid tokens empty = record {
    size = length-set m.blocks idx (some (new_block idx pid tokens)) ∙ v.size;
    counted =
        omega (arith, v.counted, count_some-fill m.blocks idx (new_block idx pid tokens) empty);
    ids = filled;
  }
    where
      within : idx < 128
      within = omega (arith, v.size, get_elem?-lt m.blocks idx none empty)

      filled :
          (i : ℕ) (b : KvCacheBlock)
          → get_elem? (set m.blocks idx (some (new_block idx pid tokens))) i ≡ some (some b)
          → (b.block_id ≡ i + 1) × (length b.contents ≡ kv_cache_page_size)
      filled i b e = elim (Bool-cases (idx == i)) [
        | inl t ↦
            let same : idx ≡ i = ground arith in
            let is_new : b ≡ new_block idx pid tokens = ground (
              arith,
              get_elem?-set_self m.blocks idx (some (new_block idx pid tokens))
                  (omega (arith, v.size, within)),
            ) in
            rw is_new (omega (arith, same, within), size-zeroed kv_cache_page_size)
        | inr f ↦
            v.ids i b
              (ground (arith, get_elem?-set_ne m.blocks idx i (some (new_block idx pid tokens))))
      ]

  empty-IsValid :
      (idx : ℕ) (block : KvCacheBlock)
      → get_elem? m.blocks idx ≡ some (some block)
      → IsValid (record { blocks = set m.blocks idx none; allocated_count = m.allocated_count - 1 })
  empty-IsValid idx block full = record {
    size = length-set m.blocks idx none ∙ v.size;
    counted = omega (arith, v.counted, count_some-empty m.blocks idx block full);
    ids = emptied;
  }
    where
      emptied :
          (i : ℕ) (b : KvCacheBlock)
          → get_elem? (set m.blocks idx none) i ≡ some (some b)
          → (b.block_id ≡ i + 1) × (size_bytes b ≡ kv_cache_page_size)
      emptied i b e = elim (Bool-cases (idx == i)) [
        | inl t ↦
            let same : idx ≡ i = ground arith in
            absurd (
              ground (
                arith,
                get_elem?-set_self m.blocks idx none (get_elem?-lt m.blocks idx (some block) full),
              ))
        | inr f ↦ v.ids i b (ground (arith, get_elem?-set_ne m.blocks idx i none))
      ]

  -- What `allocate_kv_block` does on a valid table.
  pub data Allocated (pid tokens : ℕ) (result : KvCacheMemoryManager × Option ℕ) : Type 0 where
    full :
        ((i : ℕ) → i < 128 → get_elem? m.blocks i ≢ some none)
        → result ≡ (m, none)
        → Allocated pid tokens result
    at_first :
        (idx : ℕ)
        → idx < 128
        → get_elem? m.blocks idx ≡ some none
        → ((i : ℕ) → i < idx → get_elem? m.blocks i ≢ some none)
        → result ≡ (
          record {
            blocks = set m.blocks idx (some (new_block idx pid tokens));
            allocated_count = m.allocated_count + 1;
          },
          some (idx + 1),
        )
        → Allocated pid tokens result

  pub allocate-Allocated : (pid tokens : ℕ) → Allocated pid tokens (allocate_kv_block pid tokens m)
  unfolding allocate_kv_block
  allocate-Allocated pid tokens = elim (Option-cases (position is_none m.blocks)) [
    | inl e ↦
        full (λ i lt g. cc (position-eq-none is_none m.blocks i none e g))
          (rw (e, allocate_kv_block))
    | inr (idx, e) ↦ found idx e (position-FirstAt is_none m.blocks idx e)
  ]
    where
      found :
          (idx : ℕ)
          → position is_none m.blocks ≡ some idx
          → FirstAt is_none m.blocks idx
          → Allocated pid tokens (allocate_kv_block pid tokens m)
      found idx e r =
          let empty : get_elem? m.blocks idx ≡ some none = ground (arith, r.at, r.passes) in
          let within : idx < 128 = omega (arith, v.size, get_elem?-lt m.blocks idx none empty) in
          let count : (m.allocated_count + 1) % 2 ^ 64 ≡ m.allocated_count + 1 =
            omega (arith, count-le v) in
          let id : (idx + 1) % 2 ^ 32 ≡ idx + 1 = omega arith in
          at_first idx within empty (λ i lt g. cc (r.before i none lt g))
            (rw (e, allocate_kv_block, count, id))

  pub allocate-IsValid : (pid tokens : ℕ) → IsValid (allocate_kv_block pid tokens m).0
  allocate-IsValid pid tokens =
      by_case (allocate_kv_block pid tokens m) (allocate-Allocated pid tokens)
    where
      by_case : (r : KvCacheMemoryManager × Option ℕ) → Allocated pid tokens r → IsValid r.0
      by_case r (full none_free e) = rw e v
      by_case r (at_first idx lt empty earlier e) = rw e (fill-IsValid idx pid tokens empty)

  -- What `free_kv_block` does on a valid table.
  pub data Freed (id : ℕ) (result : KvCacheMemoryManager × Option ℕ) : Type 0 where
    unknown :
        ((i : ℕ) (b : KvCacheBlock) → id ≡ i + 1 → get_elem? m.blocks i ≢ some (some b))
        → result ≡ (m, none)
        → Freed id result
    freed :
        (idx : ℕ) (block : KvCacheBlock)
        → id ≡ idx + 1
        → get_elem? m.blocks idx ≡ some (some block)
        → result ≡ (
          record { blocks = set m.blocks idx none; allocated_count = m.allocated_count - 1 },
          some block.pid,
        )
        → Freed id result

  take-Freed :
      (idx : ℕ) (slot : Option (Option KvCacheBlock))
      → get_elem? m.blocks idx ≡ slot
      → Freed (suc idx) (take_block idx slot m)
  unfolding take_block
  take-Freed idx (some (some block)) e =
      let count : (m.allocated_count + 2 ^ 64 - 1) % 2 ^ 64 ≡ m.allocated_count - 1 =
        omega (arith, v.counted, count-le v, count_some-empty m.blocks idx block e) in
      freed idx block (omega arith) e (rw count)
  take-Freed idx (some none) e = unknown (λ i b at g. ground arith) refl
  take-Freed idx none e = unknown (λ i b at g. ground arith) refl

  pub free-Freed : (id : ℕ) → Freed id (free_kv_block id m)
  unfolding free_kv_block
  free-Freed zero = unknown (λ i b at g. absurd (omega arith)) refl
  free-Freed (suc idx) = elim (Bool-cases (ltb idx (length m.blocks))) [
    | inl t ↦ rw (t, free_kv_block) (take-Freed idx (get_elem? m.blocks idx) refl)
    | inr f ↦
        unknown (λ i b at g. absurd (ground (arith, get_elem?-lt m.blocks i (some b) g)))
          (rw (f, free_kv_block))
  ]

  pub free-IsValid : (id : ℕ) → IsValid (free_kv_block id m).0
  free-IsValid id = by_case (free_kv_block id m) (free-Freed id)
    where
      by_case : (r : KvCacheMemoryManager × Option ℕ) → Freed id r → IsValid r.0
      by_case r (unknown n e) = rw e v
      by_case r (freed idx block at held e) = rw e (empty-IsValid idx block held)
