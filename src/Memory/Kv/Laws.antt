-- ===== src/Memory/Kv/Laws.antt =====
-- The block table as a map from block ids to owning pids.
use iaos.Prelude.{
  ℕ, zero, suc, ◌+◌, ◌-◌, ◌≤◌, ◌<◌, ◌≡◌, ◌≢◌, refl, ◌⊎◌, inl, inr, Option, none, some, arith,
  get_elem?, set, get_elem?-lt, get_elem?-set_self, get_elem?-set_ne, length-le_of_none, sym, ◌==◌,
  if◌then◌else◌,
}
use iaos.Memory.Kv.{KvCacheBlock, KvCacheMemoryManager, new_block, allocate_kv_block, free_kv_block}
use iaos.Memory.Kv.Invariant.{
  IsValid, Allocated, full, at_first, allocate-Allocated, Freed, unknown, freed, free-Freed,
}

abbrev slot_owner : Option (Option KvCacheBlock) → Option ℕ
slot_owner (some (some block)) = some block.pid
slot_owner _ = none

-- The pid that owns the block of an id. Ids start at 1.
unfoldable pub owner : ℕ → KvCacheMemoryManager → Option ℕ
owner zero m = none
owner (suc i) m = slot_owner (get_elem? m.blocks i)

module _ (m : KvCacheMemoryManager) (v : IsValid m) where
  -- `free_kv_block` returns the owner of the block, or nothing for an id that has none; afterwards
  -- that id has no owner and every other id has the owner that it had.
  pub free_lem :
      (id : ℕ)
      → ((free_kv_block id m).1 ≡ owner id m)
        × ((j : ℕ) → owner j (free_kv_block id m).0 ≡ (if id == j then none else owner j m))
  unfolding owner
  free_lem id = by_case (free_kv_block id m) (free-Freed m v id)
    where
      nothing_lost :
          ((i : ℕ) (b : KvCacheBlock) → id ≡ i + 1 → get_elem? m.blocks i ≢ some (some b))
          → (j : ℕ) → id ≡ j
          → owner j m ≡ none
      nothing_lost n zero e = refl
      nothing_lost n (suc j) e = slot_case (get_elem? m.blocks j) (λ b g. n j b (omega arith) g)
        where
          slot_case :
              (o : Option (Option KvCacheBlock))
              → ((b : KvCacheBlock) → o ≢ some (some b))
              → slot_owner o ≡ none
          slot_case (some (some b)) h = absurd (h b refl)
          slot_case (some none) h = refl
          slot_case none h = refl

      after_free :
          (idx : ℕ) (block : KvCacheBlock) (j count : ℕ)
          → get_elem? m.blocks idx ≡ some (some block)
          → owner j (record { blocks = set m.blocks idx none; allocated_count = count })
            ≡ (if suc idx == j then none else owner j m)
      after_free idx block zero count e = ground arith
      after_free idx block (suc j) count e = ground (
        arith,
        get_elem?-set_self m.blocks idx none (get_elem?-lt m.blocks idx (some block) e),
        get_elem?-set_ne m.blocks idx j none,
      )

      by_case :
          (r : KvCacheMemoryManager × Option ℕ)
          → Freed m v id r
          → (r.1 ≡ owner id m) × ((j : ℕ) → owner j r.0 ≡ (if id == j then none else owner j m))
      by_case r (unknown n e) =
          let gone : owner id m ≡ none = nothing_lost n id refl in
          rw e (sym gone, λ j. ground (arith, nothing_lost n j))
      by_case r (freed idx block at held e) =
          let at' : id ≡ suc idx = omega arith in
          rw (e, at') (ground arith, λ j. after_free idx block j (m.allocated_count - 1) held)

  -- What `allocate_kv_block` does when a block is free.
  pub record GotBlock (pid id : ℕ) (r : KvCacheMemoryManager × Option ℕ) : Type 0 where
    pub returned : r.1 ≡ some id
    pub in_range : (1 ≤ id) × (id ≤ 128)
    pub was_free : owner id m ≡ none
    pub lowest : (j : ℕ) → 1 ≤ j → j < id → owner j m ≢ none
    pub owners : (j : ℕ) → owner j r.0 ≡ (if id == j then some pid else owner j m)

  -- `allocate_kv_block` returns the lowest id without an owner, which gets the caller's pid as its
  -- owner while every other id keeps its owner; or all 128 ids have owners and it changes nothing.
  pub allocate_lem :
      (pid tokens : ℕ)
      → (((j : ℕ) → 1 ≤ j → j ≤ 128 → owner j m ≢ none)
          × (allocate_kv_block pid tokens m ≡ (m, none)))
        ⊎ ((id : ℕ) × GotBlock pid id (allocate_kv_block pid tokens m))
  unfolding owner
  allocate_lem pid tokens =
      by_case (allocate_kv_block pid tokens m) (allocate-Allocated m v pid tokens)
    where
      owned : (i : ℕ) → i < 128 → get_elem? m.blocks i ≢ some none → owner (suc i) m ≢ none
      owned i lt ne o = slot_case (get_elem? m.blocks i) refl
        where
          slot_case : (s : Option (Option KvCacheBlock)) → get_elem? m.blocks i ≡ s → ⊥
          slot_case (some (some b)) e = cc
          slot_case (some none) e = ne e
          slot_case none e = omega (arith, v.size, length-le_of_none m.blocks i e)

      after :
          (idx : ℕ) (j count : ℕ)
          → get_elem? m.blocks idx ≡ some none
          → owner j (record {
            blocks = set m.blocks idx (some (new_block idx pid tokens));
            allocated_count = count;
          })
            ≡ (if idx + 1 == j then some pid else owner j m)
      after idx zero count e = ground arith
      after idx (suc j) count e = ground (
        arith,
        get_elem?-set_self m.blocks idx (some (new_block idx pid tokens))
            (get_elem?-lt m.blocks idx none e),
        get_elem?-set_ne m.blocks idx j (some (new_block idx pid tokens)),
      )

      by_case :
          (r : KvCacheMemoryManager × Option ℕ)
          → Allocated m v pid tokens r
          → (((j : ℕ) → 1 ≤ j → j ≤ 128 → owner j m ≢ none) × (r ≡ (m, none)))
            ⊎ ((id : ℕ) × GotBlock pid id r)
      by_case r (full none_free e) = inl (all_owned, e)
        where
          all_owned : (j : ℕ) → 1 ≤ j → j ≤ 128 → owner j m ≢ none
          all_owned zero a b = absurd (omega arith)
          all_owned (suc j) a b = owned j (omega arith) (none_free j (omega arith))
      by_case r (at_first idx lt empty earlier e) = inr (idx + 1, got)
        where
          id_suc : idx + 1 ≡ suc idx
          id_suc = omega arith

          below : (j : ℕ) → 1 ≤ j → j < idx + 1 → owner j m ≢ none
          below zero a b = absurd (omega arith)
          below (suc j) a b = owned j (omega arith) (earlier j (omega arith))

          got : GotBlock pid (idx + 1) r
          got = rw e (record {
            returned = refl;
            in_range = omega arith;
            was_free = rw (id_suc, owner) (rw empty);
            lowest = below;
            owners = λ j. after idx j (m.allocated_count + 1) empty;
          })
