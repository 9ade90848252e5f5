-- ===== src/Memory/Paging/Range.antt =====
-- A range passes exactly when the page of each of its bytes does.
use iaos.Prelude.{
  ℕ, zero, suc, ◌+◌, ◌-◌, ◌*◌, ◌/◌, ◌^◌, ◌≤◌, ◌<◌, ◌≡◌, refl, ◌↔◌, ◌⊎◌, inl, inr, true, false,
  arith, ltb, ◌==◌, Bool-cases, lt→ltb,
}
use iaos.Memory.Paging.{Mapper, Required, page_size, pointer_has_flags, all_pages, range_has_flags}

module _ (m : Mapper) (required : Required) where
  all_pages_sound :
      (count page k : ℕ)
      → all_pages m count page required ≡ true
      → page ≤ k
      → k < page + count
      → pointer_has_flags m (k * page_size) required ≡ true
  unfolding all_pages
  all_pages_sound zero page k h a b = absurd (omega arith)
  all_pages_sound (suc count) page k h a b =
      elim (Bool-cases (pointer_has_flags m (page * page_size) required)) [
        | inr e ↦ cc
        | inl e ↦ elim (Bool-cases (k == page)) [
          | inl s ↦ let same : k ≡ page = ground arith in rw same e
          | inr d ↦
              all_pages_sound count (page + 1) k (rw (e, all_pages) at h) (ground arith)
                (omega arith)
        ]
      ]

  all_pages_complete :
      (count page : ℕ)
      → ((k : ℕ)
          → page ≤ k
          → k < page + count
          → pointer_has_flags m (k * page_size) required ≡ true)
      → all_pages m count page required ≡ true
  unfolding all_pages
  all_pages_complete zero page h = refl
  all_pages_complete (suc count) page h =
      rw (h page (omega arith) (omega arith), all_pages)
        (all_pages_complete count (page + 1) λ k a b. h k (omega arith) (omega arith))

  -- Every byte of the range lies below 2 ^ 64 and on a page with the flags.
  pub record Covered (addr len_bytes : ℕ) : Type 0 where
    pub below : addr + len_bytes ≤ 2 ^ 64
    pub page :
        (a : ℕ)
        → addr ≤ a
        → a < addr + len_bytes
        → pointer_has_flags m (a / page_size * page_size) required ≡ true

  -- The check passes exactly when the range is empty, or every byte of it lies below 2 ^ 64 on a
  -- page with the required flags.
  pub range_has_flags_iff :
      (addr len_bytes : ℕ)
      → (range_has_flags m addr len_bytes required ≡ true)
        ↔ ((len_bytes ≡ 0) ⊎ Covered addr len_bytes)
  unfolding range_has_flags
  range_has_flags_iff addr zero = (λ h. inl refl, λ h. refl)
  range_has_flags_iff addr (suc n) = (there, back)
    where
      nonzero : (suc n == 0) ≡ false
      nonzero = ground arith

      there : range_has_flags m addr (suc n) required ≡ true → (suc n ≡ 0) ⊎ Covered addr (suc n)
      there h = elim (Bool-cases (ltb (addr + (suc n - 1)) (2 ^ 64))) [
        | inr e ↦ cc (rw (nonzero, e) at h)
        | inl e ↦ inr (record {
          below = ground arith;
          page = λ a p q.
              all_pages_sound ((addr + (suc n - 1)) / page_size - addr / page_size + 1)
                (addr / page_size) (a / page_size) (rw (nonzero, e) at h) (omega arith)
                (omega arith);
        })
      ]

      back : (suc n ≡ 0) ⊎ Covered addr (suc n) → range_has_flags m addr (suc n) required ≡ true
      back (inl e) = absurd (omega arith)
      back (inr c) =
          rw (nonzero, lt→ltb (addr + (suc n - 1)) (2 ^ 64) (omega (arith, c.below)))
            (all_pages_complete ((addr + (suc n - 1)) / page_size - addr / page_size + 1)
              (addr / page_size) covered_page)
        where
          covered_page :
              (k : ℕ)
              → addr / page_size ≤ k
              → k < addr / page_size + ((addr + (suc n - 1)) / page_size - addr / page_size + 1)
              → pointer_has_flags m (k * page_size) required ≡ true
          covered_page k a b = elim (Bool-cases (k == addr / page_size)) [
            | inl s ↦
                let same : k ≡ addr / page_size = ground arith in
                rw same (c.page addr (omega arith) (omega arith))
            | inr d ↦
                let starts : k * page_size / page_size ≡ k = omega arith in
                let later : addr / page_size < k = ground arith in
                rw starts at (c.page (k * page_size) (omega arith) (omega arith))
          ]
