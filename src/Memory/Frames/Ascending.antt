-- ===== src/Memory/Frames/Ascending.antt =====
-- The frames handed out are ascending, so that none is handed out twice, and usable.
use mathlib.Core.Option.{some-injective}
use iaos.Prelude.{
  ℕ, zero, suc, ◌+◌, ◌-◌, ◌*◌, ◌/◌, ◌%◌, ◌≤◌, ◌<◌, ◌≡◌, refl, sym, ◌⊎◌, inl, inr, arith, true,
  Option, none, some, Option-cases, List, [], ◌∷◌, ltb, ltb→lt, Bool-cases, All,
}
use iaos.Memory.Frames.{
  MemoryRegion, BootInfoFrameAllocator, init, addresses, nth_address, usable_frame, allocate_frame,
  allocate_global, allocated,
}

-- A memory map in ascending order, whose regions do not overlap.
abbrev pub AreOrdered : List MemoryRegion → Type 0
AreOrdered [] = Unit
AreOrdered (r ∷ rs) =
    (MemoryRegion.start r ≤ MemoryRegion.end_at r)
    × All (λ q. MemoryRegion.end_at r ≤ MemoryRegion.start q) rs
    × AreOrdered rs

-- Page-aligned regions.
abbrev pub AreAligned : List MemoryRegion → Type 0
AreAligned rs = All (λ r. (MemoryRegion.start r % 4096 ≡ 0) × (MemoryRegion.end_at r % 4096 ≡ 0)) rs

-- A frame inside a usable region.
abbrev pub IsUsableFrame : List MemoryRegion → ℕ → Type 0
IsUsableFrame [] f = ⊥
IsUsableFrame (r ∷ rs) f =
    ((MemoryRegion.is_usable r ≡ true)
      × (MemoryRegion.start r ≤ f)
      × (f + 4096 ≤ MemoryRegion.end_at r))
    ⊎ IsUsableFrame rs f

-- Frames that do not overlap, in ascending order.
abbrev pub AreAscending : List ℕ → Type 0
AreAscending [] = Unit
AreAscending (f ∷ fs) = All (λ g. f + 4096 ≤ g) fs × AreAscending fs

nth_address-cases :
    (r : MemoryRegion) (rs : List MemoryRegion) (k a : ℕ)
    → nth_address (r ∷ rs) k ≡ some a
    → ((k < addresses r) × (a ≡ r.start + k))
      ⊎ ((addresses r ≤ k) × (nth_address rs (k - addresses r) ≡ some a))
unfolding nth_address
nth_address-cases r rs k a h = elim (Bool-cases (ltb k (addresses r))) [
  | inl e ↦
      inl
        (ltb→lt k (addresses r) e, some-injective a (r.start + k) (sym (rw (nth_address, e) at h)))
  | inr e ↦ inr (ground arith, rw (nth_address, e) at h)
]

addresses-le : (r : MemoryRegion) → r.start ≤ r.end_at → r.start + addresses r ≤ r.end_at
addresses-le r h = elim (Bool-cases r.is_usable) [
  | inl e ↦ rw e (omega arith)
  | inr e ↦ rw e (omega arith)
]

nth_address-low :
    (rs : List MemoryRegion) (low k a : ℕ)
    → AreOrdered rs
    → All (λ q. low ≤ MemoryRegion.start q) rs
    → nth_address rs k ≡ some a
    → low + k ≤ a
unfolding nth_address
nth_address-low [] low k a o l h = absurd (cc h)
nth_address-low (r ∷ rs) low k a o l h =
    let start = l.0 in
    elim (nth_address-cases r rs k a h) [
      | inl x ↦ omega (arith, x.1)
      | inr x ↦
          let later = nth_address-low rs r.end_at (k - addresses r) a o.2 o.1 x.1 in
          omega (arith, later, x.0, addresses-le r o.0)
    ]

-- Addresses are as far apart as their positions, at least.
nth_address-apart :
    (rs : List MemoryRegion) (k m a b : ℕ)
    → AreOrdered rs
    → nth_address rs k ≡ some a
    → nth_address rs m ≡ some b
    → k ≤ m
    → a + (m - k) ≤ b
unfolding nth_address
nth_address-apart [] k m a b o h g le = absurd (cc h)
nth_address-apart (r ∷ rs) k m a b o h g le = elim (nth_address-cases r rs k a h) [
  | inl x ↦ elim (nth_address-cases r rs m b g) [
    | inl y ↦ omega (arith, x.1, y.1)
    | inr y ↦
        let later = nth_address-low rs r.end_at (m - addresses r) b o.2 o.1 y.1 in
        omega (arith, x.0, x.1, y.0, later, addresses-le r o.0)
  ]
  | inr x ↦ elim (nth_address-cases r rs m b g) [
    | inl y ↦ absurd (omega (arith, x.0, y.0))
    | inr y ↦
        let later =
          nth_address-apart rs (k - addresses r) (m - addresses r) a b o.2 x.1 y.1 (omega arith) in
        omega (arith, later, x.0, y.0)
  ]
]

-- The frame around a usable address is usable.
nth_address-IsUsableFrame :
    (rs : List MemoryRegion) (k a : ℕ)
    → AreOrdered rs
    → AreAligned rs
    → nth_address rs k ≡ some a
    → IsUsableFrame rs (a / 4096 * 4096)
unfolding nth_address
nth_address-IsUsableFrame [] k a o l h = cc h
nth_address-IsUsableFrame (r ∷ rs) k a o l h = elim (nth_address-cases r rs k a h) [
  | inl x ↦
      let start = l.0.0 in
      let end_at = l.0.1 in
      elim (Bool-cases r.is_usable) [
        | inl e ↦
            let below : k < r.end_at - r.start = rw e at x.0 in
            inl (e, omega (arith, x.1), omega (arith, x.1))
        | inr e ↦ let below : k < 0 = rw e at x.0 in absurd (omega arith)
      ]
  | inr x ↦ inr (nth_address-IsUsableFrame rs (k - addresses r) a o.2 l.1 x.1)
]

usable_frame-cases :
    (rs : List MemoryRegion) (n f : ℕ)
    → usable_frame rs n ≡ some f
    → (a : ℕ) × (nth_address rs (n * 4096) ≡ some a) × (f ≡ a / 4096 * 4096)
unfolding usable_frame
usable_frame-cases rs n f h = elim (Option-cases (nth_address rs (n * 4096))) [
  | inl e ↦ absurd (cc (rw (usable_frame, e) at h))
  | inr (a, e) ↦ (a, e, sym (some-injective (a / 4096 * 4096) f (rw (usable_frame, e) at h)))
]

module _ (rs : List MemoryRegion) (o : AreOrdered rs) where
  usable_frame-apart :
      (n m f g : ℕ) → usable_frame rs n ≡ some f → usable_frame rs m ≡ some g → n < m → f + 4096 ≤ g
  usable_frame-apart n m f g h k lt =
      let x = usable_frame-cases rs n f h in
      let y = usable_frame-cases rs m g k in
      let apart = nth_address-apart rs (n * 4096) (m * 4096) x.0 y.0 o x.1 y.1 (omega arith) in
      omega (arith, x.2, y.2, apart)

  abbrev at_frame : ℕ → Option BootInfoFrameAllocator
  at_frame n = some (record { memory_regions = rs; next = n })

  allocated-none :
      (count n : ℕ) → usable_frame rs n ≡ none → allocated (suc count) (at_frame n) ≡ []
  unfolding allocated allocate_global allocate_frame
  allocated-none count n e = rw (e, allocated, allocate_global, allocate_frame) refl

  allocated-some :
      (count n f : ℕ)
      → usable_frame rs n ≡ some f
      → allocated (suc count) (at_frame n) ≡ f ∷ allocated count (at_frame (n + 1))
  unfolding allocated allocate_global allocate_frame
  allocated-some count n f e = rw (e, allocated, allocate_global, allocate_frame) refl

  -- The frames still to come are behind one that was handed out.
  allocated-behind :
      (count n m f : ℕ)
      → usable_frame rs n ≡ some f
      → n < m
      → All (λ g. f + 4096 ≤ g) (allocated count (at_frame m))
  unfolding allocated
  allocated-behind zero n m f h lt = tt
  allocated-behind (suc count) n m f h lt = elim (Option-cases (usable_frame rs m)) [
    | inl e ↦ rw (allocated-none count m e) tt
    | inr (g, e) ↦
        rw (allocated-some count m g e)
          (usable_frame-apart n m f g h e lt, allocated-behind count n (m + 1) f h (omega arith))
  ]

  -- However many frames are requested, those handed out are ascending and do not overlap.
  pub allocated-AreAscending : (count n : ℕ) → AreAscending (allocated count (at_frame n))
  unfolding allocated
  allocated-AreAscending zero n = tt
  allocated-AreAscending (suc count) n = elim (Option-cases (usable_frame rs n)) [
    | inl e ↦ rw (allocated-none count n e) tt
    | inr (f, e) ↦
        rw (allocated-some count n f e)
          (allocated-behind count n (n + 1) f e (omega arith), allocated-AreAscending count (n + 1))
  ]

  -- Each frame lies in a usable region, where the regions are page-aligned.
  pub allocated-IsUsableFrame :
      (count n : ℕ) → AreAligned rs → All (IsUsableFrame rs) (allocated count (at_frame n))
  unfolding allocated
  allocated-IsUsableFrame zero n l = tt
  allocated-IsUsableFrame (suc count) n l = elim (Option-cases (usable_frame rs n)) [
    | inl e ↦ rw (allocated-none count n e) tt
    | inr (f, e) ↦
        let x = usable_frame-cases rs n f e in
        rw (allocated-some count n f e) (
          rw x.2 (nth_address-IsUsableFrame rs (n * 4096) x.0 o l x.1),
          allocated-IsUsableFrame count (n + 1) l,
        )
  ]

-- Of a memory map whose regions are page-aligned, in ascending order and do not overlap, any
-- number of requests hands out frames that do not overlap, each inside a usable region.
pub allocated-AreSafe :
    (rs : List MemoryRegion) (count : ℕ)
    → AreOrdered rs
    → AreAligned rs
    → AreAscending (allocated count (some (init rs)))
      × All (IsUsableFrame rs) (allocated count (some (init rs)))
allocated-AreSafe rs count o l =
    (allocated-AreAscending rs o count 0, allocated-IsUsableFrame rs o count 0 l)
