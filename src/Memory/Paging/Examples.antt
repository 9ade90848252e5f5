-- ===== src/Memory/Paging/Examples.antt =====
-- A page table with two mapped pages, of which ring 3 may touch one.
use iaos.Prelude.{ℕ, ◌≡◌, refl, ◌↔◌, ◌⊎◌, true, false, none, some, ltb, ◌==◌, if◌then◌else◌}
use iaos.Memory.Paging.{
  Mapper, present_only, range_has_flags, range_is_mapped, range_is_user_accessible, all_pages,
  pointer_has_flags,
}
use iaos.Memory.Paging.Range.{Covered, range_has_flags_iff}

abbrev two_pages : Mapper
two_pages = record {
  canonical = λ a. ltb a 140737488355328;
  translate = λ a.
      if a == 4096
      then some (record { present = true; user_accessible = true })
      else if a == 8192
      then some (record { present = true; user_accessible = false })
      else none;
}

range_has_flags_iff_example :
    (range_has_flags two_pages 5000 3000 present_only ≡ true)
    ↔ (◌≡◌ {A = ℕ} 3000 0 ⊎ Covered two_pages present_only 5000 3000)
range_has_flags_iff_example = range_has_flags_iff two_pages present_only 5000 3000

mapped_run : range_is_mapped two_pages 5000 4000 ≡ true
unfolding range_has_flags all_pages pointer_has_flags
mapped_run = refl

user_run : range_is_user_accessible two_pages 5000 4000 ≡ false
unfolding range_has_flags all_pages pointer_has_flags
user_run = refl
