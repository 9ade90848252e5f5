-- ===== src/Memory/Paging.antt =====
-- agentos-kernel/src/memory/paging.rs: the checks on an address range before it is dereferenced.
-- The page tables and `VirtAddr::try_new` belong to the `x86_64` crate: a `Mapper` is a parameter.
pub mod Range
mod Examples
use iaos.Prelude.{
  ℕ, zero, suc, ◌+◌, ◌-◌, ◌*◌, ◌/◌, ◌^◌, Bool, true, false, ◌&&◌, Option, none, some, ltb, ◌==◌,
  if◌then◌else◌,
}

pub record PageFlags : Type 0 where
  pub present : Bool
  pub user_accessible : Bool

-- `canonical` is the success of `VirtAddr::try_new`, `translate` the flags of a mapped page.
pub record Mapper : Type 0 where
  pub canonical : ℕ → Bool
  pub translate : ℕ → Option PageFlags

-- `PRESENT`, or `PRESENT | USER_ACCESSIBLE`.
pub data Required : Type 0 where
  present_only present_and_user : Required

-- `flags.contains(required)`
abbrev pub contains : PageFlags → Required → Bool
contains flags present_only = flags.present
contains flags present_and_user = flags.present && flags.user_accessible

abbrev pub page_size : ℕ
page_size = 4096

module _ (m : Mapper) where
  -- Once the page tables are set up: before, the source panics.
  unfoldable pub pointer_has_flags : ℕ → Required → Bool
  pointer_has_flags addr required =
      if addr == 0
      then false
      else if m.canonical addr
      then elim (m.translate addr) [ none ↦ false | some flags ↦ contains flags required ]
      else false

  -- `(page..page + count).all(…)`
  unfoldable pub all_pages : ℕ → ℕ → Required → Bool
  all_pages zero page required = true
  all_pages (suc count) page required = elim (pointer_has_flags (page * page_size) required) [
    | true ↦ all_pages count (page + 1) required
    | false ↦ false
  ]

  -- The pages from that of `addr` to that of `last_byte`.
  abbrev pub pages_between : ℕ → ℕ → Required → Bool
  pages_between addr last_byte required =
      all_pages (last_byte / page_size - addr / page_size + 1) (addr / page_size) required

  -- `checked_add` fails from 2 ^ 64 on.
  unfoldable pub range_has_flags : ℕ → ℕ → Required → Bool
  range_has_flags addr len_bytes required =
      if len_bytes == 0
      then true
      else if ltb (addr + (len_bytes - 1)) (2 ^ 64)
      then pages_between addr (addr + (len_bytes - 1)) required
      else false

  abbrev pub range_is_mapped : ℕ → ℕ → Bool
  range_is_mapped addr len_bytes = range_has_flags addr len_bytes present_only

  abbrev pub range_is_user_accessible : ℕ → ℕ → Bool
  range_is_user_accessible addr len_bytes = range_has_flags addr len_bytes present_and_user
