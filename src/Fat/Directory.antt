-- ===== src/Fat/Directory.antt =====
-- agentos-kernel/src/fat12.rs: directories of a volume: their sectors, the search for an entry, for free
-- slots and for the names in use, and the growth of a subdirectory. The fuel bounds the clusters of a
-- directory's chain.
pub mod Listing
use iaos.Prelude.{
  ℕ, zero, suc, ◌+◌, ◌-◌, ◌*◌, ◌/◌, ◌%◌, Bool, true, false, not, ◌&&◌, ◌||◌, Option, none, some,
  List, [], ◌∷◌, ◌++◌, length, byte, set, take, drop, replicate, all, ltb, leb, ◌==◌, if◌then◌else◌,
  bit_and, u16, u32, Result, ok, err, ◌>>=◌,
}
use iaos.Fat.Common.{
  DirEntry, LfnState, default, reset, push_long_entry, short_entry_if_matches, kind_of, end_marker,
  deleted, long_entry, volume_label, short_entry, parse_dir_sector,
}
use iaos.Fat.Entries.{to_short_name, is_valid_lfn_char, max_lfn_chars, build_name_entries}
use iaos.Fat.Table.{
  Fat12Info, Ata, FatError, still_running, not_found, name_rejected, directory_full, too_many_slots,
  first_root_dir_sector, root_dir_sectors, cluster_to_lba, next_cluster, find_free_clusters,
  write_fat_entry_to_disk,
}
use iaos.Fat.Chain.{driver}

pub data DirLocation : Type 0 where
  root : DirLocation
  in_cluster : ℕ → DirLocation

-- A slot's sector and the offset in it.
abbrev pub Slot : Type 0
Slot = ℕ × ℕ

abbrev pub same_slot : Slot → Slot → Bool
same_slot a b = a.0 == b.0 && a.1 == b.1

-- `n` sectors from `lba` on.
abbrev pub sectors_from : ℕ → ℕ → List ℕ
sectors_from lba zero = []
sectors_from lba (suc n) = u32 lba ∷ sectors_from (lba + 1) n

-- `as_chunks::<32>()`, of `n` entries.
abbrev pub chunks_of : ℕ → List ℕ → List (List ℕ)
chunks_of zero buf = []
chunks_of (suc n) buf = take 32 buf ∷ chunks_of n (drop 32 buf)

unfoldable pub raw_entries : List ℕ → List (List ℕ)
raw_entries buf = chunks_of 16 buf

-- The walk of a subdirectory's chain.
unfoldable pub chain_sectors : ℕ → Fat12Info → Option ℕ → Result FatError (List ℕ)
chain_sectors fuel info none = ok []
chain_sectors zero info (some c) = err still_running
chain_sectors (suc fuel) info (some c) = next_cluster info c >>= λ next.
    chain_sectors fuel info next >>= λ rest.
    ok (sectors_from (cluster_to_lba info c) info.sectors_per_cluster ++ rest)

unfoldable pub directory_sectors : ℕ → Fat12Info → DirLocation → Result FatError (List ℕ)
directory_sectors fuel info root =
    ok (sectors_from (first_root_dir_sector info) (root_dir_sectors info))
directory_sectors fuel info (in_cluster start_cluster) =
    chain_sectors fuel info (some start_cluster)

abbrev pub is_free_slot : List ℕ → Bool
is_free_slot raw = byte raw 0 == 0 || byte raw 0 == 229

-- The run of free slots behind the entries of a sector, and whether it has `count` of them.
unfoldable pub free_run : ℕ → ℕ → ℕ → List (List ℕ) → List Slot → Bool × List Slot
free_run count lba i [] run = (false, run)
free_run count lba i (raw ∷ raws) run =
    let longer = if is_free_slot raw then run ++ ((lba, i * 32) ∷ []) else [] in
    let rest = free_run count lba (i + 1) raws longer in
    if is_free_slot raw && length longer == count then (true, longer) else rest

-- The end of a chain.
unfoldable pub tail_of : ℕ → Fat12Info → ℕ → Result FatError ℕ
tail_of zero info tail = err still_running
tail_of (suc fuel) info tail =
    next_cluster info tail >>= λ next. elim next [ none ↦ ok tail | some c ↦ tail_of fuel info c ]

-- The slots of a fresh cluster that complete a run.
abbrev pub fresh_slots : ℕ → ℕ → ℕ → List Slot
fresh_slots lba slot zero = []
fresh_slots lba slot (suc n) = (lba, slot * 32) ∷ fresh_slots lba (slot + 1) n

-- A sector of the search for a name: an entry that matches, the end of the directory, or neither.
pub data Search : Type 0 where
  match_at : Slot → DirEntry → Search
  no_more : Search
  go_on : LfnState → Search

-- What follows a sector of the search.
abbrev pub searched :
    Search → (LfnState → Result FatError (Slot × DirEntry)) → Result FatError (Slot × DirEntry)
searched (match_at slot entry) rest = ok (slot, entry)
searched no_more rest = err not_found
searched (go_on lfn) rest = rest lfn

abbrev pub search_step : Slot → Option DirEntry → Search → Search
search_step slot none rest = rest
search_step slot (some entry) rest = match_at slot entry

unfoldable pub search_sector : List ℕ → ℕ → ℕ → List (List ℕ) → LfnState → Search
search_sector name lba i [] lfn = go_on lfn
search_sector name lba i (raw ∷ raws) lfn = elim (kind_of raw) [
  | end_marker ↦ no_more
  | deleted ↦ search_sector name lba (i + 1) raws (reset lfn)
  | long_entry ↦ search_sector name lba (i + 1) raws (push_long_entry lfn raw)
  | volume_label ↦ search_sector name lba (i + 1) raws (reset lfn)
  | short_entry ↦
      let (matched, lfn') = short_entry_if_matches raw lfn name in
      search_step (lba, i * 32) matched (search_sector name lba (i + 1) raws lfn')
]

-- The long entries before the slot `short`: the answer, or those seen so far.
unfoldable pub preceding : Slot → ℕ → ℕ → List (List ℕ) → List Slot → Bool × List Slot
preceding short lba i [] pending = (false, pending)
preceding short lba i (raw ∷ raws) pending =
    let seen =
      if byte raw 0 == 229
      then []
      else if byte raw 11 == 15
      then pending ++ ((lba, i * 32) ∷ [])
      else [] in
    let rest = preceding short lba (i + 1) raws seen in
    if same_slot (lba, i * 32) short
    then (true, pending)
    else if byte raw 0 == 0
    then (true, [])
    else rest

-- The short names of a sector behind `names`, and whether the end marker was seen.
unfoldable pub short_names : List (List ℕ) → List (List ℕ) → Bool × List (List ℕ)
short_names [] names = (false, names)
short_names (raw ∷ raws) names =
    let skipped = byte raw 0 == 229 || byte raw 11 == 15 || not (bit_and (byte raw 11) 8 == 0) in
    let rest = short_names raws (if skipped then names else names ++ (take 11 raw ∷ [])) in
    if byte raw 0 == 0 then (true, names) else rest

-- The slots in use of a sector behind `count`, and whether the end marker was seen.
unfoldable pub used_slots : List (List ℕ) → ℕ → Bool × ℕ
used_slots [] count = (false, count)
used_slots (raw ∷ raws) count =
    let rest = used_slots raws (if byte raw 0 == 229 then count else count + 1) in
    if byte raw 0 == 0 then (true, count) else rest

module _ (ata : Ata) where
  open ata use {Disk, read_sector, write_sector}

  -- A loop over sectors whose body says whether the loop has ended.
  unfoldable pub over {ℓ} :
      {A : Type ℓ}
      → (ℕ → List (List ℕ) → A → Bool × A)
      → Disk
      → List ℕ
      → A
      → Result FatError (Bool × A)
  over body disk [] a = ok (false, a)
  over body disk (lba ∷ lbas) a = driver (read_sector disk lba) >>= λ buf.
      let (stop, a') = body lba (raw_entries buf) a in
      elim stop [ true ↦ ok (true, a') | false ↦ over body disk lbas a' ]

  -- The sectors of a fresh cluster.
  unfoldable pub zeroed : Disk → ℕ → ℕ → Result FatError Disk
  zeroed disk lba zero = ok disk
  zeroed disk lba (suc left) = driver (write_sector disk (u32 lba) (replicate 512 0)) >>= λ disk'.
      zeroed disk' (lba + 1) left

  unfoldable pub grow_directory :
      ℕ → Disk → Fat12Info → ℕ → Result FatError (Disk × Fat12Info × Slot)
  grow_directory fuel disk info start_cluster = tail_of fuel info start_cluster >>= λ tail.
      find_free_clusters info 1 >>= λ clusters.
      let new_cluster = byte clusters 0 in
      let new_lba = cluster_to_lba info new_cluster in
      zeroed disk new_lba info.sectors_per_cluster >>= λ disk'.
      write_fat_entry_to_disk ata disk' info tail (u16 new_cluster) >>= λ linked.
      write_fat_entry_to_disk ata linked.0 linked.1 new_cluster 4095 >>= λ ended.
      ok (ended.0, ended.1, (new_lba, 0))

  -- What follows the scan for free slots.
  abbrev pub or_grown :
      ℕ
      → Disk
      → Fat12Info
      → DirLocation
      → ℕ
      → Bool × List Slot
      → Result FatError (Disk × Fat12Info × List Slot)
  or_grown fuel disk info dir count (true, run) = ok (disk, info, run)
  or_grown fuel disk info root count (false, run) = err directory_full
  or_grown fuel disk info (in_cluster start_cluster) count (false, run) =
      grow_directory fuel disk info start_cluster >>= λ grown.
      ok (grown.0, grown.1, run ++ fresh_slots grown.2.0 (grown.2.1 / 32) (count - length run))

  unfoldable pub find_free_entry_run_in :
      ℕ → Disk → Fat12Info → DirLocation → ℕ → Result FatError (Disk × Fat12Info × List Slot)
  find_free_entry_run_in fuel disk info dir count =
      if ltb 16 count
      then err too_many_slots
      else (directory_sectors fuel info dir >>= λ lbas.
          over (λ lba raws run. free_run count lba 0 raws run) disk lbas [] >>= λ scanned.
          or_grown fuel disk info dir count scanned)

  -- The loop of `find_entry_location_in` over the sectors.
  unfoldable pub search : List ℕ → Disk → List ℕ → LfnState → Result FatError (Slot × DirEntry)
  search name disk [] lfn = err not_found
  search name disk (lba ∷ lbas) lfn = driver (read_sector disk lba) >>= λ buf.
      searched (search_sector name lba 0 (raw_entries buf) lfn) (search name disk lbas)

  unfoldable pub find_entry_location_in :
      ℕ → Disk → Fat12Info → DirLocation → List ℕ → Result FatError (Slot × DirEntry)
  find_entry_location_in fuel disk info dir name =
      directory_sectors fuel info dir >>= λ lbas. search name disk lbas default

  abbrev pub answer : Bool × List Slot → List Slot
  answer (true, slots) = slots
  answer (false, slots) = []

  unfoldable pub find_preceding_lfn_slots :
      ℕ → Disk → Fat12Info → DirLocation → Slot → Result FatError (List Slot)
  find_preceding_lfn_slots fuel disk info dir short = directory_sectors fuel info dir >>= λ lbas.
      over (λ lba raws pending. preceding short lba 0 raws pending) disk lbas [] >>= λ scanned.
      ok (answer scanned)

  unfoldable pub existing_short_names_in :
      ℕ → Disk → Fat12Info → DirLocation → Result FatError (List (List ℕ))
  existing_short_names_in fuel disk info dir = directory_sectors fuel info dir >>= λ lbas.
      over (λ lba raws names. short_names raws names) disk lbas [] >>= λ scanned. ok scanned.1
