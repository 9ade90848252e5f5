-- ===== src/Fat/Chain.antt =====
-- agentos-kernel/src/fat12.rs: the loops over a chain of clusters, which follow it, lay data across it,
-- read it and free it. A loop that follows the table has fuel, and `still_running` is a loop that
-- has not ended when it is used up: the source has no bound on a chain that runs in a circle.
pub mod Laid
pub mod Written
pub mod ReadCluster
pub mod Read
pub mod Follow
mod Examples
use iaos.Prelude.{
  ℕ, zero, suc, ◌+◌, ◌-◌, ◌*◌, min, Bool, Option, none, some, List, [], ◌∷◌, ◌++◌, length, take,
  drop, leb, if◌then◌else◌, u16, u32, Result, ok, err, ◌>>=◌,
}
use iaos.Fat.Table.{
  Fat12Info, Ata, FatError, driver_error, still_running, cluster_to_lba, next_cluster,
  write_fat_entry_to_disk,
}

-- `?` on a result of the driver.
abbrev pub driver {ℓ} : {A : Type ℓ} → Option A → Result FatError A
driver none = err driver_error
driver (some a) = ok a

-- `while let Some(c) = cluster { clusters.push(c); cluster = self.next_cluster(c)?; }`
unfoldable pub follow : ℕ → Fat12Info → Option ℕ → Result FatError (List ℕ)
follow fuel info none = ok []
follow zero info (some c) = err still_running
follow (suc fuel) info (some c) =
    next_cluster info c >>= λ next. follow fuel info next >>= λ cs. ok (c ∷ cs)

-- The first `n` bytes, with zeros behind the last.
abbrev pub filled : ℕ → List ℕ → List ℕ
filled zero bs = []
filled (suc n) [] = 0 ∷ filled n []
filled (suc n) (b ∷ bs) = b ∷ filled n bs

-- The sector buffer of `data[written..]`.
unfoldable pub sector_of : List ℕ → List ℕ
sector_of rest = filled 512 rest

-- `data[written..]` once a sector is written.
unfoldable pub behind_sector : List ℕ → List ℕ
behind_sector rest = drop 512 rest

-- `clusters.get(i + 1)`: the entry of a cluster before the others.
abbrev pub link_of : List ℕ → ℕ
link_of [] = 4095
link_of (c ∷ cs) = u16 c

module _ (ata : Ata) where
  open ata use {Disk, read_sector, write_sector}

  -- `left` sectors of a cluster, where `rest` is `data[written..]`.
  unfoldable pub write_cluster : Disk → ℕ → ℕ → List ℕ → Result FatError (Disk × List ℕ)
  write_cluster disk lba zero rest = ok (disk, rest)
  write_cluster disk lba (suc left) rest =
      driver (write_sector disk (u32 lba) (sector_of rest)) >>= λ disk'.
      write_cluster disk' (lba + 1) left (behind_sector rest)

  -- The loop over the clusters, each of which is written and then linked to the next.
  unfoldable pub lay : Disk → Fat12Info → List ℕ → List ℕ → Result FatError (Disk × Fat12Info)
  lay disk info [] rest = ok (disk, info)
  lay disk info (c ∷ cs) rest =
      write_cluster disk (cluster_to_lba info c) info.sectors_per_cluster rest >>= λ written.
      write_fat_entry_to_disk ata written.0 info c (link_of cs) >>= λ linked.
      lay linked.0 linked.1 cs written.1

  -- `left` sectors of a cluster, behind the `data` read so far.
  unfoldable pub read_cluster : Disk → ℕ → ℕ → ℕ → List ℕ → Result FatError (List ℕ)
  read_cluster disk lba zero size data_read = ok data_read
  read_cluster disk lba (suc left) size data_read = driver (read_sector disk (u32 lba)) >>= λ buf.
      let longer = data_read ++ take (min (size - length data_read) 512) buf in
      let rest = read_cluster disk (lba + 1) left size longer in
      if leb size (length longer) then ok longer else rest

  -- The loop of `read_file_impl`.
  unfoldable pub read_chain : ℕ → Disk → Fat12Info → ℕ → ℕ → List ℕ → Result FatError (List ℕ)
  read_chain zero disk info cluster size data_read = err still_running
  read_chain (suc fuel) disk info cluster size data_read =
      read_cluster disk (cluster_to_lba info cluster) info.sectors_per_cluster size data_read
      >>= λ longer.
          if leb size (length longer)
          then ok longer
          else (next_cluster info cluster >>= λ next. elim next [
            | none ↦ ok longer
            | some c ↦ read_chain fuel disk info c size longer
          ])

  -- `while let Some(c) = cluster { let next = …; write(c, 0); cluster = next; }`
  unfoldable pub free_chain : ℕ → Disk → Fat12Info → Option ℕ → Result FatError (Disk × Fat12Info)
  free_chain fuel disk info none = ok (disk, info)
  free_chain zero disk info (some c) = err still_running
  free_chain (suc fuel) disk info (some c) = next_cluster info c >>= λ next.
      write_fat_entry_to_disk ata disk info c 0 >>= λ freed. free_chain fuel freed.0 freed.1 next
