-- ===== src/Fat/Table/Reliable.antt =====
-- A disk that does not fail: the sectors below its capacity read as what was last written to them.
use iaos.Prelude.{ℕ, ◌<◌, ◌≡◌, ◌≢◌, List, length, some}
use iaos.Fat.Table.{Ata}

-- The documented behaviour of a working disk: `content` is what a sector holds, `after` the disk once a
-- sector is written.
pub record IsReliable (ata : Ata) (capacity : ℕ) : Type 0 where
  pub content : Ata.Disk ata → ℕ → List ℕ
  pub after : Ata.Disk ata → ℕ → List ℕ → Ata.Disk ata
  pub reads :
      (d : Ata.Disk ata) (n : ℕ) → n < capacity → Ata.read_sector ata d n ≡ some (content d n)
  pub writes :
      (d : Ata.Disk ata) (n : ℕ) (buf : List ℕ)
      → n < capacity
      → length buf ≡ 512
      → Ata.write_sector ata d n buf ≡ some (after d n buf)
  pub same : (d : Ata.Disk ata) (n : ℕ) (buf : List ℕ) → content (after d n buf) n ≡ buf
  pub other :
      (d : Ata.Disk ata) (n : ℕ) (buf : List ℕ) (m : ℕ)
      → m ≢ n
      → content (after d n buf) m ≡ content d m
