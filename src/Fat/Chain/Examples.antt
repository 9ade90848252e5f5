-- ===== src/Fat/Chain/Examples.antt =====
-- The loops over a chain, on the sample volume.
use iaos.Prelude.{ℕ, ◌≡◌, refl, arith, some, List, [], ◌∷◌, replicate, ok, ◌>>=◌}
use iaos.Fat.Table.{entry_at, write_fat_entry_to_disk}
use iaos.Fat.Table.Mounted.{Wrote, write_fat_entry_to_disk-Wrote}
use iaos.Fat.Samples.{
  memory_disk, working_disk, table, volume, sectors, volume-IsMounted, volume-IsReady,
  cluster-InVolume,
}
use iaos.Fat.Chain.{follow, lay, read_chain, free_chain}
use iaos.Fat.Chain.Written.{Laid, lay-Laid}
use iaos.Fat.Chain.Read.{lay-read_chain}
use iaos.Fat.Chain.Follow.{Freed, follow-Linked, free_chain-Freed}

abbrev contents : List ℕ
contents = replicate 600 7

lay-Laid_example :
    Laid memory_disk 16 working_disk volume 12 sectors table
      (4 ∷ 6 ∷ [])
      contents
      (lay memory_disk sectors volume (4 ∷ 6 ∷ []) contents)
lay-Laid_example =
    lay-Laid memory_disk 16 working_disk volume 12 sectors table (4 ∷ 6 ∷ []) contents
      volume-IsReady
      (
        cluster-InVolume 4 (omega arith) (omega arith),
        (cluster-InVolume 6 (omega arith) (omega arith), tt),
      )
      ((λ e. omega arith, tt), (tt, tt))

lay-read_chain_example :
    (lay memory_disk sectors volume (4 ∷ 6 ∷ []) contents >>= λ laid.
    read_chain memory_disk 2 laid.0 laid.1 4 600 [])
    ≡ ok contents
lay-read_chain_example =
    lay-read_chain memory_disk 16 working_disk volume 12 sectors table 4 (6 ∷ []) contents
      volume-IsReady
      (
        cluster-InVolume 4 (omega arith) (omega arith),
        (cluster-InVolume 6 (omega arith) (omega arith), tt),
      )
      ((λ e. omega arith, tt), (tt, tt)) (omega arith)

write_fat_entry_to_disk-Wrote_example :
    Wrote memory_disk 16 working_disk sectors volume 5 6
      (write_fat_entry_to_disk memory_disk sectors volume 5 6)
write_fat_entry_to_disk-Wrote_example =
    write_fat_entry_to_disk-Wrote memory_disk 16 working_disk sectors volume 5 6 volume-IsMounted
      (omega arith)

follow-Linked_run : follow 2 volume (some 2) ≡ ok (2 ∷ 3 ∷ [])
unfolding entry_at
follow-Linked_run =
    follow-Linked 2 volume (2 ∷ 3 ∷ [])
      ((omega arith, omega arith, omega arith), ((omega arith, omega arith, omega arith), tt))
      (refl, (refl, tt)) (omega arith)

free_chain-Freed_example :
    Freed memory_disk 16 working_disk sectors volume
      (2 ∷ 3 ∷ [])
      (free_chain memory_disk 2 sectors volume (some 2))
unfolding entry_at
free_chain-Freed_example =
    free_chain-Freed memory_disk 16 working_disk 2 sectors volume (2 ∷ 3 ∷ []) volume-IsMounted
      ((omega arith, omega arith, omega arith), ((omega arith, omega arith, omega arith), tt))
      (refl, (refl, tt)) ((λ e. omega arith, tt), (tt, tt)) (omega arith)
