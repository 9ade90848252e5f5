-- ===== src/Fat/Files/Found.antt =====
-- An entry of the root directory is found again once its size is replaced on the disk.
use iaos.Prelude.{
  take-front, drop-front, take-shorter, take-append, ℕ, zero, suc, ◌+◌, ◌*◌, ◌≤◌, ◌<◌, ◌≡◌, ◌≢◌,
  refl, sym, ap, ◌∙◌, arith, List, ◌∷◌, ◌++◌, length, length-append, length-take, length-drop,
  append_assoc, drop-drop, take, drop, le32_bytes, u32, All, ok, ok_inj,
}
use iaos.Fat.Common.{DirEntry, LfnState}
use iaos.Fat.Table.{Ata}
use iaos.Fat.Table.Reliable.{IsReliable}
use iaos.Fat.Directory.{
  Slot, Search, match_at, no_more, go_on, searched, search_sector, search, sectors_from, chunks_of,
  raw_entries,
}
use iaos.Fat.Files.{splice}
use iaos.Fat.Files.Patched.{with_size, patch_at, search_sector-Matched}

-- A first chunk of known size.
chunk_first :
    (n : ℕ) (xs ys : List ℕ) → length xs ≡ 32 → chunks_of (suc n) (xs ++ ys) ≡ xs ∷ chunks_of n ys
chunk_first n xs ys h = rw (← h) (rw (take-front xs ys, drop-front xs ys) refl)

chunks-sizes :
    (n : ℕ) (buf : List ℕ) → n * 32 ≤ length buf → All (λ raw. length raw ≡ 32) (chunks_of n buf)
chunks-sizes zero buf h = tt
chunks-sizes (suc n) buf h = (
  omega (arith, length-take 32 buf),
  chunks-sizes n (drop 32 buf) (omega (arith, length-drop 32 buf)),
)

length-chunks : (n : ℕ) (buf : List ℕ) → length (chunks_of n buf) ≡ n
length-chunks zero buf = refl
length-chunks (suc n) buf = ap suc (length-chunks n (drop 32 buf))

-- A splice behind the first chunk.
splice-behind :
    (buf bytes : List ℕ) (m : ℕ)
    → splice buf (32 + m) bytes ≡ take 32 buf ++ splice (drop 32 buf) m bytes
splice-behind buf bytes m =
    let z : 32 + m + length bytes ≡ 32 + (m + length bytes) = omega arith in
    let front = sym (take-append 32 m buf) in
    let back : drop (32 + m + length bytes) buf ≡ drop (m + length bytes) (drop 32 buf) =
      ap (λ t. drop t buf) z ∙ sym (drop-drop (m + length bytes) 32 buf) in
    let a = take 32 buf in
    let b = take m (drop 32 buf) in
    let d = drop (m + length bytes) (drop 32 buf) in
    rw (front, back) (ap (λ t. t ++ d) (append_assoc a b bytes) ∙ append_assoc a (b ++ bytes) d)

chunks-splice :
    (v n k : ℕ) (buf : List ℕ)
    → n * 32 ≤ length buf
    → k < n
    → chunks_of n (splice buf (k * 32 + 28) (le32_bytes v)) ≡ patch_at v k (chunks_of n buf)
chunks-splice v zero k buf h lt = absurd (omega arith)
chunks-splice v (suc n) zero buf h lt =
    let front = take 28 buf ++ le32_bytes v in
    let size : length front ≡ 32 =
      length-append (take 28 buf) (le32_bytes v) ∙ omega (arith, length-take 28 buf) in
    chunk_first n front (drop 32 buf) size
    ∙ ap (λ t. (t ++ le32_bytes v) ∷ chunks_of n (drop 32 buf))
        (sym (take-shorter 28 32 buf (omega arith)))
chunks-splice v (suc n) (suc k) buf h lt =
    let z : suc k * 32 + 28 ≡ 32 + (k * 32 + 28) = omega arith in
    let size : length (take 32 buf) ≡ 32 = omega (arith, length-take 32 buf) in
    ap (λ t. chunks_of (suc n) (splice buf t (le32_bytes v))) z
    ∙ ap (chunks_of (suc n)) (splice-behind buf (le32_bytes v) (k * 32 + 28))
    ∙ chunk_first n (take 32 buf) (splice (drop 32 buf) (k * 32 + 28) (le32_bytes v)) size
    ∙ ap (λ t. take 32 buf ∷ t)
        (chunks-splice v n k (drop 32 buf) (omega (arith, length-drop 32 buf)) (omega arith))

module _ (ata : Ata) (capacity : ℕ) (working : IsReliable ata capacity) (name : List ℕ) where
  open ata use {Disk, read_sector}
  open working use {content, reads}

  -- One sector of the search.
  search_cons :
      (disk : Disk) (lba n : ℕ) (lfn : LfnState)
      → lba < capacity
      → capacity ≤ 4294967296
      → search ata name disk (sectors_from lba (suc n)) lfn
        ≡ searched
            (search_sector name lba 0 (raw_entries (content disk lba)) lfn)
            (search ata name disk (sectors_from (lba + 1) n))
  unfolding search
  search_cons disk lba n lfn h k =
      let here : u32 lba ≡ lba = omega arith in rw (here, reads disk lba h) refl

  -- The entry lies in one of the sectors.
  pub record InRange (lba n : ℕ) (slot : Slot) : Type 0 where
    pub from : lba ≤ slot.0
    pub to : slot.0 < lba + n
    pub inside : slot.1 + 32 ≤ 512

  module _ (disk disk' : Disk) (v : ℕ) (slot : Slot) (e : DirEntry) where
    -- The search finds the entry in these sectors, and again on the other disk.
    pub record Again (lba n : ℕ) (lfn : LfnState) : Type 0 where
      pub range : InRange lba n slot
      pub again :
          ((k : ℕ) → lba ≤ k → k < lba + n → k ≢ slot.0 → content disk' k ≡ content disk k)
          → content disk' slot.0 ≡ splice (content disk slot.0) (slot.1 + 28) (le32_bytes v)
          → search ata name disk' (sectors_from lba n) lfn ≡ ok (slot, with_size v e)

    -- The match is in the first sector.
    matched_first :
        (lba n : ℕ) (lfn : LfnState)
        → search_sector name lba 0 (raw_entries (content disk lba)) lfn ≡ match_at slot e
        → lba < capacity
        → capacity ≤ 4294967296
        → length (content disk lba) ≡ 512
        → Again lba (suc n) lfn
    unfolding raw_entries
    matched_first lba n lfn q h k size =
        let buf = content disk lba in
        let m =
          search_sector-Matched v name lba 0 (chunks_of 16 buf) lfn slot e
            (chunks-sizes 16 buf (omega arith)) q in
        let at-lt : m.at < 16 = omega (arith, m.below, length-chunks 16 buf) in
        let sector : slot.0 ≡ lba = ap (λ s. s.0) m.here in
        let offset : slot.1 ≡ m.at * 32 = ap (λ s. s.1) m.here ∙ omega arith in
        record {
          range = record {
            from = omega (arith, sector);
            to = omega (arith, sector);
            inside = omega (arith, offset, at-lt);
          };
          again = λ same there.
              let now : content disk' lba ≡ splice buf (m.at * 32 + 28) (le32_bytes v) =
                rw (sector, offset) at there in
              let patch : raw_entries (content disk' lba) ≡ patch_at v m.at (raw_entries buf) =
                ap (chunks_of 16) now ∙ chunks-splice v 16 m.at buf (omega arith) at-lt in
              search_cons disk' lba n lfn h k
              ∙ ap (λ s. searched s (search ata name disk' (sectors_from (lba + 1) n)))
                  (ap (λ t. search_sector name lba 0 t lfn) patch ∙ m.again);
        }

    by_search :
        (lba n : ℕ) (lfn : LfnState) (s : Search)
        → search_sector name lba 0 (raw_entries (content disk lba)) lfn ≡ s
        → lba < capacity
        → capacity ≤ 4294967296
        → length (content disk lba) ≡ 512
        → ((lfn' : LfnState)
            → search ata name disk (sectors_from (lba + 1) n) lfn' ≡ ok (slot, e)
            → Again (lba + 1) n lfn')
        → searched s (search ata name disk (sectors_from (lba + 1) n)) ≡ ok (slot, e)
        → Again lba (suc n) lfn
    by_search lba n lfn (match_at slot' e') q h k size next found =
        let here : slot' ≡ slot = ap (λ r. r.0) (ok_inj found) in
        let entries : e' ≡ e = ap (λ r. r.1) (ok_inj found) in
        matched_first lba n lfn (rw (here, entries) at q) h k size
    by_search lba n lfn no_more q h k size next found = absurd (cc found)
    by_search lba n lfn (go_on lfn') q h k size next found =
        let r = next lfn' found in
        record {
          range = record {
            from = omega (arith, r.range.from);
            to = omega (arith, r.range.to);
            inside = r.range.inside;
          };
          again = λ same there.
              search_cons disk' lba n lfn h k
              ∙ rw (same lba (omega arith) (omega arith) (λ x. omega (arith, r.range.from)), q)
                  (r.again (λ j a b. same j (omega arith) (omega arith)) there);
        }

    pub search-Again :
        (lba n : ℕ) (lfn : LfnState)
        → lba + n ≤ capacity
        → capacity ≤ 4294967296
        → ((k : ℕ) → k < capacity → length (content disk k) ≡ 512)
        → search ata name disk (sectors_from lba n) lfn ≡ ok (slot, e)
        → Again lba n lfn
    unfolding search
    search-Again lba zero lfn h k sized found = absurd (cc found)
    search-Again lba (suc n) lfn h k sized found =
        by_search lba n lfn (search_sector name lba 0 (raw_entries (content disk lba)) lfn) refl
          (omega arith) k (sized lba (omega arith))
          (λ lfn' f. search-Again (lba + 1) n lfn' (omega arith) k sized f)
          (sym (search_cons disk lba n lfn (omega arith) k) ∙ found)
