-- ===== src/Fat/Files/Patched.antt =====
-- A directory entry whose size is replaced is found where it was, with the new size.
use mathlib.Core.Option
use iaos.Prelude.{
  ℕ, zero, suc, ◌+◌, ◌*◌, ◌/◌, ◌%◌, ◌≤◌, ◌<◌, ◌≡◌, refl, sym, ap, ◌∙◌, inl, inr, arith, some,
  Option-cases, Bool-cases, ◌||◌, List, [], ◌∷◌, ◌++◌, length, byte, take, drop, le32_bytes, All,
}
use iaos.Fat.Text.{eq_ignore_ascii_case}
use iaos.Fat.Common.{
  DirEntry, LfnState, reset, push_long_entry, take_verified, short_of, to_entry, or_short, is_name,
  short_entry_if_matches, SlotKind, kind_of, end_marker, deleted, long_entry, volume_label,
  short_entry,
}
use iaos.Fat.Directory.{Slot, Search, match_at, no_more, go_on, search_step, search_sector}

byte-take_append :
    (n : ℕ) (bs xs : List ℕ) (j : ℕ) → n ≤ length bs → j < n → byte (take n bs ++ xs) j ≡ byte bs j
byte-take_append zero bs xs j h k = absurd (omega arith)
byte-take_append (suc n) [] xs j h k = absurd (omega arith)
byte-take_append (suc n) (b ∷ bs) xs zero h k = refl
byte-take_append (suc n) (b ∷ bs) xs (suc j) h k =
    byte-take_append n bs xs j (omega arith) (omega arith)

byte-behind :
    (n : ℕ) (bs xs : List ℕ) (k : ℕ) → n ≤ length bs → byte (take n bs ++ xs) (n + k) ≡ byte xs k
byte-behind zero bs xs k h = let z : zero + k ≡ k = omega arith in rw z refl
byte-behind (suc n) [] xs k h = absurd (omega arith)
byte-behind (suc n) (b ∷ bs) xs k h =
    let z : suc n + k ≡ suc (n + k) = omega arith in rw z (byte-behind n bs xs k (omega arith))

take-take_append :
    (m n : ℕ) (bs xs : List ℕ) → m ≤ n → n ≤ length bs → take m (take n bs ++ xs) ≡ take m bs
take-take_append zero n bs xs h k = refl
take-take_append (suc m) zero bs xs h k = absurd (omega arith)
take-take_append (suc m) (suc n) [] xs h k = absurd (omega arith)
take-take_append (suc m) (suc n) (b ∷ bs) xs h k =
    ap (λ t. b ∷ t) (take-take_append m n bs xs (omega arith) (omega arith))

take-drop : (m n : ℕ) (bs : List ℕ) → take m (drop n bs) ≡ drop n (take (n + m) bs)
take-drop m zero bs = let z : zero + m ≡ m = omega arith in rw z refl
take-drop zero (suc n) [] = let z : suc n + 0 ≡ suc n = omega arith in rw z refl
take-drop (suc m) (suc n) [] = let z : suc n + suc m ≡ suc (n + suc m) = omega arith in rw z refl
take-drop m (suc n) (b ∷ bs) =
    let z : suc n + m ≡ suc (n + m) = omega arith in rw z (take-drop m n bs)

-- The raw entry with the bytes of the size replaced.
abbrev pub patched : ℕ → List ℕ → List ℕ
patched v raw = take 28 raw ++ le32_bytes v

abbrev pub with_size : ℕ → DirEntry → DirEntry
with_size v e = record e { size = v }

module _ (v : ℕ) (raw : List ℕ) (full : length raw ≡ 32) where
  byte-patched : (j : ℕ) → j < 28 → byte (patched v raw) j ≡ byte raw j
  byte-patched j h = byte-take_append 28 raw (le32_bytes v) j (omega arith) h

  kind_of-patched : kind_of (patched v raw) ≡ kind_of raw
  unfolding kind_of
  kind_of-patched = rw (byte-patched 0 (omega arith), byte-patched 11 (omega arith)) refl

  name-patched : take 11 (patched v raw) ≡ take 11 raw
  name-patched = take-take_append 11 28 raw (le32_bytes v) (omega arith) (omega arith)

  base-patched : take 8 (patched v raw) ≡ take 8 raw
  base-patched = take-take_append 8 28 raw (le32_bytes v) (omega arith) (omega arith)

  ext-patched : take 3 (drop 8 (patched v raw)) ≡ take 3 (drop 8 raw)
  ext-patched = take-drop 3 8 (patched v raw) ∙ ap (drop 8) name-patched ∙ sym (take-drop 3 8 raw)

  size_byte : (k : ℕ) → byte (patched v raw) (28 + k) ≡ byte (le32_bytes v) k
  size_byte k = byte-behind 28 raw (le32_bytes v) k (omega arith)

  to_entry-patched :
      (name : List ℕ) → to_entry name (patched v raw) ≡ with_size v (to_entry name raw)
  unfolding to_entry
  to_entry-patched name =
      let whole : v % 256 + v / 256 % 256 * 256 + v / 65536 % 256 * 65536 + v / 16777216 * 16777216
          ≡ v =
        omega arith in
      rw
        (
          byte-patched 11 (omega arith),
          byte-patched 20 (omega arith),
          byte-patched 21 (omega arith),
          byte-patched 22 (omega arith),
          byte-patched 23 (omega arith),
          byte-patched 24 (omega arith),
          byte-patched 25 (omega arith),
          byte-patched 26 (omega arith),
          byte-patched 27 (omega arith),
          size_byte 0,
          size_byte 1,
          size_byte 2,
          size_byte 3,
          whole,
        )
        refl

  short_entry_if_matches-patched :
      (lfn : LfnState) (name : List ℕ)
      → short_entry_if_matches (patched v raw) lfn name ≡ (
        Option.map (with_size v) (short_entry_if_matches raw lfn name).0,
        (short_entry_if_matches raw lfn name).1,
      )
  unfolding short_entry_if_matches
  short_entry_if_matches-patched lfn name =
      let long_name = (take_verified lfn (take 11 raw)).0 in
      let entry = to_entry-patched (or_short long_name (short_of raw)) in
      elim (Bool-cases (is_name name long_name || eq_ignore_ascii_case (short_of raw) name)) [
        | inl e ↦ rw (name-patched, base-patched, ext-patched, e) (rw entry refl)
        | inr e ↦ rw (name-patched, base-patched, ext-patched, e) refl
      ]

-- The entries of a sector with the size of one replaced.
abbrev pub patch_at : ℕ → ℕ → List (List ℕ) → List (List ℕ)
patch_at v k [] = []
patch_at v zero (raw ∷ raws) = patched v raw ∷ raws
patch_at v (suc k) (raw ∷ raws) = raw ∷ patch_at v k raws

-- Where a search matched, and that it matches there once the size is replaced.
pub record Matched (v : ℕ) (name : List ℕ) (lba i : ℕ) (raws : List (List ℕ)) (lfn : LfnState)
    (slot : Slot) (e : DirEntry) : Type 0 where
  pub at : ℕ
  pub here : slot ≡ (lba, (i + at) * 32)
  pub below : at < length raws
  pub again : search_sector name lba i (patch_at v at raws) lfn ≡ match_at slot (with_size v e)

abbrev slot_of : Search → Slot
slot_of (match_at slot e) = slot
slot_of no_more = (0, 0)
slot_of (go_on lfn) = (0, 0)

abbrev entry_of : DirEntry → Search → DirEntry
entry_of d (match_at slot e) = e
entry_of d no_more = d
entry_of d (go_on lfn) = d

step_short :
    (name : List ℕ) (lba i : ℕ) (raw : List ℕ) (raws : List (List ℕ)) (lfn : LfnState)
    → kind_of raw ≡ short_entry
    → search_sector name lba i (raw ∷ raws) lfn
      ≡ search_step
          (lba, i * 32)
          (short_entry_if_matches raw lfn name).0
          (search_sector name lba (i + 1) raws (short_entry_if_matches raw lfn name).1)
unfolding search_sector
step_short name lba i raw raws lfn q = rw (q, search_sector) refl

module _ (v : ℕ) (name : List ℕ) (lba i : ℕ) (raw : List ℕ) (raws : List (List ℕ)) (slot : Slot)
    (e : DirEntry) where
  -- The search went on to the next entry.
  later :
      (lfn lfn' : LfnState)
      → ((rs : List (List ℕ))
          → search_sector name lba i (raw ∷ rs) lfn ≡ search_sector name lba (i + 1) rs lfn')
      → Matched v name lba (i + 1) raws lfn' slot e
      → Matched v name lba i (raw ∷ raws) lfn slot e
  later lfn lfn' step m =
      let z : i + 1 + m.at ≡ i + suc m.at = omega arith in
      record {
        at = suc m.at;
        here = m.here ∙ ap (λ t. (lba, t * 32)) z;
        below = omega (arith, m.below);
        again = step (patch_at v m.at raws) ∙ m.again;
      }

  -- The search ended here.
  found_here :
      (lfn : LfnState) (entry : DirEntry)
      → length raw ≡ 32
      → kind_of raw ≡ short_entry
      → (short_entry_if_matches raw lfn name).0 ≡ some entry
      → match_at (lba, i * 32) entry ≡ match_at slot e
      → Matched v name lba i (raw ∷ raws) lfn slot e
  found_here lfn entry full q m h =
      let here : (lba, i * 32) ≡ slot = ap slot_of h in
      let entries : entry ≡ e = ap (entry_of entry) h in
      let z : i + 0 ≡ i = omega arith in
      record {
        at = 0;
        here = rw z (sym here);
        below = omega arith;
        again =
            step_short name lba i (patched v raw) raws lfn (kind_of-patched v raw full ∙ q)
            ∙ rw (short_entry_if_matches-patched v raw full lfn name, m)
                (rw (← entries, ← here) refl);
      }

  -- The search, by the kind of its first entry.
  by_kind :
      (lfn : LfnState) (k : SlotKind)
      → kind_of raw ≡ k
      → length raw ≡ 32
      → ((lfn' : LfnState)
          → search_sector name lba (i + 1) raws lfn' ≡ match_at slot e
          → Matched v name lba (i + 1) raws lfn' slot e)
      → search_sector name lba i (raw ∷ raws) lfn ≡ match_at slot e
      → Matched v name lba i (raw ∷ raws) lfn slot e
  unfolding search_sector
  by_kind lfn end_marker q full next h = absurd (cc (rw (q, search_sector) at h))
  by_kind lfn deleted q full next h =
      later lfn (reset lfn) (λ rs. rw (q, search_sector) refl)
        (next (reset lfn) (rw (q, search_sector) at h))
  by_kind lfn long_entry q full next h =
      later lfn (push_long_entry lfn raw) (λ rs. rw (q, search_sector) refl)
        (next (push_long_entry lfn raw) (rw (q, search_sector) at h))
  by_kind lfn volume_label q full next h =
      later lfn (reset lfn) (λ rs. rw (q, search_sector) refl)
        (next (reset lfn) (rw (q, search_sector) at h))
  by_kind lfn short_entry q full next h =
      let lfn' = (short_entry_if_matches raw lfn name).1 in
      let step = sym (step_short name lba i raw raws lfn q) ∙ h in
      elim (Option-cases ((short_entry_if_matches raw lfn name).0)) [
        | inl m ↦
            later lfn lfn' (λ rs. step_short name lba i raw rs lfn q ∙ rw m refl)
              (next lfn' (rw m at step))
        | inr (entry, m) ↦ found_here lfn entry full q m (rw m at step)
      ]

-- A search that matches in a sector matches the same slot once the size in it is replaced.
pub search_sector-Matched :
    (v : ℕ) (name : List ℕ) (lba i : ℕ) (raws : List (List ℕ)) (lfn : LfnState) (slot : Slot)
    (e : DirEntry)
    → All (λ raw. length raw ≡ 32) raws
    → search_sector name lba i raws lfn ≡ match_at slot e
    → Matched v name lba i raws lfn slot e
unfolding search_sector
search_sector-Matched v name lba i [] lfn slot e sizes h = absurd (ground arith)
search_sector-Matched v name lba i (raw ∷ raws) lfn slot e sizes h =
    by_kind v name lba i raw raws slot e lfn (kind_of raw) refl sizes.0
      (λ lfn' k. search_sector-Matched v name lba (i + 1) raws lfn' slot e sizes.1 k) h
