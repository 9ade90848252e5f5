-- ===== src/Fat/Entries/LongName.antt =====
-- A reader that is fed the long entries of a name, in the order in which they are written,
-- reconstructs the name.
use iaos.Prelude.{
  append_nil, append_assoc, drop-drop, take_all, ℕ, zero, suc, ◌+◌, ◌-◌, ◌*◌, ◌/◌, ◌%◌, ◌≤◌, ◌<◌,
  ◌≡◌, refl, sym, ap, ap₂, ◌∙◌, true, false, not, some, List, [], ◌∷◌, ◌++◌, arith, length, byte,
  take, drop, length-append, length-take, length-drop, length-replicate, take-append-drop, u8, le16,
  ◌==◌, all_below, all_below_sound, bit_and, bit_or, All,
}
use iaos.Fat.Text.{tabulate}
use iaos.Fat.Common.{
  LfnState, push_long_entry, long_chars, decode_lfn_chunk, decode_chunks, take_verified,
  lfn_checksum,
}
use iaos.Fat.Entries.{
  num_chunks, chunk_chars, long_raw, sequence_of, long_entry_of, entries_down, build_lfn_entries,
}

-- A list is the list of its entries.
pub tabulate-byte : (xs : List ℕ) → tabulate (length xs) (λ i. byte xs i) ≡ xs
tabulate-byte [] = refl
tabulate-byte (x ∷ xs) = ap (λ t. x ∷ t) (tabulate-byte xs)

tabulate-ext : (n : ℕ) (f g : ℕ → ℕ) → ((i : ℕ) → f i ≡ g i) → tabulate n f ≡ tabulate n g
tabulate-ext zero f g h = refl
tabulate-ext (suc n) f g h =
    ap (λ t. t ∷ tabulate n (λ i. f (suc i))) (h 0)
    ∙ ap (λ t. g 0 ∷ t) (tabulate-ext n (λ i. f (suc i)) (λ i. g (suc i)) (λ i. h (suc i)))

-- The words of an entry are the characters that were written to it.
pub long_chars-raw :
    (sequence checksum : ℕ) (chars : List ℕ)
    → length chars ≡ 13
    → long_chars (long_raw sequence checksum chars) ≡ chars
long_chars-raw sequence checksum chars h =
    tabulate-ext 13 (λ i. le16 (byte chars i % 256) (byte chars i / 256)) (λ i. byte chars i)
      (λ i. omega arith)
    ∙ ap (λ n. tabulate n (λ i. byte chars i)) (sym h)
    ∙ tabulate-byte chars

length-chunk_chars : (n : ℕ) (bs : List ℕ) → length (chunk_chars n bs) ≡ n
length-chunk_chars zero bs = refl
length-chunk_chars (suc n) [] = ap suc (length-replicate n 65535)
length-chunk_chars (suc n) (b ∷ bs) = ap suc (length-chunk_chars n bs)

-- ASCII characters other than 0, which a name holds as one byte each.
abbrev pub AreChars : List ℕ → Type 0
AreChars bs = All (λ b. (0 < b) × (b < 128)) bs

decode-chunk_chars :
    (n : ℕ) (bs : List ℕ) → length bs ≤ n → AreChars bs → decode_lfn_chunk (chunk_chars n bs) ≡ bs
unfolding decode_lfn_chunk
decode-chunk_chars zero [] h k = refl
decode-chunk_chars zero (b ∷ bs) h k = absurd (omega arith)
decode-chunk_chars (suc n) [] h k = refl
decode-chunk_chars (suc n) (b ∷ bs) h k =
    let nonzero : (b == 0) ≡ false = ground (arith, k.0.0) in
    let narrow : u8 b ≡ b = omega (arith, k.0.1) in
    rw (nonzero, narrow, decode-chunk_chars n bs (omega arith) k.1) refl

AreChars-take : (n : ℕ) (bs : List ℕ) → AreChars bs → AreChars (take n bs)
AreChars-take zero bs h = tt
AreChars-take (suc n) [] h = tt
AreChars-take (suc n) (b ∷ bs) h = (h.0, AreChars-take n bs h.1)

AreChars-drop : (n : ℕ) (bs : List ℕ) → AreChars bs → AreChars (drop n bs)
AreChars-drop zero bs h = h
AreChars-drop (suc n) [] h = tt
AreChars-drop (suc n) (b ∷ bs) h = AreChars-drop n bs h.1

-- The chunk that is pushed last is decoded first.
decode_chunks-push :
    (cs : List (List ℕ)) (c : List ℕ)
    → decode_chunks (cs ++ (c ∷ [])) ≡ decode_lfn_chunk c ++ decode_chunks cs
unfolding decode_chunks
decode_chunks-push [] c = sym (append_nil (decode_lfn_chunk c))
decode_chunks-push (d ∷ cs) c =
    ap (λ t. t ++ decode_lfn_chunk d) (decode_chunks-push cs c)
    ∙ append_assoc (decode_lfn_chunk c) (decode_chunks cs) (decode_lfn_chunk d)

unfoldable pub push_all : LfnState → List (List ℕ) → LfnState
push_all lfn [] = lfn
push_all lfn (raw ∷ raws) = push_all (push_long_entry lfn raw) raws

-- The sequence numbers of at most 63 chunks.
sequence-first :
    (count : ℕ) → 0 < count → count < 64 → (bit_and (sequence_of count (count - 1)) 64 == 0) ≡ false
unfolding all_below
sequence-first count pos h =
    let marked = all_below_sound 64 (λ x. not (bit_and (bit_or x 64) 64 == 0)) count refl h in
    let last : (count - 1 == count - 1) ≡ true = ground arith in
    let number : u8 (count - 1 + 1) ≡ count = omega arith in rw (last, number) (ground arith)

sequence-later :
    (count index : ℕ)
    → index + 1 < count
    → count < 64
    → (bit_and (sequence_of count index) 64 == 0) ≡ true
unfolding all_below
sequence-later count index h k =
    let unmarked = all_below_sound 64 (λ x. bit_and x 64 == 0) (index + 1) refl (omega arith) in
    let inner : (index == count - 1) ≡ false = ground arith in
    let number : u8 (index + 1) ≡ index + 1 = omega arith in rw (inner, number) unmarked

module _ (name : List ℕ) (chars : AreChars name) (checksum : ℕ) where
  -- The reader has the characters from the chunk `index` on.
  pub record HasFrom (index : ℕ) (lfn : LfnState) : Type 0 where
    pub text : decode_chunks lfn.chunks ≡ drop (index * 13) name
    pub sum : lfn.checksum ≡ checksum
    pub pending : (length lfn.chunks == 0) ≡ false

  decoded :
      (count index : ℕ)
      → decode_lfn_chunk (long_chars (long_entry_of name checksum count index))
        ≡ take 13 (drop (index * 13) name)
  unfolding long_entry_of
  decoded count index =
      ap decode_lfn_chunk (
        long_chars-raw (sequence_of count index) checksum
          (chunk_chars 13 (take 13 (drop (index * 13) name)))
          (length-chunk_chars 13 (take 13 (drop (index * 13) name))))
      ∙ decode-chunk_chars 13 (take 13 (drop (index * 13) name))
          (omega (arith, length-take 13 (drop (index * 13) name)))
          (AreChars-take 13 (drop (index * 13) name) (AreChars-drop (index * 13) name chars))

  join :
      (index : ℕ)
      → take 13 (drop (index * 13) name) ++ drop ((index + 1) * 13) name ≡ drop (index * 13) name
  join index =
      ap (λ t. take 13 (drop (index * 13) name) ++ t)
        (ap (λ n. drop n name) (omega arith) ∙ sym (drop-drop 13 (index * 13) name))
      ∙ take-append-drop 13 (drop (index * 13) name)

  push_first :
      (count : ℕ) (lfn : LfnState)
      → 0 < count
      → count < 64
      → length name ≤ count * 13
      → HasFrom (count - 1) (push_long_entry lfn (long_entry_of name checksum count (count - 1)))
  unfolding push_long_entry decode_chunks long_entry_of
  push_first count lfn pos h fits = rw (sequence-first count pos h) (record {
    text =
        decoded count (count - 1)
        ∙ take_all {n = 13} (drop ((count - 1) * 13) name)
            (omega (arith, length-drop ((count - 1) * 13) name));
    sum = refl;
    pending = ground arith;
  })

  push_later :
      (count index : ℕ) (lfn : LfnState)
      → index + 1 < count
      → count < 64
      → HasFrom (index + 1) lfn
      → HasFrom index (push_long_entry lfn (long_entry_of name checksum count index))
  unfolding push_long_entry long_entry_of
  push_later count index lfn h k has = rw (sequence-later count index h k) (record {
    text =
        (decode_chunks-push lfn.chunks (long_chars (long_entry_of name checksum count index))
          ∙ ap₂ (λ a b. a ++ b) (decoded count index) has.text
          ∙ join index);
    sum = has.sum;
    pending =
        let size =
          length-append lfn.chunks (long_chars (long_entry_of name checksum count index) ∷ []) in
        ground arith;
  })

  push_down :
      (count index : ℕ) (lfn : LfnState)
      → index < count
      → count < 64
      → HasFrom index lfn
      → HasFrom 0 (push_all lfn (entries_down name checksum count index))
  unfolding entries_down push_all
  push_down count zero lfn h k has = has
  push_down count (suc index) lfn h k has =
      push_down count index (push_long_entry lfn (long_entry_of name checksum count index))
        (omega arith) k (push_later count index lfn (omega arith) k (fix has))
    where
      fix : HasFrom (suc index) lfn → HasFrom (index + 1) lfn
      fix x = let e : suc index ≡ index + 1 = omega arith in rw (← e) x

  pub push_entries :
      (count : ℕ) (lfn : LfnState)
      → 0 < count
      → count < 64
      → length name ≤ count * 13
      → HasFrom 0 (push_all lfn (entries_down name checksum count count))
  unfolding entries_down push_all
  push_entries zero lfn pos h fits = absurd (omega arith)
  push_entries (suc n) lfn pos h fits =
      push_down (suc n) n (push_long_entry lfn (long_entry_of name checksum (suc n) n))
        (omega arith) h (fix (push_first (suc n) lfn pos h fits))
    where
      fix :
          HasFrom
            (suc n - 1)
            (push_long_entry lfn (long_entry_of name checksum (suc n) (suc n - 1)))
          → HasFrom n (push_long_entry lfn (long_entry_of name checksum (suc n) n))
      fix x = let e : suc n - 1 ≡ n = omega arith in rw e at x

-- A reader in any state that is fed the entries built for a name of at most 819 ASCII characters
-- other than 0, and then asked with the same short name, returns the name and
-- forgets it.
pub take_verified-build :
    (name short_name : List ℕ) (lfn : LfnState)
    → AreChars name
    → length name ≤ 819
    → ((take_verified (push_all lfn (build_lfn_entries name short_name)) short_name).0 ≡ some name)
      × ((take_verified (push_all lfn (build_lfn_entries name short_name)) short_name).1.chunks
          ≡ [])
unfolding take_verified build_lfn_entries
take_verified-build name short_name lfn chars h =
    let all =
      push_entries name chars (lfn_checksum short_name) (num_chunks name) lfn (omega arith)
        (omega arith) (omega arith) in
    (rw (all.pending, all.sum, all.text) (ground arith), refl)
