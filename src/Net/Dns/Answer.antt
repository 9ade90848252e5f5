-- ===== src/Net/Dns/Answer.antt =====
-- The search returns the first record of its type, inside the message, and every name is measured inside it.
use iaos.Prelude.{
  ℕ, zero, suc, ◌+◌, ◌-◌, ◌≤◌, ◌<◌, ◌≡◌, ◌≢◌, refl, ap, sym, ◌∙◌, ◌⊎◌, inl, inr, List, arith,
  length, length-take, length-drop, byte, ltb, leb, ◌==◌, if◌then◌else◌, be16, drop, Result, ok,
  err, ok_inj, ◌>>=◌, Bool-cases, min,
}
use iaos.Net.Dns.{
  name_end, name_field_len, is_pointer, DnsError, type_at, rdlength_at, rdata_at, find_record,
  find_first_record_rdata, name_past_end, pointer_cut, visit_answer, parse_first_a_record,
  of_length, no_a_record, dns_type_a,
}

-- The measuring loop ends within the bytes that are left: any two amounts of fuel that reach
-- the end of the message give the same result.
pub name_end-fuel :
    (m : List ℕ) (fuel enough pos : ℕ)
    → length m ≤ pos + fuel
    → length m ≤ pos + enough
    → name_end m fuel pos ≡ name_end m enough pos
unfolding name_end
name_end-fuel m zero zero pos h k = refl
name_end-fuel m zero (suc enough) pos h k = ground arith
name_end-fuel m (suc fuel) zero pos h k = ground arith
name_end-fuel m (suc fuel) (suc enough) pos h k =
    rw (name_end-fuel m fuel enough (pos + (1 + byte m pos)) (omega arith) (omega arith)) refl

name_end-inside :
    (m : List ℕ) (fuel pos n : ℕ) → name_end m fuel pos ≡ ok n → (pos < n) × (n ≤ length m)
unfolding name_end
name_end-inside m zero pos n h = cc
name_end-inside m (suc fuel) pos n h =
    ground (arith, name_end-inside m fuel (pos + (1 + byte m pos)) n)

-- A name that is measured has at least one byte and lies inside the message.
pub name_field_len-inside :
    (m : List ℕ) (offset n : ℕ) → name_field_len m offset ≡ ok n → (1 ≤ n) × (offset + n ≤ length m)
unfolding name_field_len
name_field_len-inside m offset n h = by_case (name_end m (length m) offset) refl h
  where
    by_case :
        (o : Result DnsError ℕ)
        → name_end m (length m) offset ≡ o
        → (if leb (length m) offset
            then err name_past_end
            else if is_pointer (byte m offset)
            then if leb (length m) (offset + 1) then err pointer_cut else ok 2
            else (o >>= λ pos. ok (pos - offset)))
          ≡ ok n
        → (1 ≤ n) × (offset + n ≤ length m)
    by_case (err e) x k = ground arith
    by_case (ok pos) x k = ground (arith, name_end-inside m (length m) offset pos x)

-- Of at most `left` records that lie one behind the other from `offset` on, the first of a type is the one
-- whose fixed fields start at the index.
pub data IsFirst (m : List ℕ) (record_type : ℕ) : ℕ → ℕ → ℕ → Type 0 where
  here :
      (left offset name_len : ℕ)
      → name_field_len m offset ≡ ok name_len
      → type_at m (offset + name_len) ≡ record_type
      → IsFirst m record_type (suc left) offset (offset + name_len)
  later :
      (left offset name_len fixed_start : ℕ)
      → name_field_len m offset ≡ ok name_len
      → type_at m (offset + name_len) ≢ record_type
      → IsFirst m record_type left
          (offset + name_len + 10 + rdlength_at m (offset + name_len))
          fixed_start
      → IsFirst m record_type (suc left) offset fixed_start

-- The data of the first record of a type among `left` of them, which lies inside the message.
pub record Found (m : List ℕ) (record_type left offset : ℕ) (rdata : List ℕ) : Type 0 where
  pub fixed_start : ℕ
  pub first : IsFirst m record_type left offset fixed_start
  pub inside : fixed_start + 10 + rdlength_at m fixed_start ≤ length m
  pub is_rdata : rdata ≡ rdata_at m fixed_start
  pub has_length : length rdata ≡ rdlength_at m fixed_start

module _ (m : List ℕ) (record_type start : ℕ) where
  rdata_length :
      (rdata : List ℕ)
      → start + 10 + rdlength_at m start ≤ length m
      → rdata ≡ rdata_at m start
      → length rdata ≡ rdlength_at m start
  rdata_length rdata inside e =
      ap length e
      ∙ length-take (rdlength_at m start) (drop (start + 10) m)
      ∙ ap (λ t. min (rdlength_at m start) t) (length-drop (start + 10) m)
      ∙ ground arith

  -- A round of the loop returns the data of this record, or goes on behind it.
  visit_answer-cases :
      (rest : Result DnsError (List ℕ)) (rdata : List ℕ)
      → visit_answer m record_type start rest ≡ ok rdata
      → ((type_at m start ≡ record_type)
          × (start + 10 + rdlength_at m start ≤ length m)
          × (rdata ≡ rdata_at m start))
        ⊎ ((type_at m start ≢ record_type) × (rest ≡ ok rdata))
  visit_answer-cases rest rdata h = elim (Bool-cases (ltb (length m) (start + 10))) [
    | inl a ↦ cc (rw a at h)
    | inr a ↦ elim (Bool-cases (ltb (length m) (start + 10 + rdlength_at m start))) [
      | inl b ↦ cc (rw (a, b) at h)
      | inr b ↦ elim (Bool-cases (type_at m start == record_type)) [
        | inl c ↦ inl (ground arith, ground arith, sym (ok_inj (rw (a, b, c) at h)))
        | inr c ↦ inr (λ e. ground arith, rw (a, b, c) at h)
      ]
    ]
  ]

module _ (m : List ℕ) (record_type left offset name_len : ℕ)
    (named : name_field_len m offset ≡ ok name_len) where
  abbrev start : ℕ
  start = offset + name_len

  Found-here :
      (rdata : List ℕ)
      → type_at m start ≡ record_type
      → start + 10 + rdlength_at m start ≤ length m
      → rdata ≡ rdata_at m start
      → Found m record_type (suc left) offset rdata
  Found-here rdata has_type inside is_rdata = record {
    fixed_start = start;
    first = here left offset name_len named has_type;
    inside = inside;
    is_rdata = is_rdata;
    has_length = rdata_length m record_type start rdata inside is_rdata;
  }

  Found-later :
      (rdata : List ℕ)
      → type_at m start ≢ record_type
      → Found m record_type left (start + 10 + rdlength_at m start) rdata
      → Found m record_type (suc left) offset rdata
  Found-later rdata other r = record {
    fixed_start = r.fixed_start;
    first = later left offset name_len r.fixed_start named other r.first;
    inside = r.inside;
    is_rdata = r.is_rdata;
    has_length = r.has_length;
  }

find_record-Found :
    (m : List ℕ) (record_type left offset : ℕ) (rdata : List ℕ)
    → find_record m record_type left offset ≡ ok rdata
    → Found m record_type left offset rdata
unfolding find_record
find_record-Found m record_type zero offset rdata h = cc
find_record-Found m record_type (suc left) offset rdata h =
    by_case (λ next. find_record-Found m record_type left next rdata) (name_field_len m offset) refl
      h
  where
    by_case :
        ((next : ℕ)
          → find_record m record_type left next ≡ ok rdata
          → Found m record_type left next rdata)
        → (o : Result DnsError ℕ) → name_field_len m offset ≡ o
        → (o >>= λ name_len. visit_answer m record_type (offset + name_len) (
            find_record m record_type left
              (offset + name_len + 10 + rdlength_at m (offset + name_len))))
          ≡ ok rdata
        → Found m record_type (suc left) offset rdata
    by_case further (err e) x k = cc
    by_case further (ok name_len) x k =
        let next = offset + name_len + 10 + rdlength_at m (offset + name_len) in
        elim (visit_answer-cases m record_type (offset + name_len)
          (find_record m record_type left next) rdata k) [
            | inl (has_type, inside, is_rdata) ↦
                Found-here m record_type left offset name_len x rdata has_type inside is_rdata
            | inr (other, searched) ↦
                Found-later m record_type left offset name_len x rdata other (further next searched)
          ]

-- The number of answers that a message announces.
abbrev pub ancount : List ℕ → ℕ
ancount m = be16 (byte m 6) (byte m 7)

-- An IPv4 address that a reply yields is the four bytes of data of the first A record among the announced
-- ones, which lie one behind the other from the end of the question on: each is a name, ten bytes of fixed
-- fields and as many bytes of data as these say. The record lies inside the message.
pub parse_first_a_record-Found :
    (m : List ℕ) (question_len : ℕ) (ip : List ℕ)
    → parse_first_a_record m question_len ≡ ok ip
    → (length ip ≡ 4) × Found m dns_type_a (ancount m) (12 + question_len) ip
unfolding parse_first_a_record find_first_record_rdata
parse_first_a_record-Found m question_len ip h =
    by_case (find_first_record_rdata m question_len dns_type_a) refl h
  where
    by_case :
        (o : Result DnsError (List ℕ))
        → find_first_record_rdata m question_len dns_type_a ≡ o
        → of_length no_a_record 4 o ≡ ok ip
        → (length ip ≡ 4) × Found m dns_type_a (ancount m) (12 + question_len) ip
    by_case (err e) x k = cc
    by_case (ok rdata) x k =
        let rdata_ip : rdata ≡ ip = ground arith in
        let searched : find_record m dns_type_a (ancount m) (12 + question_len) ≡ ok rdata =
          ground arith in
        let found = find_record-Found m dns_type_a (ancount m) (12 + question_len) rdata searched in
        (ground arith, rw rdata_ip at found)
