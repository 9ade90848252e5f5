-- ===== src/Net/Dns.antt =====
-- agentos-kernel/src/net/dns.rs: queries, and the search through the answers of a reply.
-- A host name and a message are lists of bytes. On an error the bytes that `encode_qname` has
-- appended so far are dropped, as its callers do.
pub mod Name
pub mod Answer
mod Examples
use iaos.Prelude.{
  ℕ, zero, suc, ◌+◌, ◌-◌, ◌*◌, ◌%◌, ◌/◌, ◌^◌, Bool, true, false, List, [], ◌∷◌, ◌++◌, length, byte,
  ltb, leb, ◌==◌, if◌then◌else◌, bit_and, u8, be16, be16_bytes, take, drop, Result, ok, err, ◌>>=◌,
  ◌>>◌,
}

abbrev pub dns_header_len : ℕ
dns_header_len = 12

abbrev pub dns_type_a : ℕ
dns_type_a = 1

abbrev pub dns_type_aaaa : ℕ
dns_type_aaaa = 28

abbrev pub max_label_len : ℕ
max_label_len = 63

abbrev pub max_qname_encoded_len : ℕ
max_qname_encoded_len = 255

pub data DnsError : Type 0 where
  hostname_is_empty empty_label label_too_long hostname_too_long : DnsError
  name_past_end name_runs_past_end pointer_cut name_label_too_long : DnsError
  too_short no_answers fixed_fields_cut rdata_cut not_found : DnsError
  no_a_record no_aaaa_record wrong_rdlength : DnsError

-- `hostname.split('.')`
abbrev pub prepend : ℕ → List (List ℕ) → List (List ℕ)
prepend c [] = (c ∷ []) ∷ []
prepend c (l ∷ ls) = (c ∷ l) ∷ ls

abbrev pub split_dots : List ℕ → List (List ℕ)
split_dots [] = [] ∷ []
split_dots (c ∷ cs) = let rest = split_dots cs in if c == 46 then [] ∷ rest else prepend c rest

-- The loop of `encode_qname`.
unfoldable pub encode_labels : List (List ℕ) → ℕ → List ℕ → Result DnsError (List ℕ)
encode_labels [] encoded_len out = ok out
encode_labels (label ∷ ls) encoded_len out =
    let rest =
      encode_labels ls (encoded_len + (1 + length label)) (out ++ (u8 (length label) ∷ label)) in
    if length label == 0
    then err empty_label
    else if ltb max_label_len (length label)
    then err label_too_long
    else if ltb max_qname_encoded_len (encoded_len + (1 + length label) + 1)
    then err hostname_too_long
    else rest

unfoldable pub encode_qname : List ℕ → List ℕ → Result DnsError (List ℕ)
encode_qname hostname out =
    if length hostname == 0
    then err hostname_is_empty
    else encode_labels (split_dots hostname) 0 out >>= λ encoded. ok (encoded ++ (0 ∷ []))

unfoldable pub build_query : ℕ → List ℕ → ℕ → Result DnsError (List ℕ)
build_query transaction_id hostname qtype =
    encode_qname hostname (be16_bytes transaction_id ++ 1 ∷ 0 ∷ 0 ∷ 1 ∷ 0 ∷ 0 ∷ 0 ∷ 0 ∷ 0 ∷ 0 ∷ [])
    >>= λ query. ok (query ++ be16_bytes qtype ++ be16_bytes 1)

-- `b & 0xC0 == 0xC0`
abbrev pub is_pointer : ℕ → Bool
is_pointer b = bit_and b 192 == 192

-- The loop of `name_field_len`, which ends at the end of the message at the latest: the final `pos`.
unfoldable pub name_end : List ℕ → ℕ → ℕ → Result DnsError ℕ
name_end message zero pos = err name_runs_past_end
name_end message (suc fuel) pos =
    let rest = name_end message fuel (pos + (1 + byte message pos)) in
    if leb (length message) pos
    then err name_runs_past_end
    else if is_pointer (byte message pos)
    then if leb (length message) (pos + 1) then err pointer_cut else ok (pos + 2)
    else if byte message pos == 0
    then ok (pos + 1)
    else if ltb max_label_len (byte message pos)
    then err name_label_too_long
    else rest

unfoldable pub name_field_len : List ℕ → ℕ → Result DnsError ℕ
name_field_len message offset =
    if leb (length message) offset
    then err name_past_end
    else if is_pointer (byte message offset)
    then if leb (length message) (offset + 1) then err pointer_cut else ok 2
    else name_end message (length message) offset >>= λ pos. ok (pos - offset)

-- The fields of one answer record, after its name.
abbrev pub type_at : List ℕ → ℕ → ℕ
type_at message fixed_start = be16 (byte message fixed_start) (byte message (fixed_start + 1))

abbrev pub rdlength_at : List ℕ → ℕ → ℕ
rdlength_at message fixed_start =
    be16 (byte message (fixed_start + 8)) (byte message (fixed_start + 9))

abbrev pub rdata_at : List ℕ → ℕ → List ℕ
rdata_at message fixed_start =
    take (rdlength_at message fixed_start) (drop (fixed_start + 10) message)

-- One round of the loop, past the name, before the `rest` of the rounds.
abbrev pub visit_answer : List ℕ → ℕ → ℕ → Result DnsError (List ℕ) → Result DnsError (List ℕ)
visit_answer message record_type fixed_start rest =
    if ltb (length message) (fixed_start + 10)
    then err fixed_fields_cut
    else if ltb (length message) (fixed_start + 10 + rdlength_at message fixed_start)
    then err rdata_cut
    else if type_at message fixed_start == record_type
    then ok (rdata_at message fixed_start)
    else rest

-- The loop over the answers, of which `left` are not visited.
unfoldable pub find_record : List ℕ → ℕ → ℕ → ℕ → Result DnsError (List ℕ)
find_record message record_type zero offset = err not_found
find_record message record_type (suc left) offset = name_field_len message offset >>= λ name_len.
    visit_answer message record_type (offset + name_len) (
      find_record message record_type left
        (offset + name_len + 10 + rdlength_at message (offset + name_len)))

unfoldable pub find_first_record_rdata : List ℕ → ℕ → ℕ → Result DnsError (List ℕ)
find_first_record_rdata message question_len record_type =
    let ancount = be16 (byte message 6) (byte message 7) in
    if ltb (length message) dns_header_len
    then err too_short
    else if ancount == 0
    then err no_answers
    else find_record message record_type ancount (dns_header_len + question_len)

-- `.map_err(…)` and the check of the length.
abbrev pub of_length : DnsError → ℕ → Result DnsError (List ℕ) → Result DnsError (List ℕ)
of_length missing size (err e) = err missing
of_length missing size (ok rdata) = if length rdata == size then ok rdata else err wrong_rdlength

unfoldable pub parse_first_a_record : List ℕ → ℕ → Result DnsError (List ℕ)
parse_first_a_record message question_len =
    of_length no_a_record 4 (find_first_record_rdata message question_len dns_type_a)

unfoldable pub parse_first_aaaa_record : List ℕ → ℕ → Result DnsError (List ℕ)
parse_first_aaaa_record message question_len =
    of_length no_aaaa_record 16 (find_first_record_rdata message question_len dns_type_aaaa)
