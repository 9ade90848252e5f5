-- ===== src/Net/Dns/Examples.antt =====
-- The name `a.bc`, and a reply with its address.
use iaos.Prelude.{ℕ, ◌+◌, ◌-◌, ◌≤◌, ◌≡◌, refl, List, [], ◌∷◌, ◌++◌, length, ok, arith}
use iaos.Net.Dns.{
  encode_qname, encode_labels, name_end, name_field_len, find_record, find_first_record_rdata,
  parse_first_a_record, dns_type_a,
}
use iaos.Net.Dns.Name.{IsQname, encode_qname-IsQname, name_field_len-encode}
use iaos.Net.Dns.Answer.{
  Found, ancount, parse_first_a_record-Found, name_field_len-inside, name_end-fuel,
}

abbrev hostname : List ℕ
hostname = 97 ∷ 46 ∷ 98 ∷ 99 ∷ []

abbrev prefix : List ℕ
prefix = 7 ∷ []

abbrev encoded : List ℕ
encoded = 7 ∷ 1 ∷ 97 ∷ 2 ∷ 98 ∷ 99 ∷ 0 ∷ []

encode_run : encode_qname hostname (7 ∷ []) ≡ ok encoded
unfolding encode_qname encode_labels
encode_run = refl

encode_qname-IsQname_example : IsQname hostname (7 ∷ []) encoded
encode_qname-IsQname_example = encode_qname-IsQname hostname (7 ∷ []) encoded encode_run

name_field_len-encode_example :
    name_field_len (encoded ++ (1 ∷ 2 ∷ [])) (length prefix) ≡ ok (length encoded - length prefix)
name_field_len-encode_example =
    name_field_len-encode hostname prefix encoded (1 ∷ 2 ∷ []) encode_run

-- An alias record, and an address record behind it.
abbrev reply : List ℕ
reply =
    0 ∷ 1 ∷ 129 ∷ 128 ∷ 0 ∷ 1 ∷ 0 ∷ 2 ∷ 0 ∷ 0 ∷ 0 ∷ 0 ∷ 1 ∷ 97 ∷ 2 ∷ 98 ∷ 99 ∷ 0 ∷ 0 ∷ 1 ∷ 0 ∷ 1
    ∷ 192 ∷ 12 ∷ 0 ∷ 5 ∷ 0 ∷ 1 ∷ 0 ∷ 0 ∷ 0 ∷ 60 ∷ 0 ∷ 2 ∷ 192 ∷ 12 ∷ 192 ∷ 12 ∷ 0 ∷ 1 ∷ 0 ∷ 1 ∷ 0
    ∷ 0 ∷ 0 ∷ 60 ∷ 0 ∷ 4 ∷ 93 ∷ 184 ∷ 216 ∷ 34 ∷ []

abbrev address : List ℕ
address = 93 ∷ 184 ∷ 216 ∷ 34 ∷ []

parse_run : parse_first_a_record reply 10 ≡ ok (93 ∷ 184 ∷ 216 ∷ 34 ∷ [])
unfolding parse_first_a_record find_first_record_rdata find_record name_field_len name_end
parse_run = refl

parse_first_a_record-Found_example :
    (length address ≡ 4) × Found reply dns_type_a (ancount reply) (12 + 10) address
parse_first_a_record-Found_example = parse_first_a_record-Found reply 10 address parse_run

measure_run : name_field_len reply 12 ≡ ok 6
unfolding name_field_len name_end
measure_run = refl

name_field_len-inside_run : (1 ≤ 6) × (12 + 6 ≤ length reply)
name_field_len-inside_run = name_field_len-inside reply 12 6 measure_run

name_end-fuel_run : name_end reply 52 12 ≡ name_end reply 40 12
name_end-fuel_run = name_end-fuel reply 52 40 12 (omega arith) (omega arith)
