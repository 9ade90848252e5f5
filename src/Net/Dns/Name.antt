-- ===== src/Net/Dns/Name.antt =====
-- The encoding of a host name, and its length as a reader measures it.
use iaos.Prelude.{
  append_nil, append_assoc, ℕ, zero, suc, ◌+◌, ◌-◌, ◌≤◌, ◌<◌, ◌≡◌, refl, ap, sym, ◌∙◌, inl, inr,
  false, not, List, [], ◌∷◌, ◌++◌, arith, length, length-append, byte, ltb, leb, ◌==◌, u8, Result,
  ok, err, ok_inj, ◌>>=◌, Bool-cases, all_below, all_below_sound,
}
use iaos.Net.Dns.{
  encode_labels, encode_qname, name_end, name_field_len, is_pointer, split_dots, DnsError,
}

-- A label of 1 to 63 bytes.
abbrev pub IsLabel : List ℕ → Type 0
IsLabel l = (1 ≤ length l) × (length l ≤ 63)

abbrev pub AreLabels : List (List ℕ) → Type 0
AreLabels [] = Unit
AreLabels (l ∷ ls) = IsLabel l × AreLabels ls

-- The labels, each after its length.
abbrev pub wire : List (List ℕ) → List ℕ
wire [] = []
wire (l ∷ ls) = length l ∷ (l ++ wire ls)

-- What the encoder has emitted.
pub record Encoded (ls : List (List ℕ)) (encoded_len : ℕ) (out r : List ℕ) : Type 0 where
  pub appends : r ≡ out ++ wire ls
  pub labels : AreLabels ls
  pub bounded : encoded_len ≤ 254 → encoded_len + length (wire ls) ≤ 254

encode_labels-Encoded :
    (ls : List (List ℕ)) (encoded_len : ℕ) (out r : List ℕ)
    → encode_labels ls encoded_len out ≡ ok r
    → Encoded ls encoded_len out r
unfolding encode_labels
encode_labels-Encoded [] encoded_len out r h = record {
  appends = ground (arith, append_nil out);
  labels = tt;
  bounded = λ e. omega arith;
}
encode_labels-Encoded (l ∷ ls) encoded_len out r h = elim (Bool-cases (length l == 0)) [
  | inl a ↦ cc (rw (a, encode_labels) at h)
  | inr a ↦ elim (Bool-cases (ltb 63 (length l))) [
    | inl b ↦ cc (rw (a, b, encode_labels) at h)
    | inr b ↦ elim (Bool-cases (ltb 255 (encoded_len + (1 + length l) + 1))) [
      | inl c ↦ cc (rw (a, b, c, encode_labels) at h)
      | inr c ↦
          let rest =
            encode_labels-Encoded ls (encoded_len + (1 + length l)) (out ++ (u8 (length l) ∷ l)) r
              (rw (a, b, c, encode_labels) at h) in
          let narrow : u8 (length l) ≡ length l = ground arith in
          record {
            appends =
                rest.appends
                ∙ append_assoc out (u8 (length l) ∷ l) (wire ls)
                ∙ ap (λ t. out ++ (t ∷ (l ++ wire ls))) narrow;
            labels = ((ground arith, ground arith), rest.labels);
            bounded = λ e. ground (arith, rest.bounded, length-append l (wire ls));
          }
    ]
  ]
]

-- The byte after a prefix.
byte-append : (xs ys : List ℕ) → byte (xs ++ ys) (length xs) ≡ byte ys 0
byte-append [] ys = refl
byte-append (x ∷ xs) ys = byte-append xs ys

small_not_pointer : (b : ℕ) → b < 64 → is_pointer b ≡ false
unfolding all_below
small_not_pointer b h = ground (arith, all_below_sound 64 (λ x. not (is_pointer x)) b refl h)

-- One round of the measuring loop.
module _ (m : List ℕ) (fuel pos b : ℕ) (inside : pos < length m) (e : byte m pos ≡ b)
    (small : b < 64) where
  end_round : b ≡ 0 → name_end m (suc fuel) pos ≡ ok (pos + 1)
  unfolding name_end
  end_round z = rw (e, small_not_pointer b small) (ground arith)

  label_round : 0 < b → name_end m (suc fuel) pos ≡ name_end m fuel (pos + (1 + b))
  unfolding name_end
  label_round pos_b = rw (e, small_not_pointer b small) (ground arith)

-- The measuring loop, at the start of encoded labels.
name_end-wire :
    (ls : List (List ℕ)) (pre rest m : List ℕ) (pos fuel : ℕ)
    → m ≡ pre ++ (wire ls ++ (0 ∷ rest))
    → pos ≡ length pre
    → AreLabels ls
    → length ls < fuel
    → name_end m fuel pos ≡ ok (pos + length (wire ls) + 1)
name_end-wire ls pre rest m pos zero e p h f = absurd (omega arith)
name_end-wire [] pre rest m pos (suc fuel) e p h f =
    end_round m fuel pos 0 (rw e (omega (arith, length-append pre (0 ∷ rest))))
      (rw (e, p) (byte-append pre (0 ∷ rest))) (omega arith) refl
    ∙ ap (λ n. ok n) (omega arith)
name_end-wire (l ∷ ls) pre rest m pos (suc fuel) e p h f =
    label_round m fuel pos (length l)
      (rw e (omega (arith, length-append pre (length l ∷ ((l ++ wire ls) ++ (0 ∷ rest))))))
      (rw (e, p) (byte-append pre (length l ∷ ((l ++ wire ls) ++ (0 ∷ rest)))))
      (omega (arith, h.0.1)) (omega (arith, h.0.0))
    ∙ name_end-wire ls (pre ++ (length l ∷ l)) rest m (pos + (1 + length l)) fuel
        (e
          ∙ ap (λ t. pre ++ (length l ∷ t)) (append_assoc l (wire ls) (0 ∷ rest))
          ∙ sym (append_assoc pre (length l ∷ l) (wire ls ++ (0 ∷ rest))))
        (omega (arith, p, length-append pre (length l ∷ l))) h.1 (omega arith)
    ∙ ap (λ n. ok n) (omega (arith, length-append l (wire ls)))

wire-length : (ls : List (List ℕ)) → length ls ≤ length (wire ls)
wire-length [] = omega arith
wire-length (l ∷ ls) = omega (arith, wire-length ls, length-append l (wire ls))

first_small :
    (ls : List (List ℕ)) (rest : List ℕ) → AreLabels ls → byte (wire ls ++ (0 ∷ rest)) 0 < 64
first_small [] rest h = omega arith
first_small (l ∷ ls) rest h = omega (arith, h.0.1)

pub record IsQname (hostname out r : List ℕ) : Type 0 where
  pub appends : r ≡ out ++ (wire (split_dots hostname) ++ (0 ∷ []))
  pub labels : AreLabels (split_dots hostname)
  pub bounded : length r ≤ length out + 255

-- A host name that is accepted has labels of 1 to 63 bytes between its dots; they are appended,
-- each after its length, with a 0 after the last, which is at most 255 bytes in all.
pub encode_qname-IsQname :
    (hostname out r : List ℕ) → encode_qname hostname out ≡ ok r → IsQname hostname out r
unfolding encode_qname
encode_qname-IsQname hostname out r h = elim (Bool-cases (length hostname == 0)) [
  | inl e ↦ cc (rw (e, encode_qname) at h)
  | inr e ↦ finish (encode_labels (split_dots hostname) 0 out) refl (rw (e, encode_qname) at h)
]
  where
    finish :
        (o : Result DnsError (List ℕ))
        → encode_labels (split_dots hostname) 0 out ≡ o
        → (o >>= λ encoded. ok (encoded ++ (0 ∷ []))) ≡ ok r
        → IsQname hostname out r
    finish (err x) e k = cc
    finish (ok encoded) e k =
        let all = encode_labels-Encoded (split_dots hostname) 0 out encoded e in
        let whole : r ≡ out ++ (wire (split_dots hostname) ++ (0 ∷ [])) =
          rw (← ok_inj k, all.appends) (append_assoc out (wire (split_dots hostname)) (0 ∷ [])) in
        record {
          appends = whole;
          labels = all.labels;
          bounded = rw whole (
              omega (
                arith,
                all.bounded,
                length-append out (wire (split_dots hostname) ++ (0 ∷ [])),
                length-append (wire (split_dots hostname)) (0 ∷ []),
              ));
        }

-- Of a host name that was encoded, behind any bytes and before any others, the exact length is
-- measured where it starts.
pub name_field_len-encode :
    (hostname out r rest : List ℕ)
    → encode_qname hostname out ≡ ok r
    → name_field_len (r ++ rest) (length out) ≡ ok (length r - length out)
unfolding name_field_len
name_field_len-encode hostname out r rest h =
    let q = encode_qname-IsQname hostname out r h in
    let ls = split_dots hostname in
    let whole : r ++ rest ≡ out ++ (wire ls ++ (0 ∷ rest)) =
      (ap (λ t. t ++ rest) q.appends
        ∙ append_assoc out (wire ls ++ (0 ∷ [])) rest
        ∙ ap (λ t. out ++ t) (append_assoc (wire ls) (0 ∷ []) rest)) in
    let first : byte (r ++ rest) (length out) < 64 =
      rw (whole, byte-append out (wire ls ++ (0 ∷ rest))) (first_small ls rest q.labels) in
    let inside : length out + length (wire ls) < length (r ++ rest) = rw whole (
      omega
        (arith, length-append out (wire ls ++ (0 ∷ rest)), length-append (wire ls) (0 ∷ rest))) in
    let size : length r ≡ length out + length (wire ls) + 1 =
      rw q.appends (
        omega (arith, length-append out (wire ls ++ (0 ∷ [])), length-append (wire ls) (0 ∷ []))) in
    let past : leb (length (r ++ rest)) (length out) ≡ false = ground arith in
    rw
      (
        past,
        small_not_pointer (byte (r ++ rest) (length out)) first,
        name_end-wire ls out rest (r ++ rest) (length out) (length (r ++ rest)) whole refl q.labels
            (omega (arith, wire-length ls)),
      )
      (ap (λ n. ok n) (omega arith))
