-- ===== src/Key/Texts.antt =====
-- The texts of keys read back.
use native.Mathlib.Nat.{div-add-mod}
use over_mesh.Common.{
  ℕ, ◌+◌, ◌*◌, ◌/◌, ◌%◌, ◌<◌, ◌≡◌, refl, ap, sym, ◌∙◌, true, false, List, [], ◌∷◌, ◌++◌, none, some,
  nat_beq, bytes_beq, bytes_beq_iff, length, take, drop, All, arith, length-append, length-drop,
  take-append-drop, nat_beq_iff, take-append_length, drop-append_length, Option-cases, Bool-cases,
  inl, inr, to_lower, lower_byte, of_some,
}
use over_mesh.Key.{
  machine_prefix, node_prefix, hex_digit, encode_hex, hex_value, decode_hex, unmarshal_prefixed,
  machine_string, node_string, unmarshal_machine, unmarshal_node,
}

abbrev pub Bytes : List ℕ → Type 0
Bytes bs = All (λ b. b < 256) bs

-- 32 bytes.
pub record IsKey (k : List ℕ) : Type 0 where
  pub size : length k ≡ 32
  pub bytes : Bytes k

hex_value-hex_digit : (n : ℕ) → n < 16 → hex_value (hex_digit n) ≡ some n
hex_value-hex_digit n h = ground arith

byte_parts : (b : ℕ) → b < 256 → (b / 16 < 16) × (b % 16 < 16) × (b / 16 * 16 + b % 16 ≡ b)
byte_parts b h = (omega (arith, h), omega arith, omega (arith, div-add-mod b 16))

pub decode_hex-encode_hex : (k : List ℕ) → Bytes k → decode_hex (encode_hex k) ≡ some k
decode_hex-encode_hex [] h = refl
decode_hex-encode_hex (b ∷ bs) h =
    let (hi, lo, whole) = byte_parts b h.0 in
    rw
      (
        hex_value-hex_digit (b / 16) hi,
        hex_value-hex_digit (b % 16) lo,
        decode_hex-encode_hex bs h.1,
      )
      (ap (λ (x : ℕ). some (x ∷ bs)) whole)

pub length-encode_hex : (k : List ℕ) → length (encode_hex k) ≡ 2 * length k
length-encode_hex [] = refl
length-encode_hex (b ∷ bs) = omega (arith, length-encode_hex bs)

pub unmarshal_prefixed-encode_hex :
    (prefix k : List ℕ) → IsKey k → unmarshal_prefixed prefix (prefix ++ encode_hex k) ≡ some k
unfolding unmarshal_prefixed
unmarshal_prefixed-encode_hex prefix k key =
    let size : nat_beq (length (prefix ++ encode_hex k)) (length prefix + 64) ≡ true =
      ground (arith, length-append prefix (encode_hex k), length-encode_hex k, key.size) in
    let same : bytes_beq (take (length prefix) (prefix ++ encode_hex k)) prefix ≡ true =
      (bytes_beq_iff _ _).1 (take-append_length prefix (encode_hex k)) in
    rw (size, same, drop-append_length prefix (encode_hex k)) (decode_hex-encode_hex k key.bytes)

unmarshal_prefixed-size :
    (prefix s : List ℕ) (n : ℕ)
    → length s ≡ n
    → nat_beq n (length prefix + 64) ≡ false
    → unmarshal_prefixed prefix s ≡ none
unfolding unmarshal_prefixed
unmarshal_prefixed-size prefix s n size off = rw (size, off) refl

length-string : (prefix k : List ℕ) → IsKey k → length (prefix ++ encode_hex k) ≡ length prefix + 64
length-string prefix k key =
    omega (arith, length-append prefix (encode_hex k), length-encode_hex k, key.size)

-- The text of a key is read back as that key by the kind of key that wrote it, and the other kind
-- refuses it.
pub unmarshal_machine-machine_string :
    (k : List ℕ)
    → IsKey k
    → (unmarshal_machine (machine_string k) ≡ some k)
      × (unmarshal_node (node_string k) ≡ some k)
      × (unmarshal_node (machine_string k) ≡ none)
      × (unmarshal_machine (node_string k) ≡ none)
unmarshal_machine-machine_string k key = (
  unmarshal_prefixed-encode_hex machine_prefix k key,
  unmarshal_prefixed-encode_hex node_prefix k key,
  unmarshal_prefixed-size node_prefix (machine_string k) 69 (length-string machine_prefix k key)
      refl,
  unmarshal_prefixed-size machine_prefix (node_string k) 72 (length-string node_prefix k key) refl,
)

hex_digit-hex_value : (c n : ℕ) → hex_value c ≡ some n → (n < 16) × (hex_digit n ≡ lower_byte c)
hex_digit-hex_value c n e = ground arith

-- What is decoded are bytes, and their text is the one that was read, with lower-case digits.
pub encode_hex-decode_hex :
    (s : List ℕ) {k : List ℕ} → decode_hex s ≡ some k → Bytes k × (encode_hex k ≡ to_lower s)
encode_hex-decode_hex [] {k} e = rw (← of_some e) (tt, refl)
encode_hex-decode_hex (c ∷ []) e = cc
encode_hex-decode_hex (c ∷ d ∷ cs) {k} e = elim (Option-cases (hex_value c)) [
  | inl bad ↦ cc
  | inr (h, high) ↦ elim (Option-cases (hex_value d)) [
    | inl bad ↦ ground (arith, rw (high, bad) at e)
    | inr (l, low) ↦ elim (Option-cases (decode_hex cs)) [
      | inl bad ↦ ground (arith, rw (high, low, bad) at e)
      | inr (rest, more) ↦
          let is : some ((h * 16 + l) ∷ rest) ≡ some k = rw (high, low, more) at e in
          let (small, digit) = hex_digit-hex_value c h high in
          let (small', digit') = hex_digit-hex_value d l low in
          let (bytes, same) = encode_hex-decode_hex cs {k = rest} more in
          let q : (h * 16 + l) / 16 ≡ h = omega (arith, small') in
          let r : (h * 16 + l) % 16 ≡ l = omega (arith, small') in
          rw (← of_some is)
            ((omega (arith, small, small'), bytes), rw (q, r, digit, digit', same) refl)
    ]
  ]
]

pub length-to_lower : (s : List ℕ) → length (to_lower s) ≡ length s
length-to_lower [] = refl
length-to_lower (c ∷ cs) = omega (arith, length-to_lower cs)

digits_of_key :
    (k s prefix : List ℕ)
    → encode_hex k ≡ to_lower (drop (length prefix) s)
    → length s ≡ length prefix + 64
    → length k ≡ 32
digits_of_key k s prefix same size = omega (
  arith,
  length-encode_hex k,
  ap length same,
  length-to_lower (drop (length prefix) s),
  length-drop (length prefix) s,
  size,
)

-- The texts that are accepted are the prefix followed by 64 hexadecimal digits, the key that is read
-- has 32 bytes, and its own text is what was read with the digits in lower case.
pub unmarshal_prefixed-canonical :
    (prefix s : List ℕ) {k : List ℕ}
    → unmarshal_prefixed prefix s ≡ some k
    → IsKey k
      × (s ≡ prefix ++ drop (length prefix) s)
      × (prefix ++ encode_hex k ≡ prefix ++ to_lower (drop (length prefix) s))
unfolding unmarshal_prefixed
unmarshal_prefixed-canonical prefix s {k} e =
    elim (Bool-cases (nat_beq (length s) (length prefix + 64))) [
      | inr off ↦ cc
      | inl size ↦ elim (Bool-cases (bytes_beq (take (length prefix) s) prefix)) [
        | inr other ↦ let refused : none ≡ some k = rw (size, other) at e in cc
        | inl same ↦
            let decoded : decode_hex (drop (length prefix) s) ≡ some k = rw (size, same) at e in
            let (bytes, digits) = encode_hex-decode_hex (drop (length prefix) s) decoded in
            let start : take (length prefix) s ≡ prefix = (bytes_beq_iff _ _).0 same in
            let text : prefix ++ drop (length prefix) s ≡ s =
              ap (λ (x : List ℕ). x ++ drop (length prefix) s) (sym start)
              ∙ take-append-drop (length prefix) s in
            (
              record {
                size =
                    digits_of_key k s prefix digits
                      ((nat_beq_iff (length s) (length prefix + 64)).0 size);
                bytes = bytes;
              },
              sym text,
              ap (λ (x : List ℕ). prefix ++ x) digits,
            )
      ]
    ]
