-- ===== src/Magicsock/Bind/Endpoints.antt =====
-- The text of a relay endpoint is read back.
use over_mesh.Common.{
  bytes_beq_iff, take-append-drop, ℕ, sym, ◌∙◌, ◌≡◌, refl, ap, Bool, true, List, ◌++◌, Option, none,
  some, nat_beq, nat_beq_iff, bytes_beq, length, take, drop, to_lower, Bool-cases, inl, inr,
}
use over_mesh.Key.{decode_hex}
use over_mesh.Key.Texts.{IsKey, decode_hex-encode_hex, encode_hex-decode_hex}
use over_mesh.Magicsock.Bind.{
  relayed, direct, relay_endpoint_prefix, relay_endpoint_string, relay_of, parse_endpoint,
}

relay_of-relayed :
    (o : Option (List ℕ)) {k : List ℕ}
    → relay_of o ≡ some (relayed k)
    → (o ≡ some k) × (length k ≡ 32)
relay_of-relayed none e = cc
relay_of-relayed (some raw) {k} e = elim (Bool-cases (nat_beq (length raw) 32)) [
  | inr off ↦ let refused : none ≡ some (relayed k) = rw off at e in cc
  | inl size ↦
      let is : some (relayed raw) ≡ some (relayed k) = rw size at e in
      let same : raw ≡ k = cc in (ap some same, rw (← same) ((nat_beq_iff (length raw) 32).0 size))
]

-- The text of a relay endpoint is read as the endpoint of that key, and a text that is read as one is
-- "relay:" followed by 64 hexadecimal digits, which are those of its key in either case.
pub parse_endpoint-relay_endpoint_string :
    (is_addr_port : List ℕ → Bool) (k s : List ℕ) {j : List ℕ}
    → IsKey k
    → parse_endpoint is_addr_port s ≡ some (relayed j)
    → (parse_endpoint is_addr_port (relay_endpoint_string k) ≡ some (relayed k))
      × IsKey j
      × (relay_endpoint_string j
          ≡ relay_endpoint_prefix ++ to_lower (drop (length relay_endpoint_prefix) s))
      × (s ≡ relay_endpoint_prefix ++ drop (length relay_endpoint_prefix) s)
unfolding parse_endpoint
parse_endpoint-relay_endpoint_string is_addr_port k s {j} key e =
    let size : nat_beq (length k) 32 ≡ true = (nat_beq_iff (length k) 32).1 key.size in
    let rest = drop (length relay_endpoint_prefix) s in
    let read : parse_endpoint is_addr_port (relay_endpoint_string k) ≡ some (relayed k) =
      rw (decode_hex-encode_hex k key.bytes, size) refl in
    elim (Bool-cases (bytes_beq (take (length relay_endpoint_prefix) s) relay_endpoint_prefix)) [
      | inl here ↦
          let is : relay_of (decode_hex rest) ≡ some (relayed j) = rw here at e in
          let (decoded, whole) = relay_of-relayed (decode_hex rest) is in
          let (bytes, same) = encode_hex-decode_hex rest decoded in
          (
            read,
            record { size = whole; bytes = bytes },
            ap (λ (x : List ℕ). relay_endpoint_prefix ++ x) same,
            sym (take-append-drop (length relay_endpoint_prefix) s)
                ∙ ap (λ (x : List ℕ). x ++ rest)
                    ((bytes_beq_iff (take (length relay_endpoint_prefix) s) relay_endpoint_prefix).0
                      here),
          )
      | inr other ↦ elim (Bool-cases (is_addr_port s)) [
        | inl addr ↦ let is : some (direct s) ≡ some (relayed j) = rw (other, addr) at e in cc
        | inr bad ↦ let is : none ≡ some (relayed j) = rw (other, bad) at e in cc
      ]
    ]
