-- ===== src/Key.antt =====
-- internal/key/key.go: the keys and their texts. A key is the list of its 32 bytes, a text is the
-- list of its bytes. `rand.Read` is the argument of `new_clamped`; `ScalarBaseMult`, which gives the
-- public keys, is not under the repository and nothing here depends on it.
pub mod Texts
pub mod Clamp
use over_mesh.Common.{
  ℕ, zero, suc, ◌+◌, ◌-◌, ◌*◌, ◌/◌, ◌%◌, Bool, not, ◌&&◌, ◌||◌, List, [], ◌∷◌, ◌++◌, Option, none,
  some, ltb, leb, nat_beq, bytes_beq, if◌then◌else◌, length, take, drop,
}

-- "mkey:" and "nodekey:"
abbrev pub machine_prefix : List ℕ
machine_prefix = b'm' ∷ b'k' ∷ b'e' ∷ b'y' ∷ b':' ∷ []

abbrev pub node_prefix : List ℕ
node_prefix = b'n' ∷ b'o' ∷ b'd' ∷ b'e' ∷ b'k' ∷ b'e' ∷ b'y' ∷ b':' ∷ []

-- `hex.EncodeToString`
abbrev pub hex_digit : ℕ → ℕ
hex_digit n = if ltb n 10 then b'0' + n else b'a' + (n - 10)

abbrev pub encode_hex : List ℕ → List ℕ
encode_hex [] = []
encode_hex (b ∷ bs) = hex_digit (b / 16) ∷ hex_digit (b % 16) ∷ encode_hex bs

abbrev pub hex_value : ℕ → Option ℕ
hex_value c =
    if leb b'0' c && leb c b'9'
    then some (c - b'0')
    else if leb b'a' c && leb c b'f'
    then some (c - b'a' + 10)
    else if leb b'A' c && leb c b'F'
    then some (c - b'A' + 10)
    else none

abbrev pub decoded_pair : Option ℕ → Option ℕ → Option (List ℕ) → Option (List ℕ)
decoded_pair (some h) (some l) (some rest) = some ((h * 16 + l) ∷ rest)
decoded_pair _ _ _ = none

-- `hex.DecodeString`: an even number of digits, in either case.
abbrev pub decode_hex : List ℕ → Option (List ℕ)
decode_hex [] = some []
decode_hex (c ∷ []) = none
decode_hex (c ∷ d ∷ cs) = decoded_pair (hex_value c) (hex_value d) (decode_hex cs)

unfoldable pub unmarshal_prefixed : List ℕ → List ℕ → Option (List ℕ)
unmarshal_prefixed prefix s =
    if not (nat_beq (length s) (length prefix + 64))
      || not (bytes_beq (take (length prefix) s) prefix)
    then none
    else decode_hex (drop (length prefix) s)

-- `String` and `UnmarshalText` of the machine's and of the node's public key.
abbrev pub machine_string : List ℕ → List ℕ
machine_string k = machine_prefix ++ encode_hex k

abbrev pub node_string : List ℕ → List ℕ
node_string k = node_prefix ++ encode_hex k

abbrev pub unmarshal_machine : List ℕ → Option (List ℕ)
unmarshal_machine b = unmarshal_prefixed machine_prefix b

abbrev pub unmarshal_node : List ℕ → Option (List ℕ)
unmarshal_node b = unmarshal_prefixed node_prefix b

-- `MachinePublicFromBytes` and `NodePublicFromBytes`
abbrev pub public_from_bytes : List ℕ → Option (List ℕ)
public_from_bytes b = if not (nat_beq (length b) 32) then none else some b

abbrev pub of_length_32 : Option (List ℕ) → Option (List ℕ)
of_length_32 none = none
of_length_32 (some raw) = if not (nat_beq (length raw) 32) then none else some raw

unfoldable pub priv_from_hex : List ℕ → Option (List ℕ)
priv_from_hex s = of_length_32 (decode_hex s)

-- `f` on the byte at the index.
abbrev pub at_index : ℕ → (ℕ → ℕ) → List ℕ → List ℕ
at_index i f [] = []
at_index zero f (b ∷ bs) = f b ∷ bs
at_index (suc i) f (b ∷ bs) = b ∷ at_index i f bs

-- `&= 248`, `&= 127` and `|= 64` on bytes.
abbrev pub and_248 : ℕ → ℕ
and_248 b = b / 8 * 8

abbrev pub and_127 : ℕ → ℕ
and_127 b = b % 128

abbrev pub or_64 : ℕ → ℕ
or_64 b = if nat_beq (b / 64 % 2) 0 then b + 64 else b

-- `random` are the 32 bytes that `rand.Read` gave.
unfoldable pub new_clamped : List ℕ → List ℕ
new_clamped random = at_index 31 or_64 (at_index 31 and_127 (at_index 0 and_248 random))
