-- ===== src/Tests/Keys.antt =====
-- A key whose bytes are 0 to 31.
use over_mesh.Common.{
  ℕ, ◌≡◌, refl, List, [], ◌∷◌, ◌++◌, some, none, drop, length, to_lower, nat_eq, arith,
}
use over_mesh.Key.{
  machine_prefix, machine_string, node_string, unmarshal_machine, unmarshal_node, encode_hex,
  priv_from_hex, new_clamped,
}
use over_mesh.Key.Texts.{IsKey, unmarshal_machine-machine_string, unmarshal_prefixed-canonical}
use over_mesh.Key.Clamp.{IsClamped, priv_from_hex-new_clamped}

abbrev bytes : List ℕ
bytes =
    0 ∷ 1 ∷ 2 ∷ 3 ∷ 4 ∷ 5 ∷ 6 ∷ 7 ∷ 8 ∷ 9 ∷ 10 ∷ 11 ∷ 12 ∷ 13 ∷ 14 ∷ 15 ∷ 16 ∷ 17 ∷ 18 ∷ 19 ∷ 20
    ∷ 21 ∷ 22 ∷ 23 ∷ 24 ∷ 25 ∷ 26 ∷ 27 ∷ 28 ∷ 29 ∷ 30 ∷ 31 ∷ []

bytes-IsKey : IsKey bytes
bytes-IsKey = record { size = refl; bytes = ground arith }

unmarshal_machine-machine_string_example :
    (unmarshal_machine (machine_string bytes) ≡ some bytes)
    × (unmarshal_node (node_string bytes) ≡ some bytes)
    × (unmarshal_node (machine_string bytes) ≡ none)
    × (unmarshal_machine (node_string bytes) ≡ none)
unmarshal_machine-machine_string_example = unmarshal_machine-machine_string bytes bytes-IsKey

unmarshal_prefixed-canonical_example :
    IsKey bytes
    × (machine_string bytes ≡ machine_prefix ++ drop (length machine_prefix) (machine_string bytes))
    × (machine_prefix ++ encode_hex bytes
        ≡ machine_prefix ++ to_lower (drop (length machine_prefix) (machine_string bytes)))
unmarshal_prefixed-canonical_example =
    unmarshal_prefixed-canonical machine_prefix (machine_string bytes)
      (unmarshal_machine-machine_string bytes bytes-IsKey).0

priv_from_hex-new_clamped_example :
    IsClamped (new_clamped bytes)
    × (priv_from_hex (encode_hex (new_clamped bytes)) ≡ some (new_clamped bytes))
priv_from_hex-new_clamped_example = priv_from_hex-new_clamped bytes bytes-IsKey
