-- ===== src/Tests/Sockets.antt =====
-- The socket.
use over_mesh.Common.{
  ℕ, ◌≡◌, refl, arith, Bool, false, List, [], ◌∷◌, ◌++◌, some, length, drop, to_lower,
}
use over_mesh.Key.Texts.{IsKey}
use over_mesh.Magicsock.Bind.{
  Bind, Packet, new_bind, open_bind, close_bind, deliver_relay_packet, receive_relay,
  parse_endpoint, relay_endpoint_string, relay_endpoint_prefix, relayed,
}
use over_mesh.Magicsock.Bind.Lifecycle.{
  start, next, opens, closes, delivers, drains, IsSteady, Reach-IsSteady,
}
use over_mesh.Magicsock.Bind.Endpoints.{parse_endpoint-relay_endpoint_string}

abbrev hello : Packet
hello = record { src = 9 ∷ []; payload = 1 ∷ 2 ∷ [] }

abbrev first_opened : Bind
first_opened = (open_bind (some 51820) new_bind).1

abbrev used : Bind
used = (receive_relay 1500 (deliver_relay_packet hello first_opened)).1

Reach-IsSteady_example : IsSteady (open_bind (some 51820) (close_bind used)).1
Reach-IsSteady_example = Reach-IsSteady (
    next
      (next (next (next (next start (opens (some 51820))) (delivers hello)) (drains 1500)) closes)
      (opens (some 51820)))

abbrev node_key : List ℕ
node_key =
    171 ∷ 1 ∷ 2 ∷ 3 ∷ 4 ∷ 5 ∷ 6 ∷ 7 ∷ 8 ∷ 9 ∷ 10 ∷ 11 ∷ 12 ∷ 13 ∷ 14 ∷ 15 ∷ 16 ∷ 17 ∷ 18 ∷ 19 ∷ 20
    ∷ 21 ∷ 22 ∷ 23 ∷ 24 ∷ 25 ∷ 26 ∷ 27 ∷ 28 ∷ 29 ∷ 30 ∷ 255 ∷ []

node_key-IsKey : IsKey node_key
node_key-IsKey = record { size = refl; bytes = ground arith }

abbrev no_address : List ℕ → Bool
no_address s = false

parse_endpoint-relay_endpoint_string_example :
    (parse_endpoint no_address (relay_endpoint_string node_key) ≡ some (relayed node_key))
    × IsKey node_key
    × (relay_endpoint_string node_key
        ≡ relay_endpoint_prefix
          ++ to_lower (drop (length relay_endpoint_prefix) (relay_endpoint_string node_key)))
    × (relay_endpoint_string node_key
        ≡ relay_endpoint_prefix
          ++ drop (length relay_endpoint_prefix) (relay_endpoint_string node_key))
unfolding parse_endpoint
parse_endpoint-relay_endpoint_string_example =
    parse_endpoint-relay_endpoint_string no_address node_key (relay_endpoint_string node_key)
      node_key-IsKey refl
