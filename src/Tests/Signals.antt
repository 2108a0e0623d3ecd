-- ===== src/Tests/Signals.antt =====
-- Two devices of one network that signal to each other, and the routes of the first.
use over_mesh.Common.{ℕ, ◌≡◌, true, List, [], ◌∷◌, nat_eq}
use over_mesh.Net.{v4, v6}
use over_mesh.Store.Nodes.{Node, Nodes}
use over_mesh.Store.Routes.{
  RouteRow, route_state, set_advertised_routes, route_state-set_advertised_routes,
}
use over_mesh.Coord.Signals.{Signals, new_signals, signal_subscribe}
use over_mesh.Coord.Signals.Channels.{IsCalm, Reach, start, next, subscribes, Reach-IsCalm}

abbrev device : ℕ → Node
device id = record {
  id = id;
  network_id = 1;
  hostname = [];
  machine_key = id ∷ [];
  node_key = [];
  ipv4 = v4 id;
  ipv6 = v6 id;
  os = [];
  endpoints = [];
  created_at = 0;
  last_seen = 0;
  owner_user_id = 0;
}

abbrev devices : Nodes
devices = record { rows = device 1 ∷ device 2 ∷ []; next_id = 3 }

abbrev listening : Signals
listening = (signal_subscribe (2 ∷ []) (new_signals devices)).1

Reach-listening : Reach listening
Reach-listening = next (start devices) (subscribes (2 ∷ []))

Reach-IsCalm_example : IsCalm listening
Reach-IsCalm_example = Reach-IsCalm Reach-listening

abbrev approved : List RouteRow
approved = record { node_id = 1; route = 10 ∷ []; approved = true } ∷ []

route_state-set_advertised_routes_example :
    route_state 1 (10 ∷ []) (set_advertised_routes 1 ((20 ∷ []) ∷ (10 ∷ []) ∷ []) approved)
    ≡ route_state 1 (10 ∷ []) approved
unfolding route_state
route_state-set_advertised_routes_example =
    route_state-set_advertised_routes 1 1 (10 ∷ []) ((20 ∷ []) ∷ (10 ∷ []) ∷ []) approved
