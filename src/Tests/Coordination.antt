-- ===== src/Tests/Coordination.antt =====
-- A coordinator of one network, 10.0.0.0/24 and fdab:3f19::/48, that two devices join.
use over_mesh.Common.{
  ◌↔◌, ℕ, ◌*◌, ◌^◌, ◌<◌, ◌≡◌, ◌≢◌, refl, arith, true, false, List, [], ◌∷◌, some, none, err,
  Pairwise, length, find, has_key,
}
use over_mesh.Net.{v4, v6}
use over_mesh.Key.{node_string}
use over_mesh.Store.Nodes.{Node, Nodes, hostname_taken}
use over_mesh.Store.SetupKeys.{Network, SetupKey}
use over_mesh.Coord.Signals.{new_signals}
use over_mesh.Coord.Names.{sanitize_hostname, dedupe_hostname}
use over_mesh.Coord.Names.Labels.{IsLabel, sanitize_hostname-IsLabel}
use over_mesh.Coord.Names.Dedupe.{dedupe_hostname-free, dedupe_hostname_overlong}
use over_mesh.Coord.AclCompile.{overlay_cidrs}
use over_mesh.Coord.Engine.{Peer, Setup, Coordinator, net_map_in, build_net_map}
use over_mesh.Coord.Engine.Register.{Request, register, diverged}
use over_mesh.Coord.Engine.Addresses.{Apart}
use over_mesh.Coord.Engine.Netmaps.{peer_id, IsPeer, build_net_map-IsPeer}
use over_mesh.Coord.Engine.Reachable.{
  IsEmpty, Reach, start, next, registers, Reach-Apart, register_ends,
}

abbrev cfg : Setup
cfg = record {
  text = record { to_string = λ a. []; parse_prefix = λ s. none };
  prefix_to_string = λ p. [];
  is_addr_port = λ s. true;
  stun_servers = [];
  relays = [];
  dns_base = [];
}

abbrev network : Network
network = record {
  id = 1;
  name = b'n' ∷ [];
  v4_prefix = record { addr = v4 0x0a000000; bits = 24 };
  v6_prefix = record { addr = v6 (0xfdab3f19 * 2 ^ 96); bits = 48 };
}

abbrev join_key : SetupKey
join_key = record {
  id = 1;
  network = 1;
  key = b'k' ∷ [];
  reusable = true;
  revoked = false;
  expires_at = 0;
  used_count = 0;
  created_at = 0;
  owner_user_id = 0;
}

abbrev with_table : Nodes → Coordinator
with_table nodes = record {
  signals = new_signals nodes;
  networks = network ∷ [];
  keys = record { rows = join_key ∷ []; next_id = 2 };
  routes = [];
  rules = record { rows = []; next_id = 1 };
  users = record { rows = []; next_id = 1 };
  audit = [];
  ipams = [];
  subs = [];
  streams = [];
  next_stream = 0;
  online = [];
  seq = [];
  pushes = 0;
  panicked = false;
}

abbrev empty : Coordinator
empty = with_table (record { rows = []; next_id = 1 })

empty-IsEmpty : IsEmpty empty
empty-IsEmpty = record {
  no_nodes = refl;
  no_ipams = refl;
  ranges = (
    record {
      x = 0x0a000000;
      n = 24;
      y = 0xfdab3f19 * 2 ^ 96;
      m = 48;
      fits = omega arith;
      v4_is = refl;
      v6_is = refl;
    },
    tt,
  );
}

abbrev joins : ℕ → Request
joins k = record {
  mkey = k ∷ [];
  nkey = k ∷ [];
  setup_key = b'k' ∷ [];
  hostname = b'p' ∷ b'c' ∷ [];
  os_name = [];
  routes = [];
}

abbrev one : Coordinator
one = (register cfg 0 (joins 1) empty).1

Reach-one : Reach cfg one
Reach-one = next (start empty-IsEmpty) (registers 0 (joins 1))

Reach-Apart_example : Pairwise Apart (register cfg 0 (joins 2) one).1.signals.nodes.rows
Reach-Apart_example = Reach-Apart cfg (next Reach-one (registers 0 (joins 2)))

register_ends_example : (register cfg 0 (joins 2) one).0 ≢ err diverged
register_ends_example = register_ends cfg 0 (joins 2) Reach-one

abbrev row : ℕ → List ℕ → List ℕ → Node
row id name nkey = record {
  id = id;
  network_id = 1;
  hostname = name;
  machine_key = id ∷ [];
  node_key = nkey;
  ipv4 = v4 id;
  ipv6 = v6 id;
  os = [];
  endpoints = [];
  created_at = 0;
  last_seen = 0;
  owner_user_id = 0;
}

sanitize_hostname-IsLabel_example :
    IsLabel (sanitize_hostname (b' ' ∷ b'M' ∷ b'y' ∷ b' ' ∷ b'P' ∷ b'!' ∷ []))
sanitize_hostname-IsLabel_example =
    sanitize_hostname-IsLabel (b' ' ∷ b'M' ∷ b'y' ∷ b' ' ∷ b'P' ∷ b'!' ∷ [])

abbrev repeat : ℕ → List ℕ → List ℕ
repeat n rest = elim n as (λ _. List ℕ) [ ℕ.zero ↦ rest | ℕ.suc (k → more) ↦ b'a' ∷ more ]

abbrev long_name : List ℕ
long_name = repeat 63 []

abbrev crowded : Nodes
crowded = record { rows = row 1 long_name [] ∷ []; next_id = 2 }

dedupe_hostname-free_example :
    (name : List ℕ) × (dedupe_hostname 1 long_name crowded ≡ some name)
    × (hostname_taken 1 name crowded ≡ false)
dedupe_hostname-free_example = dedupe_hostname-free 1 long_name crowded

dedupe_hostname_overlong_example : 63 < length (dedupe_hostname-free 1 long_name crowded).0
dedupe_hostname_overlong_example =
    dedupe_hostname_overlong 1 long_name crowded refl refl
      (dedupe_hostname-free 1 long_name crowded).1

abbrev other : Node
other = row 2 (b'b' ∷ []) (node_string (repeat 32 []))

abbrev pair : Coordinator
pair = with_table (record { rows = row 1 (b'a' ∷ []) [] ∷ other ∷ []; next_id = 3 })

made_run :
    build_net_map cfg pair (row 1 (b'a' ∷ []) [])
    ≡ some (net_map_in cfg pair (row 1 (b'a' ∷ []) []) network)
unfolding build_net_map
made_run = refl

abbrev other_peer : Peer
other_peer = record {
  node_id = 2;
  hostname = other.hostname;
  node_key = repeat 32 [];
  overlay_ips = overlay_cidrs cfg.text other;
  endpoints = other.endpoints;
  online = false;
  allowed_routes = [];
}

build_net_map-IsPeer_example :
    (find (has_key peer_id 2) (net_map_in cfg pair (row 1 (b'a' ∷ []) []) network).peers
      ≡ some other_peer)
    ↔ IsPeer cfg pair (row 1 (b'a' ∷ []) []) 2 other_peer
build_net_map-IsPeer_example =
    build_net_map-IsPeer cfg pair (row 1 (b'a' ∷ []) []) 2 other_peer
      (((λ e. omega (arith, e)), tt), (tt, tt)) made_run
