-- ===== src/Coord/Engine/Register.antt =====
-- internal/coord/coord.go: `Register`. `now` is in nanoseconds.
use over_mesh.Common.{
  ℕ, ◌/◌, not, ◌&&◌, List, [], ◌∷◌, ◌++◌, Option, none, some, Result, ok, err, ltb, nat_beq, nat_eq,
  bytes_beq, bytes_eq, if◌then◌else◌, length, contains, decimal,
}
use over_mesh.Net.{Addr}
use over_mesh.Ipam.{Allocator, Error, allocate_v4, allocate_v6_for, release}
use over_mesh.Key.{machine_string, node_string}
use over_mesh.Store.Nodes.{
  Node, Nodes, create_node, node_by_machine_key, hostname_taken, update_node_ipv6,
  update_node_on_register,
}
use over_mesh.Store.SetupKeys.{Network, KeyError, network_by_id, use_setup_key}
use over_mesh.Store.Routes.{set_advertised_routes}
use over_mesh.Store.Users.{Users, User, UserError, user_by_id}
use over_mesh.Coord.Names.{sanitize_hostname, dedupe_hostname}
use over_mesh.Coord.Engine.{Setup, Coordinator, with_nodes, notify_network}
use over_mesh.Coord.Engine.Devices.{put_alloc, allocator_for, normalize_route}

-- `diverged` is that a loop ran out of the model's fuel.
pub data RegisterError : Type 0 where
  bad_route network_missing key_required database diverged : RegisterError
  refused : KeyError → RegisterError
  unallocated : Error → RegisterError

abbrev pub Registered : Type 0
Registered = Result RegisterError (Node × Network) × Coordinator

-- `normalizeRoutes`, with the routes that were seen.
abbrev pub next_route :
    Option (List ℕ) → List (List ℕ) → Option (List (List ℕ)) → Option (List (List ℕ))
next_route none seen rest = none
next_route (some norm) seen none = none
next_route (some norm) seen (some rest) = some (if contains seen norm then rest else norm ∷ rest)

abbrev pub seen_with : Option (List ℕ) → List (List ℕ) → List (List ℕ)
seen_with none seen = seen
seen_with (some norm) seen = norm ∷ seen

abbrev pub routes_from : Setup → List (List ℕ) → List (List ℕ) → Option (List (List ℕ))
routes_from cfg seen [] = some []
routes_from cfg seen (r ∷ routes) =
    let norm = normalize_route cfg r in
    next_route norm seen (routes_from cfg (seen_with norm seen) routes)

unfoldable pub normalize_routes : Setup → List (List ℕ) → Option (List (List ℕ))
normalize_routes cfg routes = routes_from cfg [] routes

-- "admin", "user#", "device.key-rotated", "device.register", "os=", " ip=" and "node"
abbrev admin_name : List ℕ
admin_name = b'a' ∷ b'd' ∷ b'm' ∷ b'i' ∷ b'n' ∷ []

abbrev user_number : List ℕ
user_number = b'u' ∷ b's' ∷ b'e' ∷ b'r' ∷ b'#' ∷ []

abbrev device_dot : List ℕ
device_dot = b'd' ∷ b'e' ∷ b'v' ∷ b'i' ∷ b'c' ∷ b'e' ∷ b'.' ∷ []

abbrev key_rotated : List ℕ
key_rotated =
    device_dot ++ b'k' ∷ b'e' ∷ b'y' ∷ b'-' ∷ b'r' ∷ b'o' ∷ b't' ∷ b'a' ∷ b't' ∷ b'e' ∷ b'd' ∷ []

abbrev device_register : List ℕ
device_register = device_dot ++ b'r' ∷ b'e' ∷ b'g' ∷ b'i' ∷ b's' ∷ b't' ∷ b'e' ∷ b'r' ∷ []

abbrev os_is : List ℕ
os_is = b'o' ∷ b's' ∷ b'=' ∷ []

abbrev ip_is : List ℕ
ip_is = b' ' ∷ b'i' ∷ b'p' ∷ b'=' ∷ []

abbrev pub default_name : List ℕ
default_name = b'n' ∷ b'o' ∷ b'd' ∷ b'e' ∷ []

abbrev name_of : ℕ → Result UserError User → List ℕ
name_of id (ok u) = u.username
name_of id (err e) = user_number ++ decimal id

unfoldable pub owner_name : Users → ℕ → List ℕ
owner_name users id = if nat_beq id 0 then admin_name else name_of id (user_by_id id users)

-- What a device sends, its keys as bytes and its name cleaned.
pub record Request : Type 0 where
  pub mkey : List ℕ
  pub nkey : List ℕ
  pub setup_key : List ℕ
  pub hostname : List ℕ
  pub os_name : List ℕ
  pub routes : List (List ℕ)

abbrev pub audited : List ℕ → List ℕ → List ℕ → List ℕ → Coordinator → Coordinator
audited actor action target detail c = record c {
  audit =
      c.audit ++ record { actor = actor; action = action; target = target; detail = detail } ∷ [];
}

abbrev pub kept_name : Request → Node → Nodes → List ℕ
kept_name q n t =
    if not (bytes_beq q.hostname []) && not (bytes_beq q.hostname n.hostname)
    then (if hostname_taken n.network_id q.hostname t then n.hostname else q.hostname)
    else n.hostname

abbrev pub rotation : Request → Node → Coordinator → Coordinator
rotation q n c =
    if not (bytes_beq n.node_key (node_string q.nkey))
    then audited (owner_name c.users n.owner_user_id) key_rotated n.hostname [] c
    else c

abbrev pub new_row : Request → Network → ℕ → Addr → List ℕ → Node
new_row q nw owner addr4 name = record {
  id = 0;
  network_id = nw.id;
  hostname = name;
  machine_key = machine_string q.mkey;
  node_key = node_string q.nkey;
  ipv4 = addr4;
  ipv6 = addr4;
  os = q.os_name;
  endpoints = [];
  created_at = 0;
  last_seen = 0;
  owner_user_id = owner;
}

abbrev pub offered_new : Request → ℕ → Coordinator → Coordinator
offered_new q id c =
    if ltb 0 (length q.routes)
    then record c { routes = set_advertised_routes id q.routes c.routes }
    else c

abbrev pub wanted_name : Request → List ℕ
wanted_name q = if bytes_beq q.hostname [] then default_name else q.hostname

module _ (cfg : Setup) where
  abbrev pub welcome_back : Node → Option Network → Coordinator → Registered
  welcome_back n none c = (err network_missing, c)
  welcome_back n (some nw) c = (ok (n, nw), notify_network cfg n.network_id c)

  abbrev pub register_known : Request → Node → Coordinator → Registered
  register_known q n c =
      let name = kept_name q n c.signals.nodes in
      let nkey = node_string q.nkey in
      let logged = rotation q n c in
      let updated =
        with_nodes (update_node_on_register n.id nkey name q.os_name c.signals.nodes) logged in
      let offered = record updated { routes = set_advertised_routes n.id q.routes c.routes } in
      welcome_back (record n { node_key = nkey; hostname = name; os = q.os_name })
        (network_by_id n.network_id c.networks) offered

  -- With the row in the table: the IPv6 address, the routes, the audit line and the netmaps.
  abbrev pub numbered_v6 :
      Request → Network → ℕ → Node → Result Error Addr → Coordinator → Registered
  numbered_v6 q nw owner n (err e) c = (err (unallocated e), c)
  numbered_v6 q nw owner n (ok addr6) c =
      let addressed = with_nodes (update_node_ipv6 n.id addr6 c.signals.nodes) c in
      let logged =
        audited (owner_name c.users owner) device_register n.hostname
          (os_is ++ q.os_name ++ ip_is ++ cfg.text.to_string n.ipv4)
          (offered_new q n.id addressed) in
      (ok (record n { ipv6 = addr6 }, nw), notify_network cfg nw.id logged)

  abbrev pub inserted :
      Request → Network → ℕ → Allocator → Addr → Option Node × Nodes → Coordinator → Registered
  inserted q nw owner a addr4 (none, t) c = (err database, put_alloc nw.id (release addr4 a) c)
  inserted q nw owner a addr4 (some n, t) c =
      numbered_v6 q nw owner n (allocate_v6_for a n.id) (with_nodes t c)

  abbrev pub named :
      ℕ → Request → Network → ℕ → Allocator → Addr → Option (List ℕ) → Coordinator → Registered
  named now q nw owner a addr4 none c = (err diverged, c)
  named now q nw owner a addr4 (some name) c =
      inserted q nw owner a addr4
        (create_node (now / 1000000000) (new_row q nw owner addr4 name) c.signals.nodes) c

  abbrev pub addressed :
      ℕ → Request → Network → ℕ → Option (Result Error Addr × Allocator) → Coordinator → Registered
  addressed now q nw owner none c = (err diverged, c)
  addressed now q nw owner (some (err e, a)) c = (err (unallocated e), put_alloc nw.id a c)
  addressed now q nw owner (some (ok addr4, a)) c =
      let taken = put_alloc nw.id a c in
      named now q nw owner a addr4 (dedupe_hostname nw.id (wanted_name q) c.signals.nodes) taken

  abbrev pub allocated :
      ℕ → Request → Network → ℕ → Result Error Allocator × Coordinator → Registered
  allocated now q nw owner (err e, c) = (err (unallocated e), c)
  allocated now q nw owner (ok a, c) = addressed now q nw owner (allocate_v4 a) c

  abbrev pub admitted : ℕ → Request → Result KeyError (Network × ℕ) → Coordinator → Registered
  admitted now q (err e) c = (err (refused e), c)
  admitted now q (ok (nw, owner)) c = allocated now q nw owner (allocator_for nw c)

  abbrev pub register_new : ℕ → Request → Coordinator → Registered
  register_new now q c =
      let (r, keys) = use_setup_key c.networks now q.setup_key c.keys in
      if bytes_beq q.setup_key []
      then (err key_required, c)
      else admitted now q r (record c { keys = keys })

  abbrev pub known_or_new : ℕ → Request → Option Node → Coordinator → Registered
  known_or_new now q (some n) c = register_known q n c
  known_or_new now q none c = register_new now q c

  abbrev pub register_clean : ℕ → Request → Option (List (List ℕ)) → Coordinator → Registered
  register_clean now q none c = (err bad_route, c)
  register_clean now q (some routes) c =
      known_or_new now (record q { hostname = sanitize_hostname q.hostname; routes = routes })
        (node_by_machine_key (machine_string q.mkey) c.signals.nodes) c

  unfoldable pub register : ℕ → Request → Coordinator → Registered
  register now q c = register_clean now q (normalize_routes cfg q.routes) c
