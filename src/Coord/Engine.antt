-- ===== src/Coord/Engine.antt =====
-- internal/coord/coord.go: the coordinator's state, and the netmaps that it computes and pushes. The
-- mutex makes each method one step. SQL statements do not fail but where a constraint is violated.
pub mod Devices
pub mod Register
pub mod Streams
pub mod Netmaps
pub mod Addresses
pub mod Soundness
pub mod Deletion
pub mod Renaming
pub mod Joining
pub mod Reachable
use over_mesh.Common.{
  ℕ, ◌+◌, Bool, true, false, not, ◌&&◌, List, [], ◌∷◌, ◌++◌, map, Option, none, some, ltb, nat_beq,
  nat_eq, bytes_beq, if◌then◌else◌, length, lookup, insert, delete, select, gather, contains,
}
use over_mesh.Net.{Addr, Prefix}
use over_mesh.Ipam.{Allocator}
use over_mesh.Key.{unmarshal_node}
use over_mesh.Store.Nodes.{Node, Nodes, row_id, nodes_in_network}
use over_mesh.Store.SetupKeys.{Network, SetupKeys, network_by_id}
use over_mesh.Store.Routes.{RouteRow}
use over_mesh.Store.Acl.{AclTable}
use over_mesh.Store.Users.{Users}
use over_mesh.Coord.AclCompile.{AddrText, FilterRule, overlay_cidrs, compile_filter_for_node}
use over_mesh.Coord.Signals.{Signals, new_signals}

-- The messages `Node`, `Peer` and `NetMap`.
pub record SelfNode : Type 0 where
  pub node_id : ℕ
  pub hostname : List ℕ
  pub network_name : List ℕ
  pub overlay_ips : List (List ℕ)
  pub approved_routes : List (List ℕ)

pub record Peer : Type 0 where
  pub node_id : ℕ
  pub hostname : List ℕ
  pub node_key : List ℕ
  pub overlay_ips : List (List ℕ)
  pub endpoints : List (List ℕ)
  pub online : Bool
  pub allowed_routes : List (List ℕ)

pub record NetMap : Type 0 where
  pub seq : ℕ
  pub stun_servers : List (List ℕ)
  pub relays : List (List ℕ)
  pub filter : List FilterRule
  pub filter_enabled : Bool
  pub self : SelfNode
  pub dns_domain : Option (List ℕ)
  pub peers : List Peer

-- A channel of netmaps, and the node that it was made for.
pub record Stream : Type 0 where
  pub node : ℕ
  pub queue : List NetMap
  pub is_open : Bool

pub record Event : Type 0 where
  pub actor : List ℕ
  pub action : List ℕ
  pub target : List ℕ
  pub detail : List ℕ

-- What is set at startup, and net/netip's reading and printing of prefixes and of endpoints.
pub record Setup : Type 0 where
  pub text : AddrText
  pub prefix_to_string : Prefix → List ℕ
  pub is_addr_port : List ℕ → Bool
  pub stun_servers : List (List ℕ)
  pub relays : List (List ℕ)
  pub dns_base : List ℕ

-- `signals` holds the table of the nodes and the signal inboxes, the fields from `networks` to
-- `audit` are the rest of the database, and the others are in memory. A channel stays in `streams`
-- under its number when `subs` no longer names it. `panicked` is that one of these channels was
-- closed again or sent on after it was closed.
pub record Coordinator : Type 0 where
  pub signals : Signals
  pub networks : List Network
  pub keys : SetupKeys
  pub routes : List RouteRow
  pub rules : AclTable
  pub users : Users
  pub audit : List Event
  pub ipams : List (ℕ × Allocator)
  pub subs : List (ℕ × ℕ)
  pub streams : List (ℕ × Stream)
  pub next_stream : ℕ
  pub online : List (ℕ × Bool)
  pub seq : List (ℕ × ℕ)
  pub pushes : ℕ
  pub panicked : Bool

-- `New` on the database of `c`: what is in memory is empty.
abbrev pub restarted : Coordinator → Coordinator
restarted c = record c {
  signals = new_signals c.signals.nodes;
  ipams = [];
  subs = [];
  streams = [];
  next_stream = 0;
  online = [];
  seq = [];
  pushes = 0;
  panicked = false;
}

abbrev pub with_nodes : Nodes → Coordinator → Coordinator
with_nodes t c = record c { signals = record c.signals { nodes = t } }

-- `make(chan *overmeshv1.NetMap, 8)`
abbrev pub stream_cap : ℕ
stream_cap = 8

abbrev pub or_zero : Option ℕ → ℕ
or_zero none = 0
or_zero (some n) = n

abbrev pub or_false : Option Bool → Bool
or_false none = false
or_false (some b) = b

-- `c.seq[id]` and `c.online[id]`
abbrev pub seq_of : ℕ → Coordinator → ℕ
seq_of network c = or_zero (lookup network c.seq)

abbrev pub is_online : ℕ → Coordinator → Bool
is_online id c = or_false (lookup id c.online)

-- `ORDER BY route`: the order of the bytes.
abbrev pub bytes_le : List ℕ → List ℕ → Bool
bytes_le [] ys = true
bytes_le (x ∷ xs) [] = false
bytes_le (x ∷ xs) (y ∷ ys) = if nat_beq x y then bytes_le xs ys else ltb x y

abbrev pub put_route : RouteRow → List RouteRow → List RouteRow
put_route r [] = r ∷ []
put_route r (q ∷ rows) =
    let rest = put_route r rows in if bytes_le r.route q.route then r ∷ q ∷ rows else q ∷ rest

abbrev pub by_route : List RouteRow → List RouteRow
by_route [] = []
by_route (r ∷ rows) = put_route r (by_route rows)

abbrev pub node_routes : ℕ → List RouteRow → List RouteRow
node_routes id rows = by_route (select (λ r. nat_beq r.node_id id) rows)

abbrev pub approved_node_routes : ℕ → List RouteRow → List (List ℕ)
approved_node_routes id rows = map (λ r. r.route) (select (λ r. r.approved) (node_routes id rows))

abbrev pub dns_domain : List ℕ → List ℕ → Option (List ℕ)
dns_domain base name = if bytes_beq base [] then none else some (name ++ b'.' ∷ base)

abbrev pub put_stream : ℕ → Stream → Coordinator → Coordinator
put_stream i s c = record c { streams = insert i s c.streams }

abbrev pub send_open : ℕ → NetMap → Option Stream → Coordinator → Coordinator
send_open i nm none c = c
send_open i nm (some s) c =
    if not s.is_open
    then record c { panicked = true }
    else if ltb (length s.queue) stream_cap
    then record c {
      streams = insert i (record s { queue = s.queue ++ nm ∷ [] }) c.streams;
      pushes = c.pushes + 1;
    }
    else c

-- The `select` with the send on a channel.
unfoldable pub push_map : ℕ → NetMap → Coordinator → Coordinator
push_map i nm c = send_open i nm (lookup i c.streams) c

abbrev pub push_built : ℕ → Option NetMap → Coordinator → Coordinator
push_built i none c = c
push_built i (some nm) c = push_map i nm c

-- `close` of a channel
abbrev pub close_open : ℕ → Option Stream → Coordinator → Coordinator
close_open i none c = c
close_open i (some s) c =
    if s.is_open
    then put_stream i (record s { is_open = false }) c
    else record c { panicked = true }

abbrev pub close_stream : ℕ → Coordinator → Coordinator
close_stream i c = close_open i (lookup i c.streams) c

abbrev pub close_named : Option ℕ → Coordinator → Coordinator
close_named none c = c
close_named (some old) c = close_stream old c

module _ (cfg : Setup) where
  -- One turn of the loop over the nodes: `none` where it goes on without adding a peer.
  abbrev pub keyed_peer : Coordinator → Node → Option (List ℕ) → Option Peer
  keyed_peer c p none = none
  keyed_peer c p (some nkey) = some (record {
    node_id = p.id;
    hostname = p.hostname;
    node_key = nkey;
    overlay_ips = overlay_cidrs cfg.text p;
    endpoints = p.endpoints;
    online = is_online p.id c;
    allowed_routes = approved_node_routes p.id c.routes;
  })

  unfoldable pub peer_of : Coordinator → Node → Node → Option Peer
  peer_of c n p = if nat_beq p.id n.id then none else keyed_peer c p (unmarshal_node p.node_key)

  abbrev pub net_map_in : Coordinator → Node → Network → NetMap
  net_map_in c n nw =
      let nodes = nodes_in_network n.network_id c.signals.nodes in
      let (rules, enabled) = compile_filter_for_node cfg.text c.rules c.signals.nodes n in
      record {
        seq = seq_of n.network_id c;
        stun_servers = cfg.stun_servers;
        relays = cfg.relays;
        filter = rules;
        filter_enabled = enabled;
        self = record {
          node_id = n.id;
          hostname = n.hostname;
          network_name = nw.name;
          overlay_ips = overlay_cidrs cfg.text n;
          approved_routes = approved_node_routes n.id c.routes;
        };
        dns_domain = dns_domain cfg.dns_base nw.name;
        peers = gather (peer_of c n) nodes;
      }

  abbrev pub built : Coordinator → Node → Option Network → Option NetMap
  built c n none = none
  built c n (some nw) = some (net_map_in c n nw)

  -- `none` for the error that the node's network is missing.
  unfoldable pub build_net_map : Coordinator → Node → Option NetMap
  build_net_map c n = built c n (network_by_id n.network_id c.networks)

  abbrev pub push_named : Node → Option ℕ → Coordinator → Coordinator
  push_named n none c = c
  push_named n (some i) c = push_built i (build_net_map c n) c

  abbrev pub push_all : List Node → Coordinator → Coordinator
  push_all [] c = c
  push_all (n ∷ nodes) c = push_all nodes (push_named n (lookup n.id c.subs) c)

  unfoldable pub notify_network : ℕ → Coordinator → Coordinator
  notify_network network c =
      let counted = record c { seq = insert network (seq_of network c + 1) c.seq } in
      push_all (nodes_in_network network c.signals.nodes) counted

-- `OnlineCount`: an entry of the map that is behind another one with its key is not of the map.
abbrev pub online_from : List ℕ → List (ℕ × Bool) → ℕ
online_from seen [] = 0
online_from seen ((id, up) ∷ rest) =
    let others = online_from (id ∷ seen) rest in
    if contains seen id then others else if up then others + 1 else others

unfoldable pub online_count : Coordinator → ℕ
online_count c = online_from [] c.online
