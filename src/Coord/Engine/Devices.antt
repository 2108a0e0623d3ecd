-- ===== src/Coord/Engine/Devices.antt =====
-- internal/coord/coord.go: the allocators, the streams of the devices, and what is changed on a device
-- that is known. `now` is in seconds.
use over_mesh.Common.{
  ℕ, ◌+◌, Bool, true, false, not, List, [], ◌∷◌, map, Option, none, some, Result, ok, err, nat_beq,
  nat_eq, if◌then◌else◌, lookup, insert, delete, select, any, trim_space,
}
use over_mesh.Net.{Addr, Prefix, masked}
use over_mesh.Ipam.{Allocator, Error, new, mark_used, release}
use over_mesh.Key.{machine_string}
use over_mesh.Store.Nodes.{
  Node, nodes_in_network, node_by_machine_key, node_by_id, delete_node, update_node_endpoints,
  touch_node,
}
use over_mesh.Store.SetupKeys.{Network, network_by_id}
use over_mesh.Store.Routes.{RouteRow, set_route_approved}
use over_mesh.Coord.Signals.{drop_inbox}
use over_mesh.Coord.Engine.{
  Setup, Coordinator, NetMap, with_nodes, notify_network, build_net_map, close_named, close_stream,
}

abbrev pub put_alloc : ℕ → Allocator → Coordinator → Coordinator
put_alloc network a c = record c { ipams = insert network a c.ipams }

abbrev pub seeded : ℕ → Result Error Allocator → Coordinator → Result Error Allocator × Coordinator
seeded network (err e) c = (err e, c)
seeded network (ok a) c =
    let marked = mark_used (map (λ n. n.ipv4) (nodes_in_network network c.signals.nodes)) a in
    (ok marked, put_alloc network marked c)

abbrev pub cached : Network → Option Allocator → Coordinator → Result Error Allocator × Coordinator
cached nw (some a) c = (ok a, c)
cached nw none c = seeded nw.id (new (some nw.v4_prefix) (some nw.v6_prefix)) c

unfoldable pub allocator_for : Network → Coordinator → Result Error Allocator × Coordinator
allocator_for nw c = cached nw (lookup nw.id c.ipams) c

-- `store.NormalizeRoute`
abbrev pub shown_prefix : Setup → Option Prefix → Option (List ℕ)
shown_prefix cfg none = none
shown_prefix cfg (some p) = some (cfg.prefix_to_string (masked p))

unfoldable pub normalize_route : Setup → List ℕ → Option (List ℕ)
normalize_route cfg route = shown_prefix cfg (cfg.text.parse_prefix (trim_space route))

abbrev pub first_map : Option NetMap → List NetMap
first_map none = []
first_map (some nm) = nm ∷ []

-- The new channel: the send on it does not wait, since it is empty.
abbrev pub opened : Node → Coordinator → Coordinator
opened n c = record c {
  streams = insert c.next_stream (record { node = n.id; queue = []; is_open = true }) c.streams;
  next_stream = c.next_stream + 1;
  subs = insert n.id c.next_stream c.subs;
  online = insert n.id true c.online;
}

abbrev pub touched : ℕ → ℕ → Coordinator → Coordinator
touched now id c = with_nodes (touch_node now id c.signals.nodes) c

-- The rows that refer to a deleted node are deleted with it.
abbrev pub removed : ℕ → Coordinator → Coordinator
removed id c =
    let gone = with_nodes (delete_node id c.signals.nodes).1 c in
    record gone { routes = select (λ r. not (nat_beq r.node_id id)) c.routes }

abbrev pub drop_stream : ℕ → Option ℕ → Coordinator → Coordinator
drop_stream id none c = c
drop_stream id (some ch) c =
    let closed = close_stream ch c in record closed { subs = delete id closed.subs }

abbrev pub kicked : ℕ → Coordinator → Coordinator
kicked id c =
    let dropped = drop_stream id (lookup id c.subs) c in
    record dropped {
      signals = drop_inbox id (lookup id dropped.signals.sig_subs) dropped.signals;
      online = delete id dropped.online;
    }

abbrev pub free_in : Network → Addr → Result Error Allocator × Coordinator → Coordinator
free_in nw addr (err e, c) = c
free_in nw addr (ok a, c) = put_alloc nw.id (release addr a) c

abbrev pub freed : Node → Option Network → Coordinator → Coordinator
freed n none c = c
freed n (some nw) c = free_in nw n.ipv4 (allocator_for nw c)

module _ (cfg : Setup) where
  abbrev pub primed : ℕ → Node → Coordinator → Coordinator
  primed ch n c = record c {
    streams =
        insert ch
          (record { node = n.id; queue = first_map (build_net_map cfg c n); is_open = true })
          c.streams;
  }

  abbrev pub subscribe_node : ℕ → Option Node → Coordinator → Option (Node × ℕ) × Coordinator
  subscribe_node now none c = (none, c)
  subscribe_node now (some n) c =
      let closed = close_named (lookup n.id c.subs) c in
      let ch = closed.next_stream in
      (
        some (n, ch),
        notify_network cfg n.network_id (primed ch n (touched now n.id (opened n closed))),
      )

  -- The node and its new channel; `none` for a machine key that is not registered.
  unfoldable pub subscribe : ℕ → List ℕ → Coordinator → Option (Node × ℕ) × Coordinator
  subscribe now mkey c =
      subscribe_node now (node_by_machine_key (machine_string mkey) c.signals.nodes) c

  abbrev pub drop_sub : ℕ → Node → ℕ → Option ℕ → Coordinator → Coordinator
  drop_sub now n ch none c = c
  drop_sub now n ch (some cur) c =
      if nat_beq cur ch
      then notify_network cfg n.network_id (
          touched now n.id
            (record c { subs = delete n.id c.subs; online = insert n.id false c.online }))
      else c

  -- The function that `Subscribe` returns.
  unfoldable pub unsubscribe : ℕ → Node → ℕ → Coordinator → Coordinator
  unsubscribe now n ch c = drop_sub now n ch (lookup n.id c.subs) c

  abbrev pub delete_found : ℕ → Option Node → Coordinator → Bool × Coordinator
  delete_found id none c = (false, c)
  delete_found id (some n) c =
      let gone = kicked id (removed id c) in
      (
        true,
        notify_network cfg n.network_id (freed n (network_by_id n.network_id gone.networks) gone),
      )

  -- Whether there was such a node.
  unfoldable pub delete_device : ℕ → Coordinator → Bool × Coordinator
  delete_device id c = delete_found id (node_by_id id c.signals.nodes) c

  abbrev pub endpoints_of : List (List ℕ) → Option Node → Coordinator → Bool × Coordinator
  endpoints_of eps none c = (false, c)
  endpoints_of eps (some n) c = if any (λ e. not (cfg.is_addr_port e)) eps then (false, c) else (
    true,
    notify_network cfg n.network_id (with_nodes (update_node_endpoints n.id eps c.signals.nodes) c),
  )

  unfoldable pub update_endpoints : List ℕ → List (List ℕ) → Coordinator → Bool × Coordinator
  update_endpoints mkey eps c =
      endpoints_of eps (node_by_machine_key (machine_string mkey) c.signals.nodes) c

  abbrev pub approval_notified : Node → Bool × List RouteRow → Coordinator → Bool × Coordinator
  approval_notified n (false, rows) c = (false, c)
  approval_notified n (true, rows) c =
      (true, notify_network cfg n.network_id (record c { routes = rows }))

  abbrev pub approve_in : Bool → Option Node → Option (List ℕ) → Coordinator → Bool × Coordinator
  approve_in approved none norm c = (false, c)
  approve_in approved (some n) none c = (false, c)
  approve_in approved (some n) (some norm) c =
      approval_notified n (set_route_approved n.id norm approved c.routes) c

  unfoldable pub approve_route : ℕ → List ℕ → Bool → Coordinator → Bool × Coordinator
  approve_route id route approved c =
      approve_in approved (node_by_id id c.signals.nodes) (normalize_route cfg route) c
