-- ===== src/Coord/Engine/Soundness.antt =====
-- What is true of the devices, and that the changes of a known device keep it.
use over_mesh.Common.{
  ℕ, ◌≡◌, ◌≢◌, refl, Bool, true, false, not, ◌&&◌, List, [], ◌∷◌, map, some, Result, ok, err, ltb,
  nat_beq, nat_beq_iff, nat_eq, bytes_beq, bytes_eq, bytes_beq_iff, All, count, lookup, insert,
  delete, arith, Bool-cases, Option-cases, Result-cases, inl, inr, any,
}
use over_mesh.Net.{addr_eq}
use over_mesh.Ipam.{Allocator, Error, new, mark_used}
use over_mesh.Ipam.Allocate.{IsValid}
use over_mesh.Ipam.Fresh.{new-IsValid, mark_used-IsValid}
use over_mesh.Store.Nodes.{
  Node, nodes_in_network, update_node, node_by_machine_key, node_by_id, update_node_endpoints,
  touch_node,
}
use over_mesh.Key.{machine_string}
use over_mesh.Store.Routes.{RouteRow, set_route_approved}
use over_mesh.Store.SetupKeys.{Network}
use over_mesh.Coord.Engine.{Setup, Coordinator, with_nodes, notify_network, close_named}
use over_mesh.Coord.Engine.Devices.{
  allocator_for, subscribe, unsubscribe, update_endpoints, approve_route, normalize_route, primed,
  touched, opened, approval_notified,
}
use over_mesh.Coord.Engine.Addresses.{Covers, IsSound, IsRange, put-IsSound}
use over_mesh.Coord.Engine.Addresses.Updates.{Keeps, quiet-IsSound}
use over_mesh.Coord.Engine.Addresses.Rows.{mark_used-Covers}
use over_mesh.Coord.Engine.Streams.{Kept, notify_network-Kept, close_named-Kept}

pub record Sound (c : Coordinator) : Type 0 where
  pub apart : IsSound c.signals.nodes c.ipams
  pub ranges : All IsRange c.networks

pub Kept-Sound : (c c' : Coordinator) → Kept c c' → Sound c → Sound c'
Kept-Sound c c' (s, n, i) v = record { apart = rw (s, i) v.apart; ranges = rw n v.ranges }

pub notify-Sound :
    (cfg : Setup) (network : ℕ) (c : Coordinator) → Sound c → Sound (notify_network cfg network c)
notify-Sound cfg network c v =
    Kept-Sound c (notify_network cfg network c) (notify_network-Kept cfg network c) v

new_allocator-IsValid :
    (nw : Network) {a : Allocator}
    → IsRange nw
    → new (some nw.v4_prefix) (some nw.v6_prefix) ≡ ok a
    → IsValid a
new_allocator-IsValid nw r e = new-IsValid r.x r.n r.y r.m r.fits (rw (r.v4_is, r.v6_is) at e)

-- What `allocatorFor` returns is valid, has the addresses of the network's devices in use, and is
-- recorded.
unfoldable pub Allocators : Network → Coordinator → Result Error Allocator × Coordinator → Type 0
Allocators nw c (err e, c') = c' ≡ c
Allocators nw c (ok a, c') =
    IsValid a
    × Covers nw.id a c.signals.nodes.rows
    × (Sound c')
    × ((m : List (ℕ × Allocator)) × (c' ≡ record c { ipams = m }))

pub allocator_for-Allocators :
    (nw : Network) (c : Coordinator) → Sound c → IsRange nw → Allocators nw c (allocator_for nw c)
unfolding allocator_for Allocators
allocator_for-Allocators nw c v r = elim (Option-cases (lookup nw.id c.ipams)) [
  | inr (a, known) ↦
      let (valid, covers) = v.apart.covers nw.id a known in
      rw known (valid, covers, v, (c.ipams, refl))
  | inl unknown ↦ elim (Result-cases (new (some nw.v4_prefix) (some nw.v6_prefix))) [
    | inr (e, failed) ↦ rw (unknown, failed) refl
    | inl (a, made) ↦
        let addrs = map (λ n. n.ipv4) (nodes_in_network nw.id c.signals.nodes) in
        let valid = mark_used-IsValid addrs (new_allocator-IsValid nw r made) in
        let covers = mark_used-Covers nw.id a c.signals.nodes.rows v.apart.plain in
        rw (unknown, made)
          (
            valid,
            covers,
            record { apart = put-IsSound nw.id _ valid covers v.apart; ranges = v.ranges },
            (insert nw.id (mark_used addrs a) c.ipams, refl),
          )
  ]
]

-- A row changed in what the invariant is not about.
pub quiet-Sound :
    {c : Coordinator} {f : Node → Node} (id : ℕ)
    → Keeps f
    → ((n : Node) → (f n).hostname ≡ n.hostname)
    → Sound c
    → Sound (with_nodes (update_node id f c.signals.nodes) c)
quiet-Sound id keeps name v = record {
  apart = quiet-IsSound id keeps name v.apart;
  ranges = v.ranges;
}

touched-Sound :
    {c : Coordinator} (now id : ℕ)
    → Sound c
    → Sound (with_nodes (touch_node now id c.signals.nodes) c)
touched-Sound now id v =
    quiet-Sound id (record { id = λ n. refl; network = λ n. refl; ipv4 = λ n. refl }) (λ n. refl) v

-- What is not of the nodes, the networks or the allocators can be anything.
pub same-Sound :
    {c c' : Coordinator}
    → c'.signals.nodes ≡ c.signals.nodes
    → c'.networks ≡ c.networks
    → c'.ipams ≡ c.ipams
    → Sound c
    → Sound c'
same-Sound t n i v = record { apart = rw (t, i) v.apart; ranges = rw n v.ranges }

pub subscribe-Sound :
    (cfg : Setup) {c : Coordinator} (now : ℕ) (mkey : List ℕ)
    → Sound c
    → Sound (subscribe cfg now mkey c).1
unfolding subscribe
subscribe-Sound cfg {c} now mkey v =
    elim (Option-cases (node_by_machine_key (machine_string mkey) c.signals.nodes)) [
      | inl unknown ↦ rw unknown v
      | inr (n, found) ↦
          let closed = close_named (lookup n.id c.subs) c in
          let before : Sound closed =
            Kept-Sound c closed (close_named-Kept (lookup n.id c.subs) c) v in
          rw found (
            notify-Sound cfg n.network_id
              (primed cfg closed.next_stream n (touched now n.id (opened n closed)))
              (same-Sound refl refl refl (touched-Sound {c = closed} now n.id before)))
    ]

pub unsubscribe-Sound :
    (cfg : Setup) {c : Coordinator} (now : ℕ) (n : Node) (ch : ℕ)
    → Sound c
    → Sound (unsubscribe cfg now n ch c)
unfolding unsubscribe
unsubscribe-Sound cfg {c} now n ch v = elim (Option-cases (lookup n.id c.subs)) [
  | inl unnamed ↦ rw unnamed v
  | inr (cur, named) ↦ elim (Bool-cases (nat_beq cur ch)) [
    | inr other ↦ rw (named, other) v
    | inl same ↦
        rw (named, same)
          (notify-Sound cfg n.network_id
            (touched now n.id
              (record c { subs = delete n.id c.subs; online = insert n.id false c.online }))
            (same-Sound refl refl refl (touched-Sound {c = c} now n.id v)))
  ]
]

pub update_endpoints-Sound :
    (cfg : Setup) {c : Coordinator} (mkey : List ℕ) (eps : List (List ℕ))
    → Sound c
    → Sound (update_endpoints cfg mkey eps c).1
unfolding update_endpoints
update_endpoints-Sound cfg {c} mkey eps v =
    elim (Option-cases (node_by_machine_key (machine_string mkey) c.signals.nodes)) [
      | inl unknown ↦ rw unknown v
      | inr (n, found) ↦ elim (Bool-cases (any (λ e. not (cfg.is_addr_port e)) eps)) [
        | inl bad ↦ rw (found, bad) v
        | inr good ↦
            rw (found, good)
              (notify-Sound cfg n.network_id
                (with_nodes (update_node_endpoints n.id eps c.signals.nodes) c)
                (quiet-Sound n.id (record { id = λ m. refl; network = λ m. refl; ipv4 = λ m. refl })
                  (λ m. refl) v))
      ]
    ]

pub approve_route-Sound :
    (cfg : Setup) {c : Coordinator} (id : ℕ) (route : List ℕ) (approved : Bool)
    → Sound c
    → Sound (approve_route cfg id route approved c).1
unfolding approve_route
approve_route-Sound cfg {c} id route approved v =
    elim (Option-cases (node_by_id id c.signals.nodes)) [
      | inl unknown ↦ rw unknown v
      | inr (n, found) ↦ elim (Option-cases (normalize_route cfg route)) [
        | inl bad ↦ rw (found, bad) v
        | inr (norm, good) ↦
            rw (found, good) (settled n (set_route_approved n.id norm approved c.routes))
      ]
    ]
  where
    settled : (n : Node) (r : Bool × List RouteRow) → Sound (approval_notified cfg n r c).1
    settled n (false, rows) = v
    settled n (true, rows) =
        notify-Sound cfg n.network_id (record c { routes = rows }) (same-Sound refl refl refl v)

pub not_taken :
    (network : ℕ) (name : List ℕ) (rows : List Node)
    → ltb 0 (count (λ n. nat_beq n.network_id network && bytes_beq n.hostname name) rows) ≡ false
    → All (λ n. n.network_id ≡ network → n.hostname ≢ name) rows
not_taken network name [] h = tt
not_taken network name (n ∷ rows) h = (
  (λ e k.
      ground
        (arith, h, (nat_beq_iff n.network_id network).1 e, (bytes_beq_iff n.hostname name).1 k)),
  not_taken network name rows (ground (arith, h)),
)
