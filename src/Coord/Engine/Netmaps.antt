-- ===== src/Coord/Engine/Netmaps.antt =====
-- What a netmap says of the other devices of a network.
use over_mesh.Common.{
  find-key, ◌≢◌, ◌↔◌, ◌∙◌, lookup, nat_eq, ℕ, ◌≡◌, refl, sym, ap, subst, false, List, [], ◌∷◌,
  Option, none, some, nat_beq, nat_beq_iff, find, has_key, KeysDiffer, NoKey, gather, gather-none,
  gather-some, arith, of_some, Bool-cases, Option-cases, inl, inr,
}
use over_mesh.Key.{unmarshal_node}
use over_mesh.Store.Nodes.{Node, row_id, nodes_in_network}
use over_mesh.Store.SetupKeys.{network_by_id}
use over_mesh.Coord.Engine.{
  overlay_cidrs, or_false, approved_node_routes, Setup, Coordinator, Peer, NetMap, keyed_peer,
  peer_of, build_net_map, net_map_in,
}

abbrev pub peer_id : Peer → ℕ
peer_id p = p.node_id

-- The peer of the device that a search found.
abbrev peer_found : Setup → Coordinator → Node → Option Node → Option Peer
peer_found cfg c n none = none
peer_found cfg c n (some p) = peer_of cfg c n p

peer_of-id :
    (cfg : Setup) (c : Coordinator) (n p : Node) {q : Peer}
    → peer_of cfg c n p ≡ some q
    → q.node_id ≡ p.id
unfolding peer_of
peer_of-id cfg c n p {q} e = elim (Bool-cases (nat_beq p.id n.id)) [
  | inl own ↦ let none_here : none ≡ some q = rw own at e in cc
  | inr other ↦ elim (Option-cases (unmarshal_node p.node_key)) [
    | inl bad ↦ let none_here : none ≡ some q = rw (other, bad) at e in cc
    | inr (k, good) ↦
        let here : keyed_peer cfg c p (some k) ≡ some q = rw (other, good) at e in
        ap (λ (x : Peer). x.node_id) (sym (of_some here))
  ]
]

module _ (cfg : Setup) (c : Coordinator) (n : Node) where
  find-gather-none :
      (id : ℕ) (nodes : List Node)
      → NoKey row_id id nodes
      → find (has_key peer_id id) (gather (peer_of cfg c n) nodes) ≡ none
  find-gather-none id [] h = refl
  find-gather-none id (p ∷ nodes) h = elim (Option-cases (peer_of cfg c n p)) [
    | inl skipped ↦
        rw (gather-none (peer_of cfg c n) p nodes skipped) (find-gather-none id nodes h.1)
    | inr (q, made) ↦
        let away : nat_beq q.node_id id ≡ false = ground (arith, peer_of-id cfg c n p made, h.0) in
        rw (gather-some (peer_of cfg c n) p nodes q made, away) (find-gather-none id nodes h.1)
  ]

  find-gather :
      (id : ℕ) (nodes : List Node)
      → KeysDiffer row_id nodes
      → find (has_key peer_id id) (gather (peer_of cfg c n) nodes)
        ≡ peer_found cfg c n (find (has_key row_id id) nodes)
  find-gather id [] u = refl
  find-gather id (p ∷ nodes) u = elim (Option-cases (peer_of cfg c n p)) [
    | inl skipped ↦ elim (Bool-cases (nat_beq p.id id)) [
      | inl here ↦
          let gone : NoKey row_id id nodes =
            subst (λ (k : ℕ). NoKey row_id k nodes) ((nat_beq_iff p.id id).0 here) u.0 in
          rw (gather-none (peer_of cfg c n) p nodes skipped, here, skipped)
            (find-gather-none id nodes gone)
      | inr away ↦
          rw (gather-none (peer_of cfg c n) p nodes skipped, away) (find-gather id nodes u.1)
    ]
    | inr (q, made) ↦
        let same : nat_beq q.node_id id ≡ nat_beq p.id id =
          ap (λ (x : ℕ). nat_beq x id) (peer_of-id cfg c n p made) in
        elim (Bool-cases (nat_beq p.id id)) [
          | inl here ↦ rw (gather-some (peer_of cfg c n) p nodes q made, same, here, made) refl
          | inr away ↦
              rw (gather-some (peer_of cfg c n) p nodes q made, same, away)
                (find-gather id nodes u.1)
        ]
  ]

-- A peer with the number `id`: the device that the network's rows have under the number, which is not
-- the device itself, with what the database and the coordinator know of it.
pub record IsPeer (cfg : Setup) (c : Coordinator) (n : Node) (id : ℕ) (q : Peer) : Type 0 where
  pub device : Node
  pub row : find (has_key row_id id) (nodes_in_network n.network_id c.signals.nodes) ≡ some device
  pub other : id ≢ n.id
  pub key : List ℕ
  pub key_read : unmarshal_node device.node_key ≡ some key
  pub whole : q ≡ record {
    node_id = id;
    hostname = device.hostname;
    node_key = key;
    overlay_ips = overlay_cidrs cfg.text device;
    endpoints = device.endpoints;
    online = or_false (lookup id c.online);
    allowed_routes = approved_node_routes id c.routes;
  }

peer_of-lem :
    (cfg : Setup) (c : Coordinator) (n p : Node) (k : List ℕ)
    → unmarshal_node p.node_key ≡ some k
    → p.id ≢ n.id
    → peer_of cfg c n p
      ≡ some (record {
        node_id = p.id;
        hostname = p.hostname;
        node_key = k;
        overlay_ips = overlay_cidrs cfg.text p;
        endpoints = p.endpoints;
        online = or_false (lookup p.id c.online);
        allowed_routes = approved_node_routes p.id c.routes;
      })
unfolding peer_of
peer_of-lem cfg c n p k good other =
    let away : nat_beq p.id n.id ≡ false = ground (arith, other) in rw (away, good) refl

peer_found-IsPeer :
    (cfg : Setup) (c : Coordinator) (n : Node) (id : ℕ) (q : Peer) (o : Option Node)
    → find (has_key row_id id) (nodes_in_network n.network_id c.signals.nodes) ≡ o
    → peer_found cfg c n o ≡ some q
    → IsPeer cfg c n id q
unfolding peer_of
peer_found-IsPeer cfg c n id q none at e = cc
peer_found-IsPeer cfg c n id q (some p) at e =
    let is : p.id ≡ id = find-key row_id id (nodes_in_network n.network_id c.signals.nodes) at in
    elim (Bool-cases (nat_beq p.id n.id)) [
      | inl own ↦ let none_here : none ≡ some q = rw own at e in cc
      | inr other ↦ elim (Option-cases (unmarshal_node p.node_key)) [
        | inl bad ↦ let none_here : none ≡ some q = rw (other, bad) at e in cc
        | inr (k, good) ↦
            let here : keyed_peer cfg c p (some k) ≡ some q = rw (other, good) at e in
            record {
              device = p;
              row = at;
              other = ground (arith, is, other);
              key = k;
              key_read = good;
              whole = sym (of_some here) ∙ (rw is refl);
            }
      ]
    ]

IsPeer-peer_found :
    (cfg : Setup) (c : Coordinator) (n : Node) (id : ℕ) (q : Peer)
    → IsPeer cfg c n id q
    → peer_found cfg c n (find (has_key row_id id) (nodes_in_network n.network_id c.signals.nodes))
      ≡ some q
IsPeer-peer_found cfg c n id q h =
    let is : h.device.id ≡ id =
      find-key row_id id (nodes_in_network n.network_id c.signals.nodes) h.row in
    let other : h.device.id ≢ n.id = λ e. h.other (sym is ∙ e) in
    ap (peer_found cfg c n) h.row
    ∙ peer_of-lem cfg c n h.device h.key h.key_read other
    ∙ (rw is (ap some (sym h.whole)))

peers_lem :
    (cfg : Setup) (c : Coordinator) (n : Node) (id : ℕ) {nm : NetMap}
    → KeysDiffer row_id (nodes_in_network n.network_id c.signals.nodes)
    → build_net_map cfg c n ≡ some nm
    → find (has_key peer_id id) nm.peers
      ≡ peer_found cfg c n
          (find (has_key row_id id) (nodes_in_network n.network_id c.signals.nodes))
unfolding build_net_map
peers_lem cfg c n id {nm} u e = elim (Option-cases (network_by_id n.network_id c.networks)) [
  | inl missing ↦ let none_here : none ≡ some nm = rw missing at e in cc
  | inr (nw, here) ↦
      let made : some (net_map_in cfg c n nw) ≡ some nm = rw here at e in
      let peers : nm.peers
          ≡ gather (peer_of cfg c n) (nodes_in_network n.network_id c.signals.nodes) =
        ap (λ (x : NetMap). x.peers) (sym (of_some made)) in
      rw peers (find-gather cfg c n id (nodes_in_network n.network_id c.signals.nodes) u)
]

-- If the devices of the network have different numbers, a device's netmap has a peer under a number
-- exactly when the peer is the network's device with that number, is not the device itself and has a
-- readable key, and it has that key and the name, the addresses, the endpoints, the approved routes and
-- the online mark that the database and the coordinator have for the number.
pub build_net_map-IsPeer :
    (cfg : Setup) (c : Coordinator) (n : Node) (id : ℕ) (q : Peer) {nm : NetMap}
    → KeysDiffer row_id (nodes_in_network n.network_id c.signals.nodes)
    → build_net_map cfg c n ≡ some nm
    → (find (has_key peer_id id) nm.peers ≡ some q) ↔ IsPeer cfg c n id q
build_net_map-IsPeer cfg c n id q {nm} u e =
    let same = peers_lem cfg c n id u e in
    let rows = nodes_in_network n.network_id c.signals.nodes in
    (
      (λ at. peer_found-IsPeer cfg c n id q (find (has_key row_id id) rows) refl (sym same ∙ at)),
      (λ h. same ∙ IsPeer-peer_found cfg c n id q h),
    )
