-- ===== src/Coord/Engine/Deletion.antt =====
-- Deleting a device keeps what is true of the others.
use over_mesh.Common.{
  ℕ, ◌≡◌, ◌≢◌, ◌⊎◌, refl, sym, ap, subst, ◌∙◌, true, false, not, List, Option, none, some, Result,
  ok, err, nat_beq, nat_eq, All, All-imp, All-both, All-select, Pairwise-find, All-find, find-key,
  has_key, lookup, if◌then◌else◌, contains, contains-remove, remove, arith, Bool-cases,
  Option-cases, inl, inr,
}
use over_mesh.Net.{Addr, unmap, addr_eq, addr_beq, addr_beq_iff}
use over_mesh.Ipam.{Allocator, Error, release}
use over_mesh.Ipam.Fresh.{release-IsValid}
use over_mesh.Store.Nodes.{Node, row_id, delete_node, node_by_id}
use over_mesh.Store.SetupKeys.{Network, network_id, network_by_id}
use over_mesh.Coord.Signals.{Signals, close_inbox, drop_inbox}
use over_mesh.Coord.Engine.{Setup, Coordinator}
use over_mesh.Coord.Engine.Devices.{
  allocator_for, removed, drop_stream, kicked, free_in, freed, delete_device,
}
use over_mesh.Coord.Engine.Addresses.{Apart, Apart-sym, Covers, IsRange, put-IsSound}
use over_mesh.Coord.Engine.Addresses.Rows.{select-IsSound}
use over_mesh.Coord.Engine.Streams.{Kept, close_named-Kept}
use over_mesh.Coord.Engine.Soundness.{
  Sound, Kept-Sound, same-Sound, notify-Sound, Allocators, allocator_for-Allocators,
}

-- Nobody of the network has the address.
abbrev pub Unused : ℕ → Addr → List Node → Type 0
Unused network addr rows = All (λ m. m.network_id ≡ network → m.ipv4 ≢ addr) rows

-- An allocator that gives back an address that nobody has covers what it covered.
pub release-Covers :
    (network : ℕ) (addr : Addr) (a : Allocator) (rows : List Node)
    → unmap addr ≡ addr
    → Unused network addr rows
    → Covers network a rows
    → Covers network (release addr a) rows
unfolding release
release-Covers network addr a rows plain unused covers =
    All-imp
      (λ m.
        (m.network_id ≡ network → m.ipv4 ≢ addr)
        × (m.network_id ≡ network → contains a.used m.ipv4 ≡ true))
      (λ m. m.network_id ≡ network → contains (remove a.used (unmap addr)) m.ipv4 ≡ true) rows
      (λ m h e.
        rw (plain, contains-remove a.used addr m.ipv4)
          (kept m (λ k. h.0 e (sym ((addr_beq_iff addr m.ipv4).0 k))) (h.1 e)))
      (All-both (λ m. m.network_id ≡ network → m.ipv4 ≢ addr)
        (λ m. m.network_id ≡ network → contains a.used m.ipv4 ≡ true) rows unused covers)
  where
    kept :
        (m : Node)
        → (addr_beq addr m.ipv4 ≢ true)
        → contains a.used m.ipv4 ≡ true
        → (if addr_beq addr m.ipv4 then false else contains a.used m.ipv4) ≡ true
    kept m ne h = elim (Bool-cases (addr_beq addr m.ipv4)) [
      | inl same ↦ absurd (ne same)
      | inr other ↦ rw other h
    ]

free_in-Sound :
    (nw : Network) (addr : Addr) (c : Coordinator) (r : Result Error Allocator × Coordinator)
    → unmap addr ≡ addr
    → Unused nw.id addr c.signals.nodes.rows
    → Sound c
    → Allocators nw c r
    → Sound (free_in nw addr r)
unfolding Allocators
free_in-Sound nw addr c (err e, c') plain unused v is = subst Sound (sym is) v
free_in-Sound nw addr c (ok a, c') plain unused v (valid, covers, v', (m, is)) =
    let rows : c'.signals.nodes ≡ c.signals.nodes = ap (λ (x : Coordinator). x.signals.nodes) is in
    let kept : Covers nw.id (release addr a) c'.signals.nodes.rows =
      rw rows (release-Covers nw.id addr a c.signals.nodes.rows plain unused covers) in
    record {
      apart = put-IsSound nw.id (release addr a) (release-IsValid addr valid) kept v'.apart;
      ranges = v'.ranges;
    }

freed-Sound :
    {c : Coordinator} (n : Node)
    → unmap n.ipv4 ≡ n.ipv4
    → Unused n.network_id n.ipv4 c.signals.nodes.rows
    → Sound c
    → Sound (freed n (network_by_id n.network_id c.networks) c)
freed-Sound {c} n plain unused v = elim (Option-cases (network_by_id n.network_id c.networks)) [
  | inl missing ↦ rw missing v
  | inr (nw, found) ↦
      let range =
        All-find IsRange (has_key network_id n.network_id) c.networks {x = nw} v.ranges found in
      let here : nw.id ≡ n.network_id =
        find-key network_id n.network_id c.networks {t = nw} found in
      let unused' : Unused nw.id n.ipv4 c.signals.nodes.rows = rw here unused in
      rw found (
        free_in-Sound nw n.ipv4 c (allocator_for nw c) plain unused' v
          (allocator_for-Allocators nw c v range))
]

drop_inbox-nodes : (id : ℕ) (ch : Option ℕ) (s : Signals) → (drop_inbox id ch s).nodes ≡ s.nodes
unfolding close_inbox
drop_inbox-nodes id none s = refl
drop_inbox-nodes id (some ch) s = elim (Option-cases (lookup ch s.inboxes)) [
  | inl gone ↦ rw (gone, close_inbox) refl
  | inr (b, here) ↦ elim (Bool-cases b.is_open) [
    | inl on ↦ rw (here, close_inbox, on) refl
    | inr off ↦ rw (here, close_inbox, off) refl
  ]
]

drop_stream-Kept : (id : ℕ) (ch : Option ℕ) (c : Coordinator) → Kept c (drop_stream id ch c)
drop_stream-Kept id none c = (refl, refl, refl)
drop_stream-Kept id (some ch) c = close_named-Kept (some ch) c

kicked-Sound : {c : Coordinator} (id : ℕ) → Sound c → Sound (kicked id c)
kicked-Sound {c} id v =
    let (s, n, i) = drop_stream-Kept id (lookup id c.subs) c in
    let dropped = drop_stream id (lookup id c.subs) c in
    same-Sound {c = dropped}
      (drop_inbox-nodes id (lookup id dropped.signals.sig_subs) dropped.signals) refl refl
      (Kept-Sound c dropped (s, n, i) v)

kicked-nodes : (id : ℕ) (c : Coordinator) → (kicked id c).signals.nodes ≡ c.signals.nodes
kicked-nodes id c =
    let (s, n, i) = drop_stream-Kept id (lookup id c.subs) c in
    let dropped = drop_stream id (lookup id c.subs) c in
    drop_inbox-nodes id (lookup id dropped.signals.sig_subs) dropped.signals
    ∙ ap (λ (x : Signals). x.nodes) s

removed-Sound : {c : Coordinator} (id : ℕ) → Sound c → Sound (removed id c)
unfolding delete_node
removed-Sound id v = record {
  apart = select-IsSound (λ n. not (has_key row_id id n)) v.apart;
  ranges = v.ranges;
}

-- The rows that stay are of other devices, so none of the network has the address.
removed-Unused :
    {c : Coordinator} (id : ℕ) (n : Node)
    → node_by_id id c.signals.nodes ≡ some n
    → Sound c
    → Unused n.network_id n.ipv4 (removed id c).signals.nodes.rows
unfolding delete_node
removed-Unused {c} id n found v =
    All-select (λ m. (m ≡ n) ⊎ Apart m n) (λ m. m.network_id ≡ n.network_id → m.ipv4 ≢ n.ipv4)
      (λ m. not (has_key row_id id m)) c.signals.nodes.rows (λ m keep rel. other m keep rel)
      (Pairwise-find Apart (has_key row_id id) c.signals.nodes.rows {n = n} Apart-sym v.apart.apart
        found)
  where
    other :
        (m : Node)
        → not (nat_beq m.id id) ≡ true
        → (m ≡ n) ⊎ Apart m n
        → m.network_id ≡ n.network_id
        → m.ipv4 ≢ n.ipv4
    other m keep (inl same) e =
        let here : n.id ≡ id = find-key row_id id c.signals.nodes.rows {t = n} found in
        let gone : m.id ≡ id = ap (λ (x : Node). x.id) same ∙ here in ground (arith, gone, keep)
    other m keep (inr apart) e = (apart.1 e).1

pub delete_device-Sound :
    (cfg : Setup) {c : Coordinator} (id : ℕ) → Sound c → Sound (delete_device cfg id c).1
unfolding delete_device
delete_device-Sound cfg {c} id v = elim (Option-cases (node_by_id id c.signals.nodes)) [
  | inl unknown ↦ rw unknown v
  | inr (n, found) ↦
      let gone = kicked id (removed id c) in
      let plain =
        All-find (λ m. unmap m.ipv4 ≡ m.ipv4) (has_key row_id id) c.signals.nodes.rows {x = n}
          v.apart.plain found in
      let unused : Unused n.network_id n.ipv4 gone.signals.nodes.rows =
        rw (kicked-nodes id (removed id c)) (removed-Unused id n found v) in
      let out = freed n (network_by_id n.network_id gone.networks) gone in
      rw found (
        notify-Sound cfg n.network_id out
          (freed-Sound n plain unused (kicked-Sound id (removed-Sound id v))))
]
