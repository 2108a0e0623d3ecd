-- ===== src/Coord/Engine/Joining.antt =====
-- Registration keeps the devices' names and addresses apart.
use over_mesh.Common.{
  ℕ, ◌+◌, ◌/◌, ◌≡◌, ◌≢◌, refl, sym, ap, subst, true, false, List, [], ◌∷◌, ◌++◌, Option, none, some,
  Result, ok, err, ltb, nat_eq, bytes_beq, All, All-imp, All-both, Pairwise-find, All-find, has_key,
  lookup, contains, beq_refl, arith, of_some, Bool-cases, Option-cases, inl, inr, any, length,
}
use over_mesh.Net.{Addr, unmap, addr_eq}
use over_mesh.Ipam.{Allocator, Error, allocate_v4, allocate_v6_for, release}
use over_mesh.Ipam.Allocate.{IsValid, IsUsable, Outcome, allocate_v4-Outcome}
use over_mesh.Ipam.Fresh.{release-IsValid, allocate_v4-IsValid}
use over_mesh.Key.{machine_string}
use over_mesh.Store.Nodes.{Node, Nodes, create_node, node_by_machine_key, update_node_ipv6}
use over_mesh.Store.SetupKeys.{
  Network, SetupKeys, KeyError, network_id, network_by_id, use_setup_key, find_key, refusal,
}
use over_mesh.Coord.Names.{sanitize_hostname}
use over_mesh.Coord.Names.Dedupe.{dedupe_hostname-free}
use over_mesh.Coord.Engine.{Setup, Coordinator, with_nodes}
use over_mesh.Coord.Engine.Devices.{put_alloc, allocator_for}
use over_mesh.Coord.Engine.Register.{
  Request, new_row, numbered_v6, inserted, addressed, allocated, admitted, register_new, register,
  normalize_routes, wanted_name,
}
use over_mesh.Coord.Engine.Addresses.{Apart, Apart-sym, Covers, IsSound, IsRange, put-IsSound}
use over_mesh.Coord.Engine.Addresses.Rows.{append-IsSound}
use over_mesh.Coord.Engine.Soundness.{
  Sound, same-Sound, notify-Sound, quiet-Sound, not_taken, Allocators, allocator_for-Allocators,
}
use over_mesh.Coord.Engine.Renaming.{Settles, register_known-Settles}
use over_mesh.Coord.Engine.Deletion.{Unused, release-Covers}

-- What `create_node` is given is new to the network.
record IsFresh (n : Node) (c : Coordinator) : Type 0 where
  plain : unmap n.ipv4 ≡ n.ipv4
  differs :
      All
        (λ m. m.network_id ≡ n.network_id → (m.hostname ≢ n.hostname) × (m.ipv4 ≢ n.ipv4))
        c.signals.nodes.rows
  marked : (a : Allocator) → lookup n.network_id c.ipams ≡ some a → contains a.used n.ipv4 ≡ true

numbered_v6-Settles :
    (cfg : Setup) (q : Request) (nw : Network) (owner : ℕ) (n : Node) (r : Result Error Addr)
    {c : Coordinator}
    → Sound c
    → Settles (numbered_v6 cfg q nw owner n r c)
numbered_v6-Settles cfg q nw owner n (err e) v = ((λ e. cc), v)
numbered_v6-Settles cfg q nw owner n (ok addr) {c} v =
    let addressed : Sound (with_nodes (update_node_ipv6 n.id addr c.signals.nodes) c) =
      quiet-Sound n.id (record { id = λ m. refl; network = λ m. refl; ipv4 = λ m. refl })
        (λ m. refl) v in
    elim (Bool-cases (ltb 0 (length q.routes))) [
      | inl some_routes ↦
          rw some_routes ((λ e. cc), notify-Sound cfg nw.id _ (same-Sound refl refl refl addressed))
      | inr no_routes ↦
          rw no_routes ((λ e. cc), notify-Sound cfg nw.id _ (same-Sound refl refl refl addressed))
    ]

inserted-Settles :
    (cfg : Setup) (q : Request) (nw : Network) (owner now : ℕ) (a : Allocator) (addr : Addr)
    (name : List ℕ) {c : Coordinator}
    → IsFresh (new_row q nw owner addr name) c
    → IsValid a
    → Covers nw.id a c.signals.nodes.rows
    → Sound c
    → Settles (
        inserted cfg q nw owner a addr
          (create_node now (new_row q nw owner addr name) c.signals.nodes)
          c)
unfolding create_node
inserted-Settles cfg q nw owner now a addr name {c} fresh valid covers v =
    let n = new_row q nw owner addr name in
    let t = c.signals.nodes in
    elim (Bool-cases (any (λ r. bytes_beq r.machine_key n.machine_key) t.rows)) [
      | inl known ↦
          let unused : Unused nw.id addr t.rows =
            All-imp (λ m. m.network_id ≡ nw.id → (m.hostname ≢ name) × (m.ipv4 ≢ addr))
              (λ m. m.network_id ≡ nw.id → m.ipv4 ≢ addr) t.rows (λ m h e. (h e).1) fresh.differs in
          rw known (
            (λ e. cc),
            record {
              apart =
                  put-IsSound nw.id (release addr a) (release-IsValid addr valid)
                    (release-Covers nw.id addr a t.rows fresh.plain unused covers) v.apart;
              ranges = v.ranges;
            },
          )
      | inr unknown ↦
          let row : Node = record n { id = t.next_id; created_at = now; last_seen = 0 } in
          let more : Nodes = record { rows = t.rows ++ row ∷ []; next_id = t.next_id + 1 } in
          let joined : IsSound more c.ipams =
            append-IsSound row refl fresh.plain fresh.differs
              (λ network b e is.
                fresh.marked b (subst (λ (k : ℕ). lookup k c.ipams ≡ some b) (sym is) e))
              v.apart in
          rw unknown (
            numbered_v6-Settles cfg q nw owner row (allocate_v6_for a row.id)
              (record { apart = joined; ranges = v.ranges }))
    ]

covered-Unused :
    (network : ℕ) (addr : Addr) (a : Allocator) (rows : List Node)
    → Covers network a rows
    → contains a.used addr ≡ false
    → Unused network addr rows
covered-Unused network addr a rows covers free =
    All-imp (λ m. m.network_id ≡ network → contains a.used m.ipv4 ≡ true)
      (λ m. m.network_id ≡ network → m.ipv4 ≢ addr) rows
      (λ m h e same.
        let used : contains a.used addr ≡ true =
          subst (λ (x : Addr). contains a.used x ≡ true) same (h e) in
        cc)
      covers

used-Covers :
    (network : ℕ) (addr : Addr) (a a' : Allocator) (rows : List Node)
    → a'.used ≡ addr ∷ a.used
    → Covers network a rows
    → Covers network a' rows
used-Covers network addr a a' rows is covers =
    All-imp (λ m. m.network_id ≡ network → contains a.used m.ipv4 ≡ true)
      (λ m. m.network_id ≡ network → contains a'.used m.ipv4 ≡ true) rows
      (λ m h e. rw is (ground (arith, h e))) covers

-- After an address was allocated.
taken-Settles :
    (cfg : Setup) (now : ℕ) (q : Request) (nw : Network) (owner : ℕ) (a a' : Allocator)
    (addr : Addr) {c : Coordinator}
    → IsValid a'
    → unmap addr ≡ addr
    → contains a.used addr ≡ false
    → a'.used ≡ addr ∷ a.used
    → Covers nw.id a c.signals.nodes.rows
    → Sound c
    → Settles (addressed cfg now q nw owner (some (ok addr, a')) c)
taken-Settles cfg now q nw owner a a' addr {c} valid plain free is covers v =
    let t = c.signals.nodes in
    let covers' = used-Covers nw.id addr a a' t.rows is covers in
    let taken = put_alloc nw.id a' c in
    let (name, found, open_name) = dedupe_hostname-free nw.id (wanted_name q) t in
    let differs =
      All-imp
        (λ m. (m.network_id ≡ nw.id → m.hostname ≢ name) × (m.network_id ≡ nw.id → m.ipv4 ≢ addr))
        (λ m. m.network_id ≡ nw.id → (m.hostname ≢ name) × (m.ipv4 ≢ addr)) t.rows
        (λ m h e. (h.0 e, h.1 e))
        (All-both (λ m. m.network_id ≡ nw.id → m.hostname ≢ name)
          (λ m. m.network_id ≡ nw.id → m.ipv4 ≢ addr) t.rows (not_taken nw.id name t.rows open_name)
          (covered-Unused nw.id addr a t.rows covers free)) in
    let fresh : IsFresh (new_row q nw owner addr name) taken = record {
      plain = plain;
      differs = differs;
      marked = λ b e.
          let same : some a' ≡ some b = rw (beq_refl nw.id) at e in
          subst (λ (d : Allocator). contains d.used addr ≡ true) (of_some same)
            (rw (is, beq_refl addr) refl);
    } in
    rw found (
      inserted-Settles cfg q nw owner (now / 1000000000) a' addr name fresh valid covers'
        (record { apart = put-IsSound nw.id a' valid covers' v.apart; ranges = v.ranges }))

addressed-Settles :
    (cfg : Setup) (now : ℕ) (q : Request) (nw : Network) (owner : ℕ) (a : Allocator)
    {c : Coordinator} (o : Option (Result Error Addr × Allocator)) (valid : IsValid a)
    → ((r : Result Error Addr) (a' : Allocator) → o ≡ some (r, a') → IsValid a')
    → Outcome valid.b valid.h (IsUsable valid.b valid.h) a o
    → Covers nw.id a c.signals.nodes.rows
    → Sound c
    → Settles (addressed cfg now q nw owner o c)
addressed-Settles cfg now q nw owner a none valid keeps out covers v = absurd out
addressed-Settles cfg now q nw owner a {c} (some (ok addr, a')) valid keeps
      (x, is, usable, free, after) covers v =
    taken-Settles cfg now q nw owner a a' addr (keeps (ok addr) a' refl) (rw is refl) free
      (ap (λ (d : Allocator). d.used) after) covers v
addressed-Settles cfg now q nw owner a {c} (some (err e, a')) valid keeps
      (m, is, full, after, lo, hi) covers v =
    let covers' : Covers nw.id a' c.signals.nodes.rows = rw after covers in
    (
      (λ e. cc),
      record {
        apart = put-IsSound nw.id a' (keeps (err e) a' refl) covers' v.apart;
        ranges = v.ranges;
      },
    )

allocated-Settles :
    (cfg : Setup) (now : ℕ) (q : Request) (nw : Network) (owner : ℕ) (c : Coordinator)
    (r : Result Error Allocator × Coordinator)
    → Sound c
    → Allocators nw c r
    → Settles (allocated cfg now q nw owner r)
unfolding Allocators
allocated-Settles cfg now q nw owner c (err e, c') v is = ((λ e. cc), subst Sound (sym is) v)
allocated-Settles cfg now q nw owner c (ok a, c') v (valid, covers, v', (m, is)) =
    let covers' : Covers nw.id a c'.signals.nodes.rows =
      rw (ap (λ (x : Coordinator). x.signals.nodes) is) covers in
    addressed-Settles cfg now q nw owner a (allocate_v4 a) valid
      (λ r a' e. allocate_v4-IsValid valid e) (allocate_v4-Outcome valid) covers' v'

-- The network of a key that is accepted is one of the networks.
abbrev AdmitsRange : Result KeyError (Network × ℕ) → Type 0
AdmitsRange (ok (nw, owner)) = IsRange nw
AdmitsRange (err e) = Unit

use_setup_key-AdmitsRange :
    (networks : List Network) (now : ℕ) (text : List ℕ) (t : SetupKeys)
    → All IsRange networks
    → AdmitsRange (use_setup_key networks now text t).0
unfolding use_setup_key
use_setup_key-AdmitsRange networks now text t ranges = elim (Option-cases (find_key text t)) [
  | inl unknown ↦ rw unknown tt
  | inr (k, found) ↦ elim (Option-cases (refusal now k)) [
    | inr (e, failed) ↦ rw (found, failed) tt
    | inl passed ↦ elim (Option-cases (network_by_id k.network networks)) [
      | inl gone ↦ rw (found, passed, gone) tt
      | inr (nw, here) ↦
          rw (found, passed, here)
            (All-find IsRange (has_key network_id k.network) networks {x = nw} ranges here)
    ]
  ]
]

admitted-Settles :
    (cfg : Setup) (now : ℕ) (q : Request) (r : Result KeyError (Network × ℕ)) {c : Coordinator}
    → AdmitsRange r
    → Sound c
    → Settles (admitted cfg now q r c)
admitted-Settles cfg now q (err e) admits v = ((λ e. cc), v)
admitted-Settles cfg now q (ok (nw, owner)) {c} admits v =
    allocated-Settles cfg now q nw owner c (allocator_for nw c) v
      (allocator_for-Allocators nw c v admits)

register_new-Settles :
    (cfg : Setup) (now : ℕ) (q : Request) {c : Coordinator}
    → Sound c
    → Settles (register_new cfg now q c)
register_new-Settles cfg now q {c} v = elim (Bool-cases (bytes_beq q.setup_key [])) [
  | inl no_key ↦ rw no_key ((λ e. cc), v)
  | inr key ↦ rw key (
      admitted-Settles cfg now q (use_setup_key c.networks now q.setup_key c.keys).0
        (use_setup_key-AdmitsRange c.networks now q.setup_key c.keys v.ranges)
        (record { apart = v.apart; ranges = v.ranges }))
]

pub register-Settles :
    (cfg : Setup) (now : ℕ) (q : Request) {c : Coordinator}
    → Sound c
    → Settles (register cfg now q c)
unfolding register
register-Settles cfg now q {c} v = elim (Option-cases (normalize_routes cfg q.routes)) [
  | inl bad ↦ rw bad ((λ e. cc), v)
  | inr (routes, good) ↦
      let clean : Request = record q { hostname = sanitize_hostname q.hostname; routes = routes } in
      let key = machine_string q.mkey in
      let t = c.signals.nodes in
      elim (Option-cases (node_by_machine_key key t)) [
        | inl unknown ↦ rw (good, unknown) (register_new-Settles cfg now clean v)
        | inr (n, found) ↦
            rw (good, found)
              (register_known-Settles cfg clean n
                (Pairwise-find Apart (λ m. bytes_beq m.machine_key key) t.rows {n = n} Apart-sym
                  v.apart.apart found)
                v)
      ]
]
