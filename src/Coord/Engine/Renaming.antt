-- ===== src/Coord/Engine/Renaming.antt =====
-- A device that registers again keeps the names and the addresses apart.
use over_mesh.Common.{
  ◌≡◌, ◌≢◌, ◌⊎◌, refl, ap, not, ◌&&◌, [], Option, none, some, err, nat_eq, bytes_beq, All, All-imp,
  Bool-cases, inl, inr,
}
use over_mesh.Net.{addr_eq}
use over_mesh.Key.{node_string}
use over_mesh.Store.Nodes.{Node, Nodes, hostname_taken, update_node_on_register}
use over_mesh.Store.SetupKeys.{Network, network_by_id}
use over_mesh.Coord.Engine.{Setup, Coordinator}
use over_mesh.Coord.Engine.Register.{
  Request, Registered, diverged, kept_name, rotation, welcome_back, register_known,
}
use over_mesh.Coord.Engine.Addresses.{Apart, IsSound}
use over_mesh.Coord.Engine.Addresses.Updates.{rename-IsSound}
use over_mesh.Coord.Engine.Soundness.{Sound, notify-Sound, not_taken}

-- The loops of the registration end, and what is true of the devices stays true.
abbrev pub Settles : Registered → Type 0
Settles (r, c) = (r ≢ err diverged) × Sound c

-- The name that a known device keeps or gets is no other device's.
kept_name-free :
    (q : Request) (n : Node) (t : Nodes)
    → All (λ m. (m ≡ n) ⊎ Apart m n) t.rows
    → All (λ m. m.id ≢ n.id → m.network_id ≡ n.network_id → m.hostname ≢ kept_name q n t) t.rows
kept_name-free q n t only =
    elim (Bool-cases (not (bytes_beq q.hostname []) && not (bytes_beq q.hostname n.hostname))) [
      | inr same ↦ rw same old
      | inl asked ↦ elim (Bool-cases (hostname_taken n.network_id q.hostname t)) [
        | inl taken ↦ rw (asked, taken) old
        | inr free ↦
            rw (asked, free)
              (All-imp (λ m. m.network_id ≡ n.network_id → m.hostname ≢ q.hostname)
                (λ m. m.id ≢ n.id → m.network_id ≡ n.network_id → m.hostname ≢ q.hostname) t.rows
                (λ m h off e. h e) (not_taken n.network_id q.hostname t.rows free))
      ]
    ]
  where
    kept :
        (m : Node)
        → (m ≡ n) ⊎ Apart m n
        → m.id ≢ n.id
        → m.network_id ≡ n.network_id
        → m.hostname ≢ n.hostname
    kept m (inl same) off e = absurd (off (ap (λ (x : Node). x.id) same))
    kept m (inr apart) off e = (apart.1 e).0

    old : All (λ m. m.id ≢ n.id → m.network_id ≡ n.network_id → m.hostname ≢ n.hostname) t.rows
    old =
        All-imp (λ m. (m ≡ n) ⊎ Apart m n)
          (λ m. m.id ≢ n.id → m.network_id ≡ n.network_id → m.hostname ≢ n.hostname) t.rows kept
          only

welcome_back-Settles :
    (cfg : Setup) (n : Node) (nw : Option Network) {c : Coordinator}
    → Sound c
    → Settles (welcome_back cfg n nw c)
welcome_back-Settles cfg n none v = ((λ e. cc), v)
welcome_back-Settles cfg n (some nw) {c} v = ((λ e. cc), notify-Sound cfg n.network_id c v)

rotation-kept :
    (q : Request) (n : Node) (c : Coordinator)
    → ((rotation q n c).ipams ≡ c.ipams)
      × ((rotation q n c).networks ≡ c.networks)
      × ((rotation q n c).signals ≡ c.signals)
rotation-kept q n c = elim (Bool-cases (bytes_beq n.node_key (node_string q.nkey))) [
  | inl same ↦ rw same (refl, refl, refl)
  | inr new ↦ rw new (refl, refl, refl)
]

pub register_known-Settles :
    (cfg : Setup) (q : Request) (n : Node) {c : Coordinator}
    → All (λ m. (m ≡ n) ⊎ Apart m n) c.signals.nodes.rows
    → Sound c
    → Settles (register_known cfg q n c)
register_known-Settles cfg q n {c} only v =
    let name = kept_name q n c.signals.nodes in
    let (ipams, networks, signals) = rotation-kept q n c in
    let changed : IsSound
        (update_node_on_register n.id (node_string q.nkey) name q.os_name c.signals.nodes) c.ipams =
      rename-IsSound n name (record { id = λ m. refl; network = λ m. refl; ipv4 = λ m. refl })
        (λ m. refl) only (kept_name-free q n c.signals.nodes only) v.apart in
    welcome_back-Settles cfg
      (record n { node_key = node_string q.nkey; hostname = name; os = q.os_name })
      (network_by_id n.network_id c.networks)
      (record { apart = rw ipams changed; ranges = rw networks v.ranges })
