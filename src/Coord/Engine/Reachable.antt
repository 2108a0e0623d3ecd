-- ===== src/Coord/Engine/Reachable.antt =====
-- What is true in every state that the coordinator can reach.
use over_mesh.Common.{ℕ, err, ◌≡◌, ◌≢◌, refl, List, [], Bool, All, Pairwise, nat_eq}
use over_mesh.Store.Nodes.{Node}
use over_mesh.Store.SetupKeys.{SetupKeys}
use over_mesh.Store.Acl.{AclTable}
use over_mesh.Store.Users.{Users}
use over_mesh.Coord.Signals.{Signals}
use over_mesh.Coord.Engine.{Setup, Coordinator, restarted, notify_network}
use over_mesh.Coord.Engine.Devices.{
  subscribe, unsubscribe, delete_device, update_endpoints, approve_route,
}
use over_mesh.Coord.Engine.Register.{Request, register, diverged}
use over_mesh.Coord.Engine.Addresses.{Apart, IsRange}
use over_mesh.Coord.Engine.Soundness.{
  Sound, same-Sound, notify-Sound, subscribe-Sound, unsubscribe-Sound, update_endpoints-Sound,
  approve_route-Sound,
}
use over_mesh.Coord.Engine.Deletion.{delete_device-Sound}
use over_mesh.Coord.Engine.Joining.{register-Settles}

-- The database before the first device joins.
pub record IsEmpty (c : Coordinator) : Type 0 where
  pub no_nodes : c.signals.nodes.rows ≡ []
  pub no_ipams : c.ipams ≡ []
  pub ranges : All IsRange c.networks

-- One critical section of the coordinator, a restart, or a change of the tables that others write.
pub data Step (cfg : Setup) (c : Coordinator) : Coordinator → Type 0 where
  registers : (now : ℕ) (q : Request) → Step cfg c (register cfg now q c).1
  subscribes : (now : ℕ) (mkey : List ℕ) → Step cfg c (subscribe cfg now mkey c).1
  leaves : (now : ℕ) (n : Node) (ch : ℕ) → Step cfg c (unsubscribe cfg now n ch c)
  moves : (mkey : List ℕ) (eps : List (List ℕ)) → Step cfg c (update_endpoints cfg mkey eps c).1
  deletes : (id : ℕ) → Step cfg c (delete_device cfg id c).1
  approves :
      (id : ℕ) (route : List ℕ) (approved : Bool)
      → Step cfg c (approve_route cfg id route approved c).1
  notifies : (network : ℕ) → Step cfg c (notify_network cfg network c)
  signals : (s : Signals) → s.nodes ≡ c.signals.nodes → Step cfg c (record c { signals = s })
  restarts : Step cfg c (restarted c)
  administers :
      (keys : SetupKeys) (rules : AclTable) (users : Users)
      → Step cfg c (record c { keys = keys; rules = rules; users = users })

pub data Reach (cfg : Setup) : Coordinator → Type 0 where
  start : {c : Coordinator} → IsEmpty c → Reach cfg c
  next : {c d : Coordinator} → Reach cfg c → Step cfg c d → Reach cfg d

restarted-Sound : {c : Coordinator} → Sound c → Sound (restarted c)
restarted-Sound v = record {
  apart = record {
    apart = v.apart.apart;
    low = v.apart.low;
    plain = v.apart.plain;
    covers = λ network a e. cc;
  };
  ranges = v.ranges;
}

IsEmpty-Sound : {c : Coordinator} → IsEmpty c → Sound c
IsEmpty-Sound v = record {
  apart = record {
    apart = rw v.no_nodes tt;
    low = rw v.no_nodes tt;
    plain = rw v.no_nodes tt;
    covers = λ network a e. let none_yet = rw v.no_ipams at e in cc;
  };
  ranges = v.ranges;
}

Step-Sound : (cfg : Setup) {c d : Coordinator} → Step cfg c d → Sound c → Sound d
Step-Sound cfg (registers now q) v = (register-Settles cfg now q v).1
Step-Sound cfg (subscribes now mkey) v = subscribe-Sound cfg now mkey v
Step-Sound cfg (leaves now n ch) v = unsubscribe-Sound cfg now n ch v
Step-Sound cfg (moves mkey eps) v = update_endpoints-Sound cfg mkey eps v
Step-Sound cfg (deletes id) v = delete_device-Sound cfg id v
Step-Sound cfg (approves id route approved) v = approve_route-Sound cfg id route approved v
Step-Sound cfg {c} (notifies network) v = notify-Sound cfg network c v
Step-Sound cfg {c} (signals s same) v = same-Sound {c = c} same refl refl v
Step-Sound cfg restarts v = restarted-Sound v
Step-Sound cfg (administers keys rules users) v = record { apart = v.apart; ranges = v.ranges }

Reach-Sound : (cfg : Setup) {c : Coordinator} → Reach cfg c → Sound c
Reach-Sound cfg (start empty) = IsEmpty-Sound empty
Reach-Sound cfg (next r st) = Step-Sound cfg st (Reach-Sound cfg r)

-- Whatever devices register, register again under another name, move, subscribe, leave and are
-- deleted, and whether or not the coordinator restarts in between, any two devices have different
-- numbers, and any two devices of one network have different hostnames and different IPv4 addresses.
pub Reach-Apart :
    (cfg : Setup) {c : Coordinator} → Reach cfg c → Pairwise Apart c.signals.nodes.rows
Reach-Apart cfg r = (Reach-Sound cfg r).apart.apart

-- In every state that the coordinator reaches, a registration comes to an end: it never gives the
-- error that stands for fuel that ran out, in the search for an address or in that for a hostname. It
-- may give the allocator's error, when a range is exhausted.
pub register_ends :
    (cfg : Setup) (now : ℕ) (q : Request) {c : Coordinator}
    → Reach cfg c
    → (register cfg now q c).0 ≢ err diverged
register_ends cfg now q r = (register-Settles cfg now q (Reach-Sound cfg r)).0
