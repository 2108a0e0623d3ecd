-- ===== src/Magicsock/Manager.antt =====
-- internal/magicsock/connmgr.go: the negotiations of direct paths. Agents are numbers, and texts are
-- their bytes. What a goroutine does under the mutex is one step; a loop over a map goes over the
-- entries as they are when it starts. The updates of a path that ICE selected or lost are left out.
pub mod Sessions
pub mod Reachable
pub mod Candidates
use over_mesh.Common.{
  ℕ, ◌+◌, Bool, true, false, not, ◌||◌, ◌&&◌, List, [], ◌∷◌, ◌++◌, map, Option, none, some, ltb,
  leb, nat_beq, nat_eq, if◌then◌else◌, lookup, insert, delete, select,
}

pub record PeerConn : Type 0 where
  pub session : ℕ
  pub agent : Option ℕ
  pub pending_remote : List (List ℕ)

pub data PathState : Type 0 where
  path_none path_connecting : PathState

pub record PathUpdate : Type 0 where
  pub node_id : ℕ
  pub state : PathState

-- `updates` is what `onPath` was called with, `closed_agents` the agents that were closed, `added` the
-- candidates that agents were given, and `started` the nodes and sessions of the negotiations that this
-- node began.
pub record Manager : Type 0 where
  pub self_node : ℕ
  pub peers : List (ℕ × PeerConn)
  pub closed : Bool
  pub restarts : ℕ
  pub updates : List PathUpdate
  pub closed_agents : List ℕ
  pub added : List (ℕ × List ℕ)
  pub started : List (ℕ × ℕ)

unfoldable pub new_manager : ℕ → Manager
new_manager self = record {
  self_node = self;
  peers = [];
  closed = false;
  restarts = 0;
  updates = [];
  closed_agents = [];
  added = [];
  started = [];
}

abbrev pub on_path : ℕ → PathState → Manager → Manager
on_path id state m = record m { updates = m.updates ++ record { node_id = id; state = state } ∷ [] }

abbrev pub close_agent : Option ℕ → Manager → Manager
close_agent none m = m
close_agent (some a) m = record m { closed_agents = a ∷ m.closed_agents }

-- `teardownLocked` and the deletion of the entry.
abbrev pub torn_down : ℕ → PeerConn → Manager → Manager
torn_down id pc m =
    let ended = close_agent pc.agent m in record ended { peers = delete id ended.peers }

-- `session` is the time at which it is called.
abbrev pub start_initiator : ℕ → ℕ → Manager → Manager
start_initiator id session m =
    let pc : PeerConn = record { session = session; agent = none; pending_remote = [] } in
    let entered : Manager = record m { peers = insert id pc m.peers } in
    let told = on_path id path_connecting entered in
    record told { started = (id, session) ∷ told.started }

abbrev pub is_online : Option Bool → Bool
is_online none = false
is_online (some up) = up

abbrev pub drop_offline : List (ℕ × Bool) → List (ℕ × PeerConn) → Manager → Manager
drop_offline online [] m = m
drop_offline online ((id, pc) ∷ peers) m =
    drop_offline online peers
      (if not (is_online (lookup id online)) then on_path id path_none (torn_down id pc m) else m)

abbrev pub is_known : Option PeerConn → Bool
is_known none = false
is_known (some pc) = true

abbrev pub initiate_all : (ℕ → ℕ) → List (ℕ × Bool) → Manager → Manager
initiate_all clock [] m = m
initiate_all clock ((id, up) ∷ online) m = initiate_all clock online (
    if is_known (lookup id m.peers) || leb id m.self_node
    then m
    else start_initiator id (clock id) m)

-- `clock` is the time at which the negotiation with a node starts.
unfoldable pub set_peers : (ℕ → ℕ) → List (ℕ × Bool) → Manager → Manager
set_peers clock online m =
    if m.closed then m else initiate_all clock online (drop_offline online m.peers m)

abbrev pub restart_all : (ℕ → ℕ) → List (ℕ × PeerConn) → Manager → Manager
restart_all clock [] m = m
restart_all clock ((id, pc) ∷ peers) m =
    let gone = torn_down id pc m in
    restart_all clock peers (
      if ltb gone.self_node id
      then start_initiator id (clock id) gone
      else on_path id path_connecting gone)

unfoldable pub restart : (ℕ → ℕ) → Manager → Manager
restart clock m =
    if m.closed then m else restart_all clock m.peers (record m { restarts = m.restarts + 1 })

abbrev pub close_all : List (ℕ × PeerConn) → Manager → Manager
close_all [] m = m
close_all ((id, pc) ∷ peers) m = close_all peers (torn_down id pc m)

unfoldable pub close_manager : Manager → Manager
close_manager m = close_all m.peers (record m { closed = true })

-- The part of `runInitiator` before the next attempt: `now` is the new session.
abbrev pub renewed : ℕ → ℕ → ℕ → Option PeerConn → Manager → Manager
renewed id session now none m = m
renewed id session now (some pc) m =
    if not (nat_beq pc.session session) || m.closed
    then m
    else record m { peers = insert id (record pc { session = now; pending_remote = [] }) m.peers }

unfoldable pub retry : ℕ → ℕ → ℕ → Manager → Manager
retry id session now m = renewed id session now (lookup id m.peers) m

abbrev pub respond : ℕ → ℕ → Manager → Manager
respond from session m =
    let pc : PeerConn = record { session = session; agent = none; pending_remote = [] } in
    on_path from path_connecting (record m { peers = insert from pc m.peers })

abbrev pub offered : ℕ → ℕ → Option PeerConn → Manager → Manager
offered from session none m = respond from session m
offered from session (some pc) m =
    if leb session pc.session then m else respond from session (torn_down from pc m)

unfoldable pub handle_offer : ℕ → ℕ → Manager → Manager
handle_offer from session m = if m.closed then m else offered from session (lookup from m.peers) m

-- `usable` is that the text is a candidate's and its address no loopback address.
module _ (usable : List ℕ → Bool) where
  abbrev pub add_remote_candidate : ℕ → List ℕ → Manager → Manager
  add_remote_candidate agent raw m =
      if usable raw then record m { added = m.added ++ (agent, raw) ∷ [] } else m

  abbrev pub stash_or_add : ℕ → PeerConn → List ℕ → Option ℕ → Manager → Manager
  stash_or_add from pc raw none m = record m {
    peers = insert from (record pc { pending_remote = pc.pending_remote ++ raw ∷ [] }) m.peers;
  }
  stash_or_add from pc raw (some agent) m = add_remote_candidate agent raw m

  abbrev pub candidate_for : ℕ → ℕ → List ℕ → Option PeerConn → Manager → Manager
  candidate_for from session raw none m = m
  candidate_for from session raw (some pc) m =
      if not (nat_beq pc.session session) then m else stash_or_add from pc raw pc.agent m

  unfoldable pub handle_candidate : ℕ → ℕ → List ℕ → Manager → Manager
  handle_candidate from session raw m = candidate_for from session raw (lookup from m.peers) m

-- What the goroutine then gives to the agent, one candidate after the other and outside the lock.
abbrev pub attached : ℕ → ℕ → ℕ → Option PeerConn → Manager → List (List ℕ) × Manager
attached id session agent none m = ([], close_agent (some agent) m)
attached id session agent (some pc) m =
    if not (nat_beq pc.session session) then ([], close_agent (some agent) m) else (
      pc.pending_remote,
      record m {
        peers = insert id (record pc { agent = some agent; pending_remote = [] }) m.peers;
      },
    )

-- The critical section of `negotiate` that sets the agent and takes the candidates that came before it.
unfoldable pub attach : ℕ → ℕ → ℕ → Manager → List (List ℕ) × Manager
attach id session agent m = attached id session agent (lookup id m.peers) m
