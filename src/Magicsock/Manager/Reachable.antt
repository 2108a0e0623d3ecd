-- ===== src/Magicsock/Manager/Reachable.antt =====
-- What holds of every manager, whatever arrives and in whatever order.
use over_mesh.Common.{
  ℕ, ◌+◌, ◌<◌, ◌≡◌, refl, ap, sym, ◌∙◌, Bool, true, false, not, ◌||◌, List, [], ◌∷◌, ◌++◌, Option,
  none, some, ltb, leb, nat_beq, nat_eq, if◌then◌else◌, lookup, insert, delete, lookup-delete, All,
  arith, Bool-cases, inl, inr,
}
use over_mesh.Magicsock.Manager.{
  PeerConn, Manager, new_manager, on_path, path_none, path_connecting, close_agent, torn_down,
  start_initiator, is_online, drop_offline, is_known, initiate_all, set_peers, restart_all, restart,
  close_all, close_manager, renewed, retry, respond, offered, handle_offer, add_remote_candidate,
  stash_or_add, candidate_for, handle_candidate, attached, attach,
}

-- The negotiations that the manager began are all with nodes of higher numbers.
abbrev pub Upward : Manager → Type 0
Upward m = All (λ (s : ℕ × ℕ). m.self_node < s.0) m.started

-- A closed manager has no entries.
pub record IsSound (m : Manager) : Type 0 where
  pub upward : Upward m
  pub emptied : m.closed ≡ true → (j : ℕ) → lookup j m.peers ≡ none

abbrev IsRunning : Manager → Type 0
IsRunning m = Upward m × (m.closed ≡ false)

IsRunning-IsSound : (m : Manager) → IsRunning m → IsSound m
IsRunning-IsSound m (up, running) = record { upward = up; emptied = λ shut. cc }

-- A property of both branches.
of_both :
    (P : Manager → Type 0) (c : Bool) (m n : Manager)
    → (c ≡ true → P m)
    → (c ≡ false → P n)
    → P (if c then m else n)
of_both P true m n then_m else_n = then_m refl
of_both P false m n then_m else_n = else_n refl

ended-IsRunning :
    (agent : Option ℕ) (id : ℕ) (m : Manager)
    → IsRunning m
    → (let ended = close_agent agent m in
        IsRunning (record ended { peers = delete id ended.peers }))
ended-IsRunning none id m run = run
ended-IsRunning (some a) id m run = run

torn_down-IsRunning :
    (id : ℕ) (pc : PeerConn) (m : Manager) → IsRunning m → IsRunning (torn_down id pc m)
torn_down-IsRunning id pc m run = ended-IsRunning pc.agent id m run

drop_offline-IsRunning :
    (online : List (ℕ × Bool)) (peers : List (ℕ × PeerConn)) (m : Manager)
    → IsRunning m
    → IsRunning (drop_offline online peers m)
drop_offline-IsRunning online [] m run = run
drop_offline-IsRunning online ((id, pc) ∷ peers) m run =
    let offline = not (is_online (lookup id online)) in
    let gone = on_path id path_none (torn_down id pc m) in
    drop_offline-IsRunning online peers (if offline then gone else m)
      (of_both IsRunning offline gone m (λ e. torn_down-IsRunning id pc m run) (λ e. run))

initiate_all-IsRunning :
    (clock : ℕ → ℕ) (online : List (ℕ × Bool)) (m : Manager)
    → IsRunning m
    → IsRunning (initiate_all clock online m)
initiate_all-IsRunning clock [] m run = run
initiate_all-IsRunning clock ((id, up) ∷ online) m run =
    let skips = is_known (lookup id m.peers) || leb id m.self_node in
    let begun = start_initiator id (clock id) m in
    initiate_all-IsRunning clock online (if skips then m else begun) (
      of_both IsRunning skips m begun (λ e. run)
        (λ e. let higher : m.self_node < id = ground (arith, e) in ((higher, run.0), run.1)))

restart_all-IsRunning :
    (clock : ℕ → ℕ) (peers : List (ℕ × PeerConn)) (m : Manager)
    → IsRunning m
    → IsRunning (restart_all clock peers m)
restart_all-IsRunning clock [] m run = run
restart_all-IsRunning clock ((id, pc) ∷ peers) m run =
    let gone = torn_down id pc m in
    let still = torn_down-IsRunning id pc m run in
    let lower = ltb gone.self_node id in
    let begun = start_initiator id (clock id) gone in
    let waits = on_path id path_connecting gone in
    restart_all-IsRunning clock peers (if lower then begun else waits) (
      of_both IsRunning lower begun waits
        (λ e. let higher : gone.self_node < id = ground (arith, e) in ((higher, still.0), still.1))
        (λ e. still))

offered-IsRunning :
    (from session : ℕ) (o : Option PeerConn) (m : Manager)
    → IsRunning m
    → IsRunning (offered from session o m)
offered-IsRunning from session none m run = run
offered-IsRunning from session (some pc) m run =
    of_both IsRunning (leb session pc.session) m (respond from session (torn_down from pc m))
      (λ e. run) (λ e. torn_down-IsRunning from pc m run)

-- What is done only while the manager is open.
unless_closed :
    (shut : Bool) (m n : Manager)
    → shut ≡ m.closed
    → IsSound m
    → (IsRunning m → IsRunning n)
    → IsSound (if shut then m else n)
unless_closed true m n here v keeps = v
unless_closed false m n here v keeps = IsRunning-IsSound _ (keeps (v.upward, sym here))

set_peers-IsSound :
    (clock : ℕ → ℕ) (online : List (ℕ × Bool)) (m : Manager)
    → IsSound m
    → IsSound (set_peers clock online m)
unfolding set_peers
set_peers-IsSound clock online m v =
    unless_closed m.closed m (initiate_all clock online (drop_offline online m.peers m)) refl v
      (λ run.
        initiate_all-IsRunning clock online (drop_offline online m.peers m)
          (drop_offline-IsRunning online m.peers m run))

restart-IsSound : (clock : ℕ → ℕ) (m : Manager) → IsSound m → IsSound (restart clock m)
unfolding restart
restart-IsSound clock m v =
    let counted : Manager = record m { restarts = m.restarts + 1 } in
    unless_closed m.closed m (restart_all clock m.peers counted) refl v
      (λ run. restart_all-IsRunning clock m.peers counted run)

handle_offer-IsSound :
    (from session : ℕ) (m : Manager) → IsSound m → IsSound (handle_offer from session m)
unfolding handle_offer
handle_offer-IsSound from session m v =
    unless_closed m.closed m (offered from session (lookup from m.peers) m) refl v
      (λ run. offered-IsRunning from session (lookup from m.peers) m run)

ended-peers :
    (agent : Option ℕ) (m : Manager)
    → ((close_agent agent m).peers ≡ m.peers)
      × ((close_agent agent m).started ≡ m.started)
      × ((close_agent agent m).self_node ≡ m.self_node)
ended-peers none m = (refl, refl, refl)
ended-peers (some a) m = (refl, refl, refl)

torn_down-Upward : (id : ℕ) (pc : PeerConn) (m : Manager) → Upward m → Upward (torn_down id pc m)
torn_down-Upward id pc m up = go pc.agent
  where
    go : (agent : Option ℕ) → Upward (close_agent agent m)
    go none = up
    go (some a) = up

close_all-Upward :
    (peers : List (ℕ × PeerConn)) (m : Manager) → Upward m → Upward (close_all peers m)
close_all-Upward [] m up = up
close_all-Upward ((id, pc) ∷ peers) m up =
    close_all-Upward peers (torn_down id pc m) (torn_down-Upward id pc m up)

torn_down-lookup :
    (id j : ℕ) (pc : PeerConn) (m : Manager)
    → lookup j (torn_down id pc m).peers ≡ (if nat_beq id j then none else lookup j m.peers)
torn_down-lookup id j pc m =
    ap (λ (ps : List (ℕ × PeerConn)). lookup j (delete id ps)) (ended-peers pc.agent m).0
    ∙ lookup-delete id j m.peers

-- What has no entry in the list that is gone over has none in the end.
close_all-lookup :
    (j : ℕ) (peers : List (ℕ × PeerConn)) (m : Manager)
    → (lookup j peers ≡ none → lookup j m.peers ≡ none)
    → lookup j (close_all peers m).peers ≡ none
close_all-lookup j [] m covered = covered refl
close_all-lookup j ((id, pc) ∷ peers) m covered =
    close_all-lookup j peers (torn_down id pc m) (λ gone.
      torn_down-lookup id j pc m ∙ (elim (Bool-cases (nat_beq id j)) [
        | inl here ↦ rw here refl
        | inr there ↦
            let skipped : lookup j ((id, pc) ∷ peers) ≡ none = rw there gone in
            rw there (covered skipped)
      ]))

close_manager-IsSound : (m : Manager) → IsSound m → IsSound (close_manager m)
unfolding close_manager
close_manager-IsSound m v = record {
  upward = close_all-Upward m.peers (record m { closed = true }) v.upward;
  emptied = λ shut j. close_all-lookup j m.peers (record m { closed = true }) (λ gone. gone);
}

-- While a node has an entry the manager is open.
entry-IsRunning :
    {m : Manager} (id : ℕ) {pc : PeerConn} → IsSound m → lookup id m.peers ≡ some pc → IsRunning m
entry-IsRunning {m} id v here = elim (Bool-cases m.closed) [
  | inl shut ↦ let gone = v.emptied shut id in cc
  | inr running ↦ (v.upward, running)
]

renewed-IsSound :
    (id session now : ℕ) (o : Option PeerConn) (m : Manager)
    → lookup id m.peers ≡ o
    → IsSound m
    → IsSound (renewed id session now o m)
renewed-IsSound id session now none m here v = v
renewed-IsSound id session now (some pc) m here v =
    let n : Manager = record m {
      peers = insert id (record pc { session = now; pending_remote = [] }) m.peers;
    } in
    of_both IsSound (not (nat_beq pc.session session) || m.closed) m n (λ e. v)
      (λ e. IsRunning-IsSound _ (entry-IsRunning id v here))

retry-IsSound : (id session now : ℕ) (m : Manager) → IsSound m → IsSound (retry id session now m)
unfolding retry
retry-IsSound id session now m v = renewed-IsSound id session now (lookup id m.peers) m refl v

module _ (usable : List ℕ → Bool) where
  add_remote_candidate-IsRunning :
      (agent : ℕ) (raw : List ℕ) (m : Manager)
      → IsRunning m
      → IsRunning (add_remote_candidate usable agent raw m)
  add_remote_candidate-IsRunning agent raw m run =
      let given : Manager = record m { added = m.added ++ (agent, raw) ∷ [] } in
      of_both IsRunning (usable raw) given m (λ e. run) (λ e. run)

  stash_or_add-IsRunning :
      (from : ℕ) (pc : PeerConn) (raw : List ℕ) (agent : Option ℕ) (m : Manager)
      → IsRunning m
      → IsRunning (stash_or_add usable from pc raw agent m)
  stash_or_add-IsRunning from pc raw none m run = run
  stash_or_add-IsRunning from pc raw (some a) m run = add_remote_candidate-IsRunning a raw m run

  candidate_for-IsSound :
      (from session : ℕ) (raw : List ℕ) (o : Option PeerConn) (m : Manager)
      → lookup from m.peers ≡ o
      → IsSound m
      → IsSound (candidate_for usable from session raw o m)
  candidate_for-IsSound from session raw none m here v = v
  candidate_for-IsSound from session raw (some pc) m here v =
      let run = entry-IsRunning from v here in
      let n = stash_or_add usable from pc raw pc.agent m in
      of_both IsSound (not (nat_beq pc.session session)) m n (λ e. v)
        (λ e. IsRunning-IsSound _ (stash_or_add-IsRunning from pc raw pc.agent m run))

  handle_candidate-IsSound :
      (from session : ℕ) (raw : List ℕ) (m : Manager)
      → IsSound m
      → IsSound (handle_candidate usable from session raw m)
  unfolding handle_candidate
  handle_candidate-IsSound from session raw m v =
      candidate_for-IsSound from session raw (lookup from m.peers) m refl v

  add_remote_candidate-IsSound :
      (agent : ℕ) (raw : List ℕ) (m : Manager)
      → IsSound m
      → IsSound (add_remote_candidate usable agent raw m)
  add_remote_candidate-IsSound agent raw m v =
      let given : Manager = record m { added = m.added ++ (agent, raw) ∷ [] } in
      of_both IsSound (usable raw) given m (λ e. record { upward = v.upward; emptied = v.emptied })
        (λ e. v)

dropped-IsSound : (agent : ℕ) {m : Manager} → IsSound m → IsSound (close_agent (some agent) m)
dropped-IsSound agent v = record { upward = v.upward; emptied = v.emptied }

attached-IsSound :
    (id session agent : ℕ) (o : Option PeerConn) (m : Manager)
    → lookup id m.peers ≡ o
    → IsSound m
    → IsSound (attached id session agent o m).1
attached-IsSound id session agent none m here v = dropped-IsSound agent v
attached-IsSound id session agent (some pc) m here v =
    elim (Bool-cases (nat_beq pc.session session)) [
      | inl same ↦ rw same (IsRunning-IsSound _ (entry-IsRunning id v here))
      | inr other ↦ rw other (dropped-IsSound agent v)
    ]

attach-IsSound :
    (id session agent : ℕ) (m : Manager) → IsSound m → IsSound (attach id session agent m).1
unfolding attach
attach-IsSound id session agent m v = attached-IsSound id session agent (lookup id m.peers) m refl v

-- What the netmap, the peers, the negotiations and the user of the manager do.
pub data Step (usable : List ℕ → Bool) (m : Manager) : Manager → Type 0 where
  reconciles : (clock : ℕ → ℕ) (online : List (ℕ × Bool)) → Step usable m (set_peers clock online m)
  restarts : (clock : ℕ → ℕ) → Step usable m (restart clock m)
  closes : Step usable m (close_manager m)
  retries : (id session now : ℕ) → Step usable m (retry id session now m)
  offers : (from session : ℕ) → Step usable m (handle_offer from session m)
  trickles :
      (from session : ℕ) (raw : List ℕ) → Step usable m (handle_candidate usable from session raw m)
  attaches : (id session agent : ℕ) → Step usable m (attach id session agent m).1
  adds : (agent : ℕ) (raw : List ℕ) → Step usable m (add_remote_candidate usable agent raw m)

pub data Reach (usable : List ℕ → Bool) (self : ℕ) : Manager → Type 0 where
  start : Reach usable self (new_manager self)
  next : {m n : Manager} → Reach usable self m → Step usable m n → Reach usable self n

Step-IsSound : {usable : List ℕ → Bool} {m n : Manager} → Step usable m n → IsSound m → IsSound n
Step-IsSound {m = m} (reconciles clock online) v = set_peers-IsSound clock online m v
Step-IsSound {m = m} (restarts clock) v = restart-IsSound clock m v
Step-IsSound {m = m} closes v = close_manager-IsSound m v
Step-IsSound {m = m} (retries id session now) v = retry-IsSound id session now m v
Step-IsSound {m = m} (offers from session) v = handle_offer-IsSound from session m v
Step-IsSound {usable} {m} (trickles from session raw) v =
    handle_candidate-IsSound usable from session raw m v
Step-IsSound {m = m} (attaches id session agent) v = attach-IsSound id session agent m v
Step-IsSound {usable} {m} (adds agent raw) v = add_remote_candidate-IsSound usable agent raw m v

new_manager-IsSound : (self : ℕ) → IsSound (new_manager self)
unfolding new_manager
new_manager-IsSound self = record { upward = tt; emptied = λ shut j. refl }

-- Whatever arrives and in whatever order, a node begins negotiations only with nodes of higher numbers,
-- and a closed manager has no entries and gets none.
pub Reach-IsSound :
    {usable : List ℕ → Bool} {self : ℕ} {m : Manager} → Reach usable self m → IsSound m
Reach-IsSound {self = self} start = new_manager-IsSound self
Reach-IsSound (next r st) = Step-IsSound st (Reach-IsSound r)
