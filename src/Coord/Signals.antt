-- ===== src/Coord/Signals.antt =====
-- internal/coord/signal.go, and what `DeleteNode` of internal/coord/coord.go does to the signal
-- inboxes. A channel stays in the store under its number when the map no longer names it, since its
-- stream still holds it. The mutex makes each function one step.
pub mod Channels
pub mod Routing
use over_mesh.Common.{
  ℕ, ◌+◌, Bool, true, false, not, List, [], ◌∷◌, ◌++◌, Option, none, some, ltb, nat_beq, nat_eq,
  if◌then◌else◌, length, lookup, insert, delete,
}
use over_mesh.Store.Nodes.{Node, Nodes, node_by_machine_key, node_by_id, delete_node}

pub record Envelope : Type 0 where
  pub to_node_id : ℕ
  pub from_node_id : ℕ
  pub kind : ℕ
  pub payload : List ℕ
  pub session : ℕ

-- A channel and the node that it was made for.
pub record Inbox : Type 0 where
  pub node : ℕ
  pub queue : List Envelope
  pub is_open : Bool

-- `panicked` is that a closed channel was closed again or sent on, which ends a Go program.
pub record Signals : Type 0 where
  pub nodes : Nodes
  pub sig_subs : List (ℕ × ℕ)
  pub inboxes : List (ℕ × Inbox)
  pub next_inbox : ℕ
  pub panicked : Bool

abbrev pub new_signals : Nodes → Signals
new_signals nodes = record {
  nodes = nodes;
  sig_subs = [];
  inboxes = [];
  next_inbox = 0;
  panicked = false;
}

-- `make(chan *overmeshv1.SignalEnvelope, 32)`
abbrev pub inbox_cap : ℕ
inbox_cap = 32

abbrev pub put_inbox : ℕ → Inbox → Signals → Signals
put_inbox i c s = record s { inboxes = insert i c s.inboxes }

-- `close` of a channel
unfoldable pub close_inbox : ℕ → Signals → Signals
close_inbox i s = elim (lookup i s.inboxes) [
  | none ↦ s
  | some c ↦
      if c.is_open
      then put_inbox i (record c { is_open = false }) s
      else record s { panicked = true }
]

abbrev pub close_named : Option ℕ → Signals → Signals
close_named none s = s
close_named (some old) s = close_inbox old s

abbrev pub add_inbox : ℕ → Signals → Signals
add_inbox n s = record s {
  sig_subs = insert n s.next_inbox s.sig_subs;
  inboxes = insert s.next_inbox (record { node = n; queue = []; is_open = true }) s.inboxes;
  next_inbox = s.next_inbox + 1;
}

abbrev pub subscribe_node : Option Node → Signals → Option (Node × ℕ) × Signals
subscribe_node none s = (none, s)
subscribe_node (some n) s =
    let closed = close_named (lookup n.id s.sig_subs) s in
    (some (n, closed.next_inbox), add_inbox n.id closed)

-- The node and its new channel; `none` for a machine key that is not registered.
unfoldable pub signal_subscribe : List ℕ → Signals → Option (Node × ℕ) × Signals
signal_subscribe mkey s = subscribe_node (node_by_machine_key mkey s.nodes) s

abbrev pub drop_sub : ℕ → ℕ → Option ℕ → Signals → Signals
drop_sub n ch none s = s
drop_sub n ch (some cur) s =
    if nat_beq cur ch then record s { sig_subs = delete n s.sig_subs } else s

-- The function that `signalSubscribe` returns.
unfoldable pub unsubscribe : ℕ → ℕ → Signals → Signals
unsubscribe n ch s = drop_sub n ch (lookup n s.sig_subs) s

-- The `select` with the send on a channel.
unfoldable pub send_to : ℕ → Envelope → Signals → Signals
send_to i env s = elim (lookup i s.inboxes) [
  | none ↦ s
  | some c ↦
      if not c.is_open
      then record s { panicked = true }
      else if ltb (length c.queue) inbox_cap
      then put_inbox i (record c { queue = c.queue ++ env ∷ [] }) s
      else s
]

abbrev pub stamped : Node → Envelope → Envelope
stamped from env = record env { from_node_id = from.id }

abbrev pub send_named : Option ℕ → Envelope → Signals → Signals
send_named none env s = s
send_named (some i) env s = send_to i env s

abbrev pub route_to : Option Node → Node → Envelope → Signals → Signals
route_to none from env s = s
route_to (some dst) from env s =
    if not (nat_beq dst.network_id from.network_id)
    then s
    else send_named (lookup dst.id s.sig_subs) (stamped from env) s

unfoldable pub route_signal : Node → Envelope → Signals → Signals
route_signal from env s = route_to (node_by_id env.to_node_id s.nodes) from env s

abbrev pub drop_inbox : ℕ → Option ℕ → Signals → Signals
drop_inbox id none s = s
drop_inbox id (some ch) s =
    let closed = close_inbox ch s in record closed { sig_subs = delete id closed.sig_subs }

abbrev pub delete_found : ℕ → Option Node → Signals → Signals
delete_found id none s = s
delete_found id (some n) s =
    let gone = record s { nodes = (delete_node id s.nodes).1 } in
    drop_inbox id (lookup id gone.sig_subs) gone

-- The part of `DeleteNode` that is about the table and the signal inboxes.
unfoldable pub delete_signals : ℕ → Signals → Signals
delete_signals id s = delete_found id (node_by_id id s.nodes) s

abbrev pub taken_from : ℕ → Inbox → List Envelope → Signals → Option Envelope × Signals
taken_from i c [] s = (none, s)
taken_from i c (env ∷ queue) s = (some env, put_inbox i (record c { queue = queue }) s)

abbrev pub take_envelope : ℕ → Option Inbox → Signals → Option Envelope × Signals
take_envelope i none s = (none, s)
take_envelope i (some c) s = taken_from i c c.queue s

-- The envelope that the stream of a device receives from its channel, if there is one.
unfoldable pub receive_signal : ℕ → Signals → Option Envelope × Signals
receive_signal i s = take_envelope i (lookup i s.inboxes) s
