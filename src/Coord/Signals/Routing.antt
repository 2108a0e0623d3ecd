-- ===== src/Coord/Signals/Routing.antt =====
-- What one envelope does.
use over_mesh.Common.{
  ℕ, ◌≡◌, true, [], ◌∷◌, ◌++◌, some, ltb, nat_beq, nat_eq, if◌then◌else◌, length, lookup, arith,
}
use over_mesh.Store.Nodes.{Node, node_by_id}
use over_mesh.Coord.Signals.{
  Envelope, Inbox, Signals, inbox_cap, put_inbox, send_to, route_signal, stamped,
}

-- An envelope for a device with an open inbox is appended to it with the sender's number in place of
-- the one that the sender wrote, if the device is in the sender's network and the inbox has room, and
-- is dropped without a trace otherwise.
route_signal_lem :
    (from dst : Node) (env : Envelope) (s : Signals) {i : ℕ} {c : Inbox}
    → node_by_id env.to_node_id s.nodes ≡ some dst
    → lookup dst.id s.sig_subs ≡ some i
    → lookup i s.inboxes ≡ some c
    → c.is_open ≡ true
    → route_signal from env s ≡ (
        if nat_beq dst.network_id from.network_id
        then (if ltb (length c.queue) inbox_cap
            then put_inbox i (record c { queue = c.queue ++ stamped from env ∷ [] }) s
            else s)
        else s)
unfolding route_signal send_to
route_signal_lem from dst env s {i} {c} found named here on = ground (arith, found, named, here, on)
