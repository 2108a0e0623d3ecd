-- ===== src/Coord/Signals/Channels.antt =====
-- No sequence of subscriptions, deletions and envelopes closes a channel twice or sends on a closed
-- one.
use over_mesh.Common.{
  ℕ, ◌≤◌, ◌<◌, ◌≡◌, refl, sym, ap, ◌∙◌, of_some, true, false, List, [], ◌∷◌, ◌++◌, some, ltb,
  nat_beq, nat_eq, nat_beq_iff, length, length-append, lookup, delete, lookup-delete, arith,
  Option-cases, Bool-cases, inl, inr,
}
use over_mesh.Store.Nodes.{Node, Nodes, node_by_machine_key, node_by_id, delete_node}
use over_mesh.Coord.Signals.{
  Envelope, Inbox, Signals, new_signals, inbox_cap, close_inbox, close_named, add_inbox,
  signal_subscribe, unsubscribe, send_to, route_signal, receive_signal, taken_from, drop_inbox,
  delete_signals, stamped,
}

pub record IsCalm (s : Signals) : Type 0 where
  pub routed :
      (n i : ℕ)
      → lookup n s.sig_subs ≡ some i
      → (c : Inbox) × (lookup i s.inboxes ≡ some c) × (c.node ≡ n) × (c.is_open ≡ true)
  pub numbered : (i : ℕ) (c : Inbox) → lookup i s.inboxes ≡ some c → i < s.next_inbox
  pub bounded : (i : ℕ) (c : Inbox) → lookup i s.inboxes ≡ some c → length c.queue ≤ inbox_cap
  pub calm : s.panicked ≡ false

send_to-IsCalm :
    {s : Signals} (n i : ℕ) (env : Envelope)
    → IsCalm s
    → lookup n s.sig_subs ≡ some i
    → IsCalm (send_to i env s)
unfolding send_to
send_to-IsCalm {s} n i env v named =
    let (c, here, is, on) = v.routed n i named in
    rw (here, send_to, on)
      (elim (Bool-cases (ltb (length c.queue) inbox_cap)) [
        | inr full ↦ rw full v
        | inl room ↦ rw room (record {
          routed = λ m j e. elim (Bool-cases (nat_beq i j)) [
            | inl same ↦ (
              record c { queue = c.queue ++ env ∷ []; is_open = true },
              rw same refl,
              ground (arith, v.routed m j e),
              refl,
            )
            | inr other ↦ let (d, at, of, up) = v.routed m j e in (d, rw other at, of, up)
          ];
          numbered = λ j d e. ground (arith, v.numbered j d, v.numbered i c here);
          bounded = λ j d e. ground (arith, v.bounded j d, length-append c.queue (env ∷ []));
          calm = v.calm;
        })
      ])

-- The same, but for the channel that is named for `n`.
record IsCalmBut (n : ℕ) (s : Signals) : Type 0 where
  routed :
      (m i : ℕ)
      → nat_beq n m ≡ false
      → lookup m s.sig_subs ≡ some i
      → (c : Inbox) × (lookup i s.inboxes ≡ some c) × (c.node ≡ m) × (c.is_open ≡ true)
  numbered : (i : ℕ) (c : Inbox) → lookup i s.inboxes ≡ some c → i < s.next_inbox
  bounded : (i : ℕ) (c : Inbox) → lookup i s.inboxes ≡ some c → length c.queue ≤ inbox_cap
  calm : s.panicked ≡ false

IsCalm-but : {s : Signals} (n : ℕ) → IsCalm s → IsCalmBut n s
IsCalm-but n v = record {
  routed = λ m i away e. v.routed m i e;
  numbered = v.numbered;
  bounded = v.bounded;
  calm = v.calm;
}

apart :
    (c d : Inbox) (i j n m : ℕ) (s : Signals)
    → lookup i s.inboxes ≡ some c
    → lookup j s.inboxes ≡ some d
    → c.node ≡ n
    → d.node ≡ m
    → nat_beq n m ≡ false
    → nat_beq i j ≡ false
apart c d i j n m s here at is of away = elim (Bool-cases (nat_beq i j)) [
  | inr other ↦ other
  | inl same ↦
      let k : i ≡ j = (nat_beq_iff i j).0 same in
      let one : some c ≡ some d = sym here ∙ ap (λ (x : ℕ). lookup x s.inboxes) k ∙ at in
      let nodes : n ≡ m = sym is ∙ ap (λ (x : Inbox). x.node) (of_some one) ∙ of in
      ground (arith, nodes, away)
]

-- Closing the channel that is named for `n` does not panic.
close_named-IsCalmBut :
    {s : Signals} (n : ℕ) → IsCalm s → IsCalmBut n (close_named (lookup n s.sig_subs) s)
unfolding close_inbox
close_named-IsCalmBut {s} n v = elim (Option-cases (lookup n s.sig_subs)) [
  | inl unnamed ↦ rw unnamed (IsCalm-but n v)
  | inr (i, named) ↦
      let (c, here, is, on) = v.routed n i named in
      rw (named, here, close_inbox, on)
        (record {
          routed = λ m j away e.
              let (d, at, of, up) = v.routed m j e in
              let other = apart c d i j n m s here at is of away in (d, rw other at, of, up);
          numbered = λ j d e. ground (arith, v.numbered j d, v.numbered i c here);
          bounded = λ j d e. ground (arith, v.bounded j d, v.bounded i c here);
          calm = v.calm;
        })
]

add_inbox-IsCalm : {s : Signals} (n : ℕ) → IsCalmBut n s → IsCalm (add_inbox n s)
add_inbox-IsCalm {s} n v = record {
  routed = λ m i e. elim (Bool-cases (nat_beq n m)) [
    | inl same ↦ (
      record { node = n; queue = []; is_open = true },
      ground (arith, rw same at e),
      (nat_beq_iff n m).0 same,
      refl,
    )
    | inr other ↦
        let (d, at, of, up) = v.routed m i other (rw other at e) in
        (d, ground (arith, v.numbered i d at, at), of, up)
  ];
  numbered = λ i c e. ground (arith, v.numbered i c);
  bounded = λ i c e. ground (arith, v.bounded i c);
  calm = v.calm;
}

delete-IsCalm :
    {s : Signals} (n : ℕ) → IsCalmBut n s → IsCalm (record s { sig_subs = delete n s.sig_subs })
delete-IsCalm {s} n v = record {
  routed = λ m i e.
      let away : nat_beq n m ≡ false = ground (arith, lookup-delete n m s.sig_subs, e) in
      let old : lookup m s.sig_subs ≡ some i = ground (arith, lookup-delete n m s.sig_subs, e) in
      v.routed m i away old;
  numbered = v.numbered;
  bounded = v.bounded;
  calm = v.calm;
}

signal_subscribe-IsCalm :
    {s : Signals} (mkey : List ℕ) → IsCalm s → IsCalm (signal_subscribe mkey s).1
unfolding signal_subscribe
signal_subscribe-IsCalm {s} mkey v = elim (Option-cases (node_by_machine_key mkey s.nodes)) [
  | inl unknown ↦ rw unknown v
  | inr (n, found) ↦ rw found (add_inbox-IsCalm n.id (close_named-IsCalmBut n.id v))
]

unsubscribe-IsCalm : {s : Signals} (n ch : ℕ) → IsCalm s → IsCalm (unsubscribe n ch s)
unfolding unsubscribe
unsubscribe-IsCalm {s} n ch v = elim (Option-cases (lookup n s.sig_subs)) [
  | inl unnamed ↦ rw unnamed v
  | inr (cur, named) ↦ rw named (elim (Bool-cases (nat_beq cur ch)) [
    | inl same ↦ rw same (delete-IsCalm n (IsCalm-but n v))
    | inr other ↦ rw other v
  ])
]

route_signal-IsCalm :
    {s : Signals} (from : Node) (env : Envelope) → IsCalm s → IsCalm (route_signal from env s)
unfolding route_signal
route_signal-IsCalm {s} from env v = elim (Option-cases (node_by_id env.to_node_id s.nodes)) [
  | inl unknown ↦ rw unknown v
  | inr (dst, found) ↦ rw found (elim (Bool-cases (nat_beq dst.network_id from.network_id)) [
    | inr foreign ↦ rw foreign v
    | inl near ↦ rw near (elim (Option-cases (lookup dst.id s.sig_subs)) [
      | inl unnamed ↦ rw unnamed v
      | inr (i, named) ↦ rw named (send_to-IsCalm dst.id i (stamped from env) v named)
    ])
  ])
]

with_nodes-IsCalm : {s : Signals} (t : Nodes) → IsCalm s → IsCalm (record s { nodes = t })
with_nodes-IsCalm t v = record {
  routed = v.routed;
  numbered = v.numbered;
  bounded = v.bounded;
  calm = v.calm;
}

drop_named-IsCalm :
    {s : Signals} (id : ℕ) → IsCalm s → IsCalm (drop_inbox id (lookup id s.sig_subs) s)
drop_named-IsCalm {s} id v = elim (Option-cases (lookup id s.sig_subs)) [
  | inl unnamed ↦ rw unnamed v
  | inr (ch, named) ↦
      let closed : IsCalmBut id (close_inbox ch s) = rw named at (close_named-IsCalmBut id v) in
      rw named (delete-IsCalm id closed)
]

delete_signals-IsCalm : {s : Signals} (id : ℕ) → IsCalm s → IsCalm (delete_signals id s)
unfolding delete_signals
delete_signals-IsCalm {s} id v = elim (Option-cases (node_by_id id s.nodes)) [
  | inl unknown ↦ rw unknown v
  | inr (n, found) ↦
      rw found (drop_named-IsCalm id (with_nodes-IsCalm (delete_node id s.nodes).1 v))
]

-- One critical section of the coordinator. The table of the nodes changes in other ways, too.
receive_signal-IsCalm : {s : Signals} (i : ℕ) → IsCalm s → IsCalm (receive_signal i s).1
unfolding receive_signal
receive_signal-IsCalm {s} i v = elim (Option-cases (lookup i s.inboxes)) [
  | inl missing ↦ rw missing v
  | inr (c, here) ↦ rw here (taken c.queue refl here)
]
  where
    taken :
        {c : Inbox} (queue : List Envelope)
        → queue ≡ c.queue
        → lookup i s.inboxes ≡ some c
        → IsCalm (taken_from i c queue s).1
    taken {c} [] is here = v
    taken {c} (env ∷ queue) is here = record {
      routed = λ m j e. elim (Bool-cases (nat_beq i j)) [
        | inl same ↦ (
          record c { queue = queue },
          rw same refl,
          ground (arith, v.routed m j e),
          ground (arith, v.routed m j e),
        )
        | inr other ↦ let (d, at, of, up) = v.routed m j e in (d, rw other at, of, up)
      ];
      numbered = λ j d e. ground (arith, v.numbered j d, v.numbered i c here);
      bounded = λ j d e. ground (arith, v.bounded j d, v.bounded i c here, ap length is);
      calm = v.calm;
    }

pub data Step (s : Signals) : Signals → Type 0 where
  subscribes : (mkey : List ℕ) → Step s (signal_subscribe mkey s).1
  leaves : (n ch : ℕ) → Step s (unsubscribe n ch s)
  routes : (from : Node) (env : Envelope) → Step s (route_signal from env s)
  receives : (i : ℕ) → Step s (receive_signal i s).1
  deletes : (id : ℕ) → Step s (delete_signals id s)
  registers : (t : Nodes) → Step s (record s { nodes = t })

pub data Reach : Signals → Type 0 where
  start : (t : Nodes) → Reach (new_signals t)
  next : {s t : Signals} → Reach s → Step s t → Reach t

new_signals-IsCalm : (t : Nodes) → IsCalm (new_signals t)
new_signals-IsCalm t = record {
  routed = λ n i e. cc;
  numbered = λ i c e. cc;
  bounded = λ i c e. cc;
  calm = refl;
}

Step-IsCalm : {s t : Signals} → Step s t → IsCalm s → IsCalm t
Step-IsCalm (subscribes mkey) v = signal_subscribe-IsCalm mkey v
Step-IsCalm (leaves n ch) v = unsubscribe-IsCalm n ch v
Step-IsCalm (routes from env) v = route_signal-IsCalm from env v
Step-IsCalm (receives i) v = receive_signal-IsCalm i v
Step-IsCalm (deletes id) v = delete_signals-IsCalm id v
Step-IsCalm (registers t) v = with_nodes-IsCalm t v

-- Whatever streams come and go and receive, devices are deleted and envelopes are routed, no inbox is closed
-- twice or sent on after it was closed, each inbox that is named for a device is open and that
-- device's own, and none holds more than its capacity.
pub Reach-IsCalm : {s : Signals} → Reach s → IsCalm s
Reach-IsCalm (start t) = new_signals-IsCalm t
Reach-IsCalm (next r st) = Step-IsCalm st (Reach-IsCalm r)
