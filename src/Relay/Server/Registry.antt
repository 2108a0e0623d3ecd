-- ===== src/Relay/Server/Registry.antt =====
-- The registry: at most one connection that serves a key, and queues within their capacity, in every
-- state that the server's goroutines can reach together.
use over_mesh.Common.{
  ℕ, ◌+◌, ◌≤◌, ◌<◌, ◌≡◌, refl, ap, Bool, not, ◌&&◌, true, false, List, [], ◌∷◌, ◌++◌, Option, none,
  some, ltb, nat_beq, nat_eq, bytes_eq, bytes_beq_iff, length, length-append, take, drop, lookup,
  lookup-delete, insert, delete, arith, Option-cases, Bool-cases, inl, inr, bytes_beq,
}
use over_mesh.Relay.Frames.{frame_recv, frame_ping, frame_send}
use over_mesh.Relay.Server.{
  Server, ServerConn, OutFrame, new_server, sendq_cap, close_conn, register, unregister, enqueue,
  forward_to, forward, close_old, pop, handle_frame, take_frame,
}

-- Open, and its `serveConn` has not left the registry.
abbrev pub is_serving : ServerConn → Bool
is_serving c = c.live && not c.leaving

pub record IsValid (s : Server) : Type 0 where
  pub routed :
      (k : List ℕ) (i : ℕ)
      → lookup k s.conns ≡ some i
      → (c : ServerConn) × (lookup i s.objs ≡ some c) × (c.key ≡ k)
  pub serving_is_routed :
      (i : ℕ) (c : ServerConn)
      → lookup i s.objs ≡ some c
      → is_serving c ≡ true
      → lookup c.key s.conns ≡ some i
  pub bounded : (i : ℕ) (c : ServerConn) → lookup i s.objs ≡ some c → length c.sendq ≤ sendq_cap
  pub numbered : (i : ℕ) (c : ServerConn) → lookup i s.objs ≡ some c → i < s.next_id

-- Replacing a connection by one with its key, that serves only if it did, keeps validity.
replace-IsValid :
    {s : Server} (id : ℕ) (c c' : ServerConn)
    → IsValid s
    → lookup id s.objs ≡ some c
    → c'.key ≡ c.key
    → (is_serving c' ≡ true → is_serving c ≡ true)
    → length c'.sendq ≤ sendq_cap
    → IsValid (record s { objs = insert id c' s.objs })
replace-IsValid {s} id c c' v here key live short = record {
  routed = λ k i e. elim (Bool-cases (nat_beq id i)) [
    | inl same ↦ (c', rw same refl, ground (arith, v.routed k i e))
    | inr other ↦ let (d, at, is) = v.routed k i e in (d, rw other at, is)
  ];
  serving_is_routed = λ i d e l. ground (arith, v.serving_is_routed i d, v.serving_is_routed id c);
  bounded = λ i d e. ground (arith, v.bounded i d);
  numbered = λ i d e. ground (arith, v.numbered i d, v.numbered id c);
}

close_conn-IsValid : {s : Server} (id : ℕ) → IsValid s → IsValid (close_conn id s)
unfolding close_conn
close_conn-IsValid {s} id v = elim (Option-cases (lookup id s.objs)) [
  | inl missing ↦ rw (missing, close_conn) v
  | inr (c, here) ↦
      rw (here, close_conn)
        (replace-IsValid id c (record c { live = false }) v here refl (λ e. cc)
          (v.bounded id c here))
]

enqueue-IsValid : {s : Server} (id : ℕ) (f : OutFrame) → IsValid s → IsValid (enqueue id f s).0
unfolding enqueue
enqueue-IsValid {s} id f v = elim (Option-cases (lookup id s.objs)) [
  | inl missing ↦ rw (missing, enqueue) v
  | inr (c, here) ↦
      rw (here, enqueue)
        (elim (Bool-cases (ltb (length c.sendq) sendq_cap)) [
          | inl room ↦ rw room (
              replace-IsValid id c (record c { sendq = c.sendq ++ f ∷ [] }) v here refl (λ e. e)
                (ground (arith, length-append c.sendq (f ∷ []))))
          | inr full ↦ rw full v
        ])
]

counted-IsValid :
    {s : Server} (n b d : ℕ)
    → IsValid s
    → IsValid (record s { frames_forwarded = n; bytes_forwarded = b; frames_dropped = d })
counted-IsValid n b d v = record {
  routed = v.routed;
  serving_is_routed = v.serving_is_routed;
  bounded = v.bounded;
  numbered = v.numbered;
}

forward_to-IsValid :
    {s : Server} (target : ℕ) (src payload : List ℕ)
    → IsValid s
    → IsValid (forward_to target src payload s)
unfolding forward_to
forward_to-IsValid {s} target src payload v =
    let f : OutFrame = record { typ = frame_recv; body = src ++ payload } in
    let kept = enqueue-IsValid target f v in
    elim (Bool-cases (enqueue target f s).1) [
      | inl room ↦ rw room (counted-IsValid _ _ _ kept)
      | inr full ↦ rw full (counted-IsValid _ _ _ kept)
    ]

pub forward-IsValid :
    {s : Server} (src dst payload : List ℕ) → IsValid s → IsValid (forward src dst payload s)
unfolding forward
forward-IsValid {s} src dst payload v = elim (Option-cases (lookup dst s.conns)) [
  | inl missing ↦ rw missing v
  | inr (target, found) ↦ rw found (forward_to-IsValid target src payload v)
]

pub handle_frame-IsValid :
    {s : Server} (id : ℕ) (key : List ℕ) (typ : ℕ) (body : List ℕ)
    → IsValid s
    → IsValid (handle_frame id key typ body s)
unfolding handle_frame
handle_frame-IsValid {s} id key typ body v = elim (Bool-cases (nat_beq typ frame_ping)) [
  | inl ping ↦ rw ping (enqueue-IsValid id _ v)
  | inr other ↦ rw other (elim (Bool-cases (nat_beq typ frame_send)) [
    | inl send ↦ rw send (elim (Bool-cases (ltb (length body) 32)) [
      | inl short ↦ rw short v
      | inr long ↦ rw long (forward-IsValid key (take 32 body) (drop 32 body) v)
    ])
    | inr unknown ↦ rw unknown v
  ])
]

-- No connection serves the key.
abbrev NoneLive : List ℕ → Server → Type 0
NoneLive key s =
    (i : ℕ) (c : ServerConn)
    → lookup i s.objs ≡ some c
    → is_serving c ≡ true
    → bytes_beq key c.key ≡ false

add-IsValid :
    {s : Server} (key : List ℕ)
    → IsValid s
    → NoneLive key s
    → IsValid (record s {
      conns = insert key s.next_id s.conns;
      objs =
          insert s.next_id (record { key = key; sendq = []; live = true; leaving = false }) s.objs;
      next_id = s.next_id + 1;
    })
add-IsValid {s} key v idle = record {
  routed = λ k i e. elim (Bool-cases (bytes_beq key k)) [
    | inl same ↦ (
      record { key = key; sendq = []; live = true; leaving = false },
      ground (arith, rw same at e),
      (bytes_beq_iff key k).0 same,
    )
    | inr other ↦
        let (d, at, is) = v.routed k i (rw other at e) in
        (d, ground (arith, v.numbered i d at, at), is)
  ];
  serving_is_routed = λ i c e l. elim (Bool-cases (nat_beq s.next_id i)) [
    | inl new ↦ ground (arith, (bytes_beq_iff key key).1 refl)
    | inr old ↦ ground (arith, v.serving_is_routed i c, idle i c)
  ];
  bounded = λ i c e. ground (arith, v.bounded i c);
  numbered = λ i c e. ground (arith, v.numbered i c);
}

close_old-NoneLive :
    {s : Server} (key : List ℕ) (old : Option ℕ)
    → IsValid s
    → lookup key s.conns ≡ old
    → NoneLive key (close_old old s)
unfolding close_old close_conn
close_old-NoneLive {s} key none v e i c at l =
    ground (arith, v.serving_is_routed i c at l, bytes_beq_iff key c.key)
close_old-NoneLive {s} key (some old) v e i c at l =
    ground (arith, v.serving_is_routed i c, bytes_beq_iff key c.key, v.routed key old e)

close_old-IsValid : {s : Server} (old : Option ℕ) → IsValid s → IsValid (close_old old s)
unfolding close_old
close_old-IsValid none v = v
close_old-IsValid (some old) v = close_conn-IsValid old v

pub register-IsValid : {s : Server} (key : List ℕ) → IsValid s → IsValid (register key s)
unfolding register
register-IsValid {s} key v =
    add-IsValid key (close_old-IsValid (lookup key s.conns) v)
      (close_old-NoneLive key (lookup key s.conns) v refl)

drop-IsValid :
    {s : Server} (id : ℕ) (c : ServerConn)
    → lookup id s.objs ≡ some c
    → lookup c.key s.conns ≡ some id
    → IsValid s
    → IsValid (record s {
      conns = delete c.key s.conns;
      objs = insert id (record c { leaving = true }) s.objs;
    })
drop-IsValid {s} id c here route v = record {
  routed = λ k i e.
      let e' = lookup-delete c.key k s.conns in
      elim (Bool-cases (nat_beq id i)) [
        | inl same ↦ (record c { leaving = true }, rw same refl, ground (arith, e', v.routed k i))
        | inr other ↦ let (d, at, is) = v.routed k i (ground (arith, e')) in (d, rw other at, is)
      ];
  serving_is_routed = λ i d e l. ground (
    arith,
    lookup-delete c.key d.key s.conns,
    bytes_beq_iff c.key d.key,
    v.serving_is_routed i d,
  );
  bounded = λ i d e. ground (arith, v.bounded i d, v.bounded id c);
  numbered = λ i d e. ground (arith, v.numbered i d, v.numbered id c);
}

leave-IsValid :
    {s : Server} (id : ℕ) (c : ServerConn)
    → lookup id s.objs ≡ some c
    → IsValid s
    → IsValid (record s { objs = insert id (record c { leaving = true }) s.objs })
leave-IsValid {s} id c here v =
    replace-IsValid id c (record c { leaving = true }) v here refl (λ e. ground (arith, e))
      (v.bounded id c here)

pub unregister-IsValid :
    {s : Server} (id : ℕ) (c : ServerConn)
    → lookup id s.objs ≡ some c
    → IsValid s
    → IsValid (unregister c.key id s)
unfolding unregister
unregister-IsValid {s} id c here v =
    let left = leave-IsValid id c here v in
    elim (Option-cases (lookup c.key s.conns)) [
      | inl missing ↦ rw (missing, here) left
      | inr (cur, found) ↦ rw found (elim (Bool-cases (nat_beq cur id)) [
        | inl same ↦ rw (same, here) (drop-IsValid id c here (ground arith) v)
        | inr other ↦ rw (other, here) left
      ])
    ]

pop-eq-some :
    (q : List OutFrame) {f : OutFrame} {rest : List OutFrame}
    → pop q ≡ some (f, rest)
    → q ≡ f ∷ rest
unfolding pop
pop-eq-some [] e = cc
pop-eq-some (g ∷ q) e = cc

take_frame-IsValid : {s : Server} (id : ℕ) → IsValid s → IsValid (take_frame id s).0
unfolding take_frame
take_frame-IsValid {s} id v = elim (Option-cases (lookup id s.objs)) [
  | inl missing ↦ rw (missing, take_frame) v
  | inr (c, here) ↦
      rw (here, take_frame)
        (elim (Option-cases (pop c.sendq)) [
          | inl empty ↦ rw empty v
          | inr ((f, q), popped) ↦ rw popped (
              replace-IsValid id c (record c { sendq = q }) v here refl (λ e. e)
                (omega (arith, v.bounded id c here, ap length (pop-eq-some c.sendq popped))))
        ])
]

-- One step of one of the server's goroutines.
pub data Step (s : Server) : Server → Type 0 where
  registers : (key : List ℕ) → Step s (register key s)
  leaves : (id : ℕ) (c : ServerConn) → lookup id s.objs ≡ some c → Step s (unregister c.key id s)
  closes : (id : ℕ) → Step s (close_conn id s)
  reads :
      (id : ℕ) (c : ServerConn) (typ : ℕ) (body : List ℕ)
      → lookup id s.objs ≡ some c
      → Step s (handle_frame id c.key typ body s)
  -- the send on the queue of a target that was looked up in an earlier state
  sends : (target : ℕ) (src payload : List ℕ) → Step s (forward_to target src payload s)
  writes : (id : ℕ) → Step s (take_frame id s).0

pub data Reach : Server → Type 0 where
  start : Reach new_server
  next : {s t : Server} → Reach s → Step s t → Reach t

new_server-IsValid : IsValid new_server
new_server-IsValid = record {
  routed = λ k i e. cc;
  serving_is_routed = λ i c e l. cc;
  bounded = λ i c e. cc;
  numbered = λ i c e. cc;
}

Step-IsValid : {s t : Server} → Step s t → IsValid s → IsValid t
Step-IsValid (registers key) v = register-IsValid key v
Step-IsValid (leaves id c here) v = unregister-IsValid id c here v
Step-IsValid (closes id) v = close_conn-IsValid id v
Step-IsValid (reads id c typ body here) v = handle_frame-IsValid id c.key typ body v
Step-IsValid (sends target src payload) v = forward_to-IsValid target src payload v
Step-IsValid (writes id) v = take_frame-IsValid id v

-- In every reachable state of the relay the registry leads only to connections that have the key, an
-- open connection is the one that the registry names for its key unless its goroutine has left the
-- registry and is about to close it, and no queue is over its capacity.
pub Reach-IsValid : {s : Server} → Reach s → IsValid s
Reach-IsValid start = new_server-IsValid
Reach-IsValid (next r st) = Step-IsValid st (Reach-IsValid r)

-- In every reachable state two connections that serve one key are the same connection: a newer one
-- has closed the older.
Reach-one_live :
    {s : Server} (i j : ℕ) (c d : ServerConn)
    → Reach s
    → lookup i s.objs ≡ some c
    → lookup j s.objs ≡ some d
    → is_serving c ≡ true
    → is_serving d ≡ true
    → c.key ≡ d.key
    → i ≡ j
Reach-one_live i j c d r at_i at_j on_i on_j same =
    let v = Reach-IsValid r in
    ground
      (arith, v.serving_is_routed i c at_i on_i, rw (← same) at (v.serving_is_routed j d at_j on_j))
