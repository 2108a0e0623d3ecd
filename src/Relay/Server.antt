-- ===== src/Relay/Server.antt =====
-- internal/relay/server.go: the registry of connections and the forwarding of frames. A connection
-- object stays in the store under its number when the registry no longer names it, since its
-- goroutines still hold it. Each critical section, each send on a queue and each close is one step.
pub mod Registry
pub mod Forwarding
use over_mesh.Common.{
  ℕ, ◌+◌, ◌≡◌, refl, Bool, true, false, List, [], ◌∷◌, ◌++◌, Option, none, some, ltb, nat_beq,
  nat_eq, bytes_eq, if◌then◌else◌, length, take, drop, lookup, insert, delete,
}
use over_mesh.Relay.Frames.{frame_send, frame_recv, frame_ping, frame_pong}

pub record OutFrame : Type 0 where
  pub typ : ℕ
  pub body : List ℕ

-- `live` is that `done` is not closed, and `leaving` that the deferred function of its `serveConn`
-- has released the lock and is about to close it.
pub record ServerConn : Type 0 where
  pub key : List ℕ
  pub sendq : List OutFrame
  pub live : Bool
  pub leaving : Bool

pub record Server : Type 0 where
  pub conns : List (List ℕ × ℕ)
  pub objs : List (ℕ × ServerConn)
  pub next_id : ℕ
  pub frames_forwarded : ℕ
  pub bytes_forwarded : ℕ
  pub frames_dropped : ℕ

abbrev pub new_server : Server
new_server = record {
  conns = [];
  objs = [];
  next_id = 0;
  frames_forwarded = 0;
  bytes_forwarded = 0;
  frames_dropped = 0;
}

-- `make(chan outFrame, 256)`
abbrev pub sendq_cap : ℕ
sendq_cap = 256

unfoldable pub close_conn : ℕ → Server → Server
close_conn id s = elim (lookup id s.objs) [
  | none ↦ s
  | some c ↦ record s { objs = insert id (record c { live = false }) s.objs }
]

close_old : Option ℕ → Server → Server
close_old none s = s
close_old (some old) s = close_conn old s

-- The registration in `serveConn`: the connection gets the number `next_id`.
unfoldable pub register : List ℕ → Server → Server
unfolding close_old
register key s =
    let closed = close_old (lookup key s.conns) s in
    record closed {
      conns = insert key closed.next_id closed.conns;
      objs =
          insert closed.next_id (record { key = key; sendq = []; live = true; leaving = false })
            closed.objs;
      next_id = closed.next_id + 1;
    }

drop_route : List ℕ → ℕ → Option ℕ → Server → Server
drop_route key id none s = s
drop_route key id (some cur) s =
    if nat_beq cur id then record s { conns = delete key s.conns } else s

set_leaving : ℕ → Option ServerConn → Server → Server
set_leaving id none s = s
set_leaving id (some c) s = record s { objs = insert id (record c { leaving = true }) s.objs }

-- The critical section of the deferred function of `serveConn`; closing the connection is a step of its
-- own that comes later.
unfoldable pub unregister : List ℕ → ℕ → Server → Server
unfolding drop_route set_leaving
unregister key id s =
    let dropped = drop_route key id (lookup key s.conns) s in
    set_leaving id (lookup id dropped.objs) dropped

-- A send on a connection's queue, and whether the queue had room.
unfoldable pub enqueue : ℕ → OutFrame → Server → Server × Bool
enqueue id f s = elim (lookup id s.objs) [
  | none ↦ (s, false)
  | some c ↦
      if ltb (length c.sendq) sendq_cap
      then (record s { objs = insert id (record c { sendq = c.sendq ++ f ∷ [] }) s.objs }, true)
      else (s, false)
]

-- `forward` behind the lookup of its target.
unfoldable pub forward_to : ℕ → List ℕ → List ℕ → Server → Server
forward_to target src payload s =
    let (sent, room) = enqueue target (record { typ = frame_recv; body = src ++ payload }) s in
    if room
    then record sent {
      frames_forwarded = sent.frames_forwarded + 1;
      bytes_forwarded = sent.bytes_forwarded + length payload;
    }
    else record sent { frames_dropped = sent.frames_dropped + 1 }

forward_found : Option ℕ → List ℕ → List ℕ → Server → Server
forward_found none src payload s = s
forward_found (some target) src payload s = forward_to target src payload s

unfoldable pub forward : List ℕ → List ℕ → List ℕ → Server → Server
unfolding forward_found
forward src dst payload s = forward_found (lookup dst s.conns) src payload s

-- The reader's `switch` on one frame of the connection `id`, whose key is `key`.
unfoldable pub handle_frame : ℕ → List ℕ → ℕ → List ℕ → Server → Server
handle_frame id key typ body s =
    if nat_beq typ frame_ping
    then (enqueue id (record { typ = frame_pong; body = [] }) s).0
    else if nat_beq typ frame_send
    then (if ltb (length body) 32 then s else forward key (take 32 body) (drop 32 body) s)
    else s

pop : List OutFrame → Option (OutFrame × List OutFrame)
pop [] = none
pop (f ∷ q) = some (f, q)

-- One round of the writer goroutine: the frame that it takes off the queue, if there is one. Once the
-- connection is closed the `select` may take it or end the goroutine, which then takes none.
unfoldable pub take_frame : ℕ → Server → Server × Option OutFrame
unfolding pop
take_frame id s = elim (lookup id s.objs) [
  | none ↦ (s, none)
  | some c ↦ elim (pop c.sendq) [
    | none ↦ (s, none)
    | some (f, q) ↦ (record s { objs = insert id (record c { sendq = q }) s.objs }, some f)
  ]
]

abbrev pub stats : Server → ℕ × ℕ × ℕ × ℕ
stats s = (length s.conns, s.frames_forwarded, s.bytes_forwarded, s.frames_dropped)
