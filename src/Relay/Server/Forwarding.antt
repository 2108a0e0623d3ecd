-- ===== src/Relay/Server/Forwarding.antt =====
-- Forwarding: what one frame does to the target's queue and to the counters, and a payload's whole
-- way from the sender's `Send` to the receiver's `onPacket`.
use over_mesh.Common.{
  ℕ, ◌+◌, ◌≤◌, ◌≡◌, true, List, [], ◌∷◌, ◌++◌, none, some, ltb, nat_eq, bytes_eq, if◌then◌else◌,
  length, length-append, take-prefix, drop-prefix, lookup, insert, arith, ok,
}
use over_mesh.Relay.Frames.{
  Read, frame_recv, frame_send, write_frame, read_frame, read_frame-write_frame, write_frame-fits,
}
use over_mesh.Relay.Server.{
  Server, ServerConn, OutFrame, sendq_cap, enqueue, forward_to, forward, handle_frame, take_frame,
}
use over_mesh.Relay.Client.{send, deliver}

abbrev pub recv_frame : List ℕ → List ℕ → OutFrame
recv_frame src payload = record { typ = frame_recv; body = src ++ payload }

-- A frame for a connected key is appended to that connection's queue with the sender's key in front,
-- and counted as forwarded with the payload's length; if the queue is full it is counted as dropped.
-- Nothing else changes.
forward_lem :
    (src dst payload : List ℕ) (s : Server) {t : ℕ} {c : ServerConn}
    → lookup dst s.conns ≡ some t
    → lookup t s.objs ≡ some c
    → forward src dst payload s ≡ (
        if ltb (length c.sendq) sendq_cap
        then record s {
          objs = insert t (record c { sendq = c.sendq ++ recv_frame src payload ∷ [] }) s.objs;
          frames_forwarded = s.frames_forwarded + 1;
          bytes_forwarded = s.bytes_forwarded + length payload;
        }
        else record s { frames_dropped = s.frames_dropped + 1 })
unfolding forward forward_to enqueue
forward_lem src dst payload s route here = ground (arith, route, here)

-- A frame for a key that is not connected is dropped with no trace.
pub forward_unknown :
    (src dst payload : List ℕ) (s : Server)
    → lookup dst s.conns ≡ none
    → forward src dst payload s ≡ s
unfolding forward
forward_unknown src dst payload s missing = rw missing

-- The way of a payload: the sender's `Send` writes bytes that the server reads as one frame; the
-- frame that the server then queues, once the target's writer has written it, is read by the target
-- as one frame again, and handed to `onPacket` with the sender's key and the payload.
pub record Passes (src dst payload : List ℕ) (id t : ℕ) (s : Server) : Type 0 where
  pub sent : List ℕ
  pub send_is : send true true true dst payload ≡ ok sent
  pub got : Read
  pub read_is : (later : List ℕ) → read_frame (sent ++ later) ≡ ok (record got { rest = later })
  pub queued : OutFrame
  pub take_is : (take_frame t (handle_frame id src got.typ got.body s)).1 ≡ some queued
  pub relayed : List ℕ
  pub write_is : write_frame queued.typ queued.body ≡ ok relayed
  pub last : Read
  pub last_is : (later : List ℕ) → read_frame (relayed ++ later) ≡ ok (record last { rest = later })
  pub deliver_is : deliver last.typ last.body ≡ some (src, payload)

handle_frame-send :
    (id t : ℕ) (src dst payload : List ℕ) (s : Server) {c : ServerConn}
    → lookup dst s.conns ≡ some t
    → lookup t s.objs ≡ some c
    → c.live ≡ true
    → c.sendq ≡ []
    → length dst ≡ 32
    → (take_frame t (handle_frame id src frame_send (dst ++ payload) s)).1
      ≡ some (recv_frame src payload)
unfolding handle_frame take_frame
handle_frame-send id t src dst payload s {c} route here live empty len =
    let long = length-append dst payload in
    rw
      (
        take-prefix 32 dst payload len,
        drop-prefix 32 dst payload len,
        forward_lem src dst payload s route here,
        empty,
      )
      (ground (arith, long))

-- A payload of at most 4064 bytes, sent by an authenticated client to a connected key whose queue is
-- empty, arrives at that key's client unchanged and under the sender's key.
pub handle_frame-Passes :
    (id t : ℕ) (src dst payload : List ℕ) (s : Server) {c : ServerConn}
    → lookup dst s.conns ≡ some t
    → lookup t s.objs ≡ some c
    → c.live ≡ true
    → c.sendq ≡ []
    → length src ≡ 32
    → length dst ≡ 32
    → length payload ≤ 4064
    → Passes src dst payload id t s
unfolding send deliver
handle_frame-Passes id t src dst payload s route here live empty len_src len_dst fits =
    let long_dst = length-append dst payload in
    let long_src = length-append src payload in
    let (w, write) = write_frame-fits frame_send (dst ++ payload) (omega arith) in
    let (w', write') = write_frame-fits frame_recv (src ++ payload) (omega arith) in
    record {
      sent = w;
      send_is = rw write;
      got = record { typ = frame_send; body = dst ++ payload; rest = [] };
      read_is = λ later. read_frame-write_frame frame_send (dst ++ payload) later write;
      queued = recv_frame src payload;
      take_is = handle_frame-send id t src dst payload s route here live empty len_dst;
      relayed = w';
      write_is = write';
      last = record { typ = frame_recv; body = src ++ payload; rest = [] };
      last_is = λ later. read_frame-write_frame frame_recv (src ++ payload) later write';
      deliver_is =
          rw (take-prefix 32 src payload len_src, drop-prefix 32 src payload len_src)
            (ground (arith, long_src));
    }
