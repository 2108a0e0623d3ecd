-- ===== src/Magicsock/Bind.antt =====
-- internal/magicsock/bind.go: the socket, and the packets of the relay. Packets and texts are their
-- bytes. A channel is a number, and a channel that was closed stands in `closed`; the mutexes make each
-- method one step. That a datagram is a STUN message is for a library to say.
pub mod Lifecycle
pub mod Endpoints
pub mod Demux
use over_mesh.Common.{
  ℕ, ◌+◌, Bool, true, false, not, List, [], ◌∷◌, ◌++◌, Option, none, some, ltb, nat_beq, nat_eq,
  bytes_beq, if◌then◌else◌, length, take, drop, contains,
}
use over_mesh.Key.{encode_hex, decode_hex}

-- A packet with the node key of its sender, or with the text of its address.
pub record Packet : Type 0 where
  pub src : List ℕ
  pub payload : List ℕ

-- `port` is that of the socket, `mux` the packets for ICE while the mux is there, and `panicked` that a
-- closed channel was closed again.
pub record Bind : Type 0 where
  pub port : Option ℕ
  pub mux : Option (List Packet)
  pub ready : ℕ
  pub open_done : Option ℕ
  pub closed : List ℕ
  pub next_channel : ℕ
  pub relay_inbox : List Packet
  pub wg_packets : ℕ
  pub panicked : Bool

unfoldable pub new_bind : Bind
new_bind = record {
  port = none;
  mux = none;
  ready = 0;
  open_done = none;
  closed = [];
  next_channel = 1;
  relay_inbox = [];
  wg_packets = 0;
  panicked = false;
}

-- `make(chan relayPacket, 256)` and `make(chan muxPacket, 64)`
abbrev pub relay_cap : ℕ
relay_cap = 256

abbrev pub mux_cap : ℕ
mux_cap = 64

-- `close` of a channel
abbrev pub close_channel : ℕ → Bind → Bind
close_channel ch b =
    if contains b.closed ch
    then record b { panicked = true }
    else record b { closed = ch ∷ b.closed }

abbrev pub close_ready : Bind → Bind
close_ready b = if contains b.closed b.ready then b else close_channel b.ready b

pub data OpenError : Type 0 where
  already_open cannot_listen : OpenError

abbrev pub opened : ℕ → Bind → Bind
opened port b = close_ready (record b {
  port = some port;
  mux = some [];
  open_done = some b.next_channel;
  next_channel = b.next_channel + 1;
})

abbrev pub listened : Option ℕ → Bind → Option OpenError × Bind
listened none b = (some cannot_listen, b)
listened (some port) b = (none, opened port b)

abbrev pub open_from : Option ℕ → Option ℕ → Bind → Option OpenError × Bind
open_from (some port) actual b = (some already_open, b)
open_from none actual b = listened actual b

-- `actual` is the port that listening gave.
unfoldable pub open_bind : Option ℕ → Bind → Option OpenError × Bind
open_bind actual b = open_from b.port actual b

abbrev pub close_done : Option ℕ → Bind → Bind
close_done none b = b
close_done (some ch) b = close_channel ch (record b { open_done = none })

abbrev pub rearm : Bind → Bind
rearm b =
    if contains b.closed b.ready
    then record b { ready = b.next_channel; next_channel = b.next_channel + 1 }
    else b

unfoldable pub close_bind : Bind → Bind
close_bind b = rearm (close_done b.open_done (record b { port = none; mux = none }))

-- What a goroutine that waits on `Ready` sees.
abbrev pub is_ready : Bind → Bool
is_ready b = contains b.closed b.ready

unfoldable pub deliver_relay_packet : Packet → Bind → Bind
deliver_relay_packet p b =
    if ltb (length b.relay_inbox) relay_cap
    then record b { relay_inbox = b.relay_inbox ++ p ∷ [] }
    else b

pub data Received : Type 0 where
  packet : Packet → Received
  closed_bind waits : Received

abbrev pub relay_from : Option ℕ → List Packet → Bind → Received × Bind
relay_from none inbox b = (closed_bind, b)
relay_from (some ch) [] b = (waits, b)
relay_from (some ch) (p ∷ inbox) b = (packet p, record b { relay_inbox = inbox })

-- With nothing in the inbox the goroutine waits for a packet or for the bind to close. `size` is that
-- of the caller's buffer.
abbrev pub cut_to : ℕ → Received × Bind → Received × Bind
cut_to size (packet p, b) = (packet (record p { payload = take size p.payload }), b)
cut_to size (r, b) = (r, b)

unfoldable pub receive_relay : ℕ → Bind → Received × Bind
receive_relay size b = cut_to size (relay_from b.open_done b.relay_inbox b)

-- `muxConn.deliver`
abbrev pub deliver_to : Packet → Option (List Packet) → Option (List Packet)
deliver_to p none = none
deliver_to p (some queue) =
    if ltb (length queue) mux_cap then some (queue ++ p ∷ []) else some queue

-- The loop of `receive` over the datagrams that the socket has: what goes to WireGuard, if anything
-- does, the bind, and the datagrams that are left.
module _ (is_stun : List ℕ → Bool) where
  abbrev pub receive_from : List Packet → Bind → Option Packet × Bind × List Packet
  receive_from [] b = (none, b, [])
  receive_from (p ∷ arrived) b =
      let skipped = receive_from arrived (record b { mux = deliver_to p b.mux }) in
      if is_stun p.payload
      then skipped
      else (some p, record b { wg_packets = b.wg_packets + 1 }, arrived)

  abbrev pub surfaced : Option Packet × Bind × List Packet → Received × Bind × List Packet
  surfaced (none, b, left) = (waits, b, left)
  surfaced (some p, b, left) = (packet p, b, left)

  abbrev pub receive_open : Option ℕ → List Packet → Bind → Received × Bind × List Packet
  receive_open none arrived b = (closed_bind, b, arrived)
  receive_open (some port) arrived b = surfaced (receive_from arrived b)

  unfoldable pub receive_datagram : List Packet → Bind → Received × Bind × List Packet
  receive_datagram arrived b = receive_open b.port arrived b

-- The two kinds of endpoint: a node key, and an address with its port, which net/netip reads.
pub data Endpoint : Type 0 where
  relayed : List ℕ → Endpoint
  direct : List ℕ → Endpoint

-- "relay:"
abbrev pub relay_endpoint_prefix : List ℕ
relay_endpoint_prefix = b'r' ∷ b'e' ∷ b'l' ∷ b'a' ∷ b'y' ∷ b':' ∷ []

abbrev pub relay_of : Option (List ℕ) → Option Endpoint
relay_of none = none
relay_of (some raw) = if not (nat_beq (length raw) 32) then none else some (relayed raw)

unfoldable pub parse_endpoint : (List ℕ → Bool) → List ℕ → Option Endpoint
parse_endpoint is_addr_port s =
    if bytes_beq (take (length relay_endpoint_prefix) s) relay_endpoint_prefix
    then relay_of (decode_hex (drop (length relay_endpoint_prefix) s))
    else if is_addr_port s
    then some (direct s)
    else none

abbrev pub relay_endpoint_string : List ℕ → List ℕ
relay_endpoint_string k = relay_endpoint_prefix ++ encode_hex k

-- "relay" and the key: what WireGuard's cookies are made from.
abbrev pub dst_to_bytes : List ℕ → List ℕ
dst_to_bytes k = (b'r' ∷ b'e' ∷ b'l' ∷ b'a' ∷ b'y' ∷ []) ++ k

pub data SendError : Type 0 where
  closed_socket write_failed : SendError

-- The packets that are handed to `out` before it fails, and whether it failed.
abbrev pub sent : (List ℕ → Bool) → List (List ℕ) → List (List ℕ) × Bool
sent out [] = ([], false)
sent out (buf ∷ bufs) =
    let (rest, failed) = sent out bufs in if out buf then (buf ∷ rest, failed) else ([], true)

abbrev pub relay_sent : Option (List ℕ → Bool) → List (List ℕ) → List (List ℕ)
relay_sent none bufs = []
relay_sent (some out) bufs = (sent out bufs).0

abbrev pub written : List (List ℕ) × Bool → List (List ℕ) × Option SendError
written (done, true) = (done, some write_failed)
written (done, false) = (done, none)

-- `relay` is the sender of the relay, if one is set, and `write` the socket's: each says whether it
-- took a packet. The packets that went out, and the error.
unfoldable pub send_packets :
    Option (List ℕ → Bool)
    → (List ℕ → Bool)
    → List (List ℕ)
    → Endpoint
    → Bind
    → List (List ℕ) × Option SendError
send_packets relay write bufs (relayed k) b = (relay_sent relay bufs, none)
send_packets relay write bufs (direct a) b = elim b.port [
  | none ↦ ([], some closed_socket)
  | some port ↦ written (sent write bufs)
]
