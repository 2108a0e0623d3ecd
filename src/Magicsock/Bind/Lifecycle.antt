-- ===== src/Magicsock/Bind/Lifecycle.antt =====
-- The socket can be opened and closed in any order.
use over_mesh.Common.{
  ℕ, ◌+◌, ◌<◌, ◌≡◌, ◌≢◌, refl, ap, sym, ◌∙◌, of_some, ltb, length, ◌++◌, Bool, true, false, List,
  [], ◌∷◌, Option, none, some, nat_eq, contains, arith, Bool-cases, inl, inr,
}
use over_mesh.Magicsock.Bind.{
  Bind, Packet, new_bind, open_from, open_bind, cut_to, relay_from, relay_cap, close_done, rearm,
  close_bind, is_ready, deliver_relay_packet, receive_relay, receive_from, deliver_to, surfaced,
  receive_open, receive_datagram,
}

abbrev pub is_open : Option ℕ → Bool
is_open none = false
is_open (some port) = true

-- The channels that exist have numbers below the next one, and those that are still to be closed are
-- open.
pub record IsSteady (b : Bind) : Type 0 where
  pub ready_iff_open : is_ready b ≡ is_open b.port
  pub done_iff_open : is_open b.open_done ≡ is_open b.port
  pub done_open :
      (ch : ℕ)
      → b.open_done ≡ some ch
      → (contains b.closed ch ≡ false) × (ch < b.next_channel) × (ch ≢ b.ready)
  pub ready_low : b.ready < b.next_channel
  pub closed_low : (ch : ℕ) → contains b.closed ch ≡ true → ch < b.next_channel
  pub calm : b.panicked ≡ false

new_bind-IsSteady : IsSteady new_bind
unfolding new_bind
new_bind-IsSteady = record {
  ready_iff_open = refl;
  done_iff_open = refl;
  done_open = λ ch e. cc;
  ready_low = omega arith;
  closed_low = λ ch e. cc;
  calm = refl;
}

open_from-IsSteady :
    {b : Bind} (port actual : Option ℕ)
    → port ≡ b.port
    → IsSteady b
    → IsSteady (open_from port actual b).1
open_from-IsSteady (some port) actual here v = v
open_from-IsSteady none none here v = v
open_from-IsSteady {b} none (some port) here v =
    let unready : contains b.closed b.ready ≡ false = v.ready_iff_open ∙ ap is_open (sym here) in
    let fresh : contains b.closed b.next_channel ≡ false =
      ground (arith, v.closed_low b.next_channel) in
    rw unready (record {
      ready_iff_open = ground arith;
      done_iff_open = refl;
      done_open = λ ch e. ground (arith, of_some e, fresh, v.ready_low);
      ready_low = omega (arith, v.ready_low);
      closed_low = λ ch e. ground (arith, e, v.closed_low ch, v.ready_low);
      calm = v.calm;
    })

open_bind-IsSteady : {b : Bind} (actual : Option ℕ) → IsSteady b → IsSteady (open_bind actual b).1
unfolding open_bind
open_bind-IsSteady {b} actual v = open_from-IsSteady b.port actual refl v

shut-IsSteady :
    {b : Bind} (done : Option ℕ)
    → done ≡ b.open_done
    → IsSteady b
    → IsSteady (rearm (close_done done (record b { port = none; mux = none })))
shut-IsSteady {b} none here v =
    let unready : contains b.closed b.ready ≡ false =
      v.ready_iff_open ∙ sym v.done_iff_open ∙ ap is_open (sym here) in
    rw unready (record {
      ready_iff_open = unready;
      done_iff_open = ap is_open (sym here);
      done_open = v.done_open;
      ready_low = v.ready_low;
      closed_low = v.closed_low;
      calm = v.calm;
    })
shut-IsSteady {b} (some ch) here v =
    let ready : contains b.closed b.ready ≡ true =
      v.ready_iff_open ∙ sym v.done_iff_open ∙ ap is_open (sym here) in
    let (unclosed, low, other) = v.done_open ch (sym here) in
    let still : contains (ch ∷ b.closed) b.ready ≡ true = ground (arith, ready) in
    rw (unclosed, still)
      (record {
        ready_iff_open = ground (arith, v.closed_low b.next_channel, low);
        done_iff_open = refl;
        done_open = λ c e. cc;
        ready_low = omega arith;
        closed_low = λ c e. ground (arith, e, v.closed_low c, low);
        calm = v.calm;
      })

close_bind-IsSteady : {b : Bind} → IsSteady b → IsSteady (close_bind b)
unfolding close_bind
close_bind-IsSteady {b} v = shut-IsSteady b.open_done refl v

-- What WireGuard calls, and what the relay delivers.
pub data Step (b : Bind) : Bind → Type 0 where
  opens : (actual : Option ℕ) → Step b (open_bind actual b).1
  closes : Step b (close_bind b)
  delivers : (p : Packet) → Step b (deliver_relay_packet p b)
  drains : (size : ℕ) → Step b (receive_relay size b).1
  receives :
      (is_stun : List ℕ → Bool) (arrived : List Packet)
      → Step b (receive_datagram is_stun arrived b).1

pub data Reach : Bind → Type 0 where
  start : Reach new_bind
  next : {b d : Bind} → Reach b → Step b d → Reach d

-- The inbox of the relay can be anything.
inbox-IsSteady :
    {b : Bind} (inbox : List Packet) → IsSteady b → IsSteady (record b { relay_inbox = inbox })
inbox-IsSteady inbox v = record {
  ready_iff_open = v.ready_iff_open;
  done_iff_open = v.done_iff_open;
  done_open = v.done_open;
  ready_low = v.ready_low;
  closed_low = v.closed_low;
  calm = v.calm;
}

deliver_relay_packet-IsSteady :
    {b : Bind} (p : Packet) → IsSteady b → IsSteady (deliver_relay_packet p b)
unfolding deliver_relay_packet
deliver_relay_packet-IsSteady {b} p v = elim (Bool-cases (ltb (length b.relay_inbox) relay_cap)) [
  | inl room ↦ rw room (inbox-IsSteady (b.relay_inbox ++ p ∷ []) v)
  | inr full ↦ rw full v
]

drained-IsSteady :
    {b : Bind} (size : ℕ) (done : Option ℕ) (inbox : List Packet)
    → IsSteady b
    → IsSteady (cut_to size (relay_from done inbox b)).1
drained-IsSteady size none inbox v = v
drained-IsSteady size (some ch) [] v = v
drained-IsSteady size (some ch) (p ∷ inbox) v = inbox-IsSteady inbox v

receive_relay-IsSteady : {b : Bind} (size : ℕ) → IsSteady b → IsSteady (receive_relay size b).1
unfolding receive_relay
receive_relay-IsSteady {b} size v = drained-IsSteady size b.open_done b.relay_inbox v

-- What ICE and WireGuard are given can be anything.
mux-IsSteady :
    {b : Bind} (mux : Option (List Packet)) (count : ℕ)
    → IsSteady b
    → IsSteady (record b { mux = mux; wg_packets = count })
mux-IsSteady mux count v = record {
  ready_iff_open = v.ready_iff_open;
  done_iff_open = v.done_iff_open;
  done_open = v.done_open;
  ready_low = v.ready_low;
  closed_low = v.closed_low;
  calm = v.calm;
}

module _ (is_stun : List ℕ → Bool) where
  receive_from-IsSteady :
      (arrived : List Packet) (b : Bind)
      → IsSteady b
      → IsSteady (surfaced is_stun (receive_from is_stun arrived b)).1
  receive_from-IsSteady [] b v = v
  receive_from-IsSteady (p ∷ arrived) b v = elim (Bool-cases (is_stun p.payload)) [
    | inl ice ↦
        let given : Bind = record b { mux = deliver_to p b.mux } in
        let rest =
          receive_from-IsSteady arrived given (mux-IsSteady (deliver_to p b.mux) b.wg_packets v) in
        rw ice rest
    | inr other ↦ let counted = mux-IsSteady b.mux (b.wg_packets + 1) v in rw other counted
  ]

  receive_open-IsSteady :
      (port : Option ℕ) (arrived : List Packet) (b : Bind)
      → IsSteady b
      → IsSteady (receive_open is_stun port arrived b).1
  receive_open-IsSteady none arrived b v = v
  receive_open-IsSteady (some port) arrived b v = receive_from-IsSteady arrived b v

  receive_datagram-IsSteady :
      (arrived : List Packet) (b : Bind)
      → IsSteady b
      → IsSteady (receive_datagram is_stun arrived b).1
  unfolding receive_datagram
  receive_datagram-IsSteady arrived b v = receive_open-IsSteady b.port arrived b v

Step-IsSteady : {b d : Bind} → Step b d → IsSteady b → IsSteady d
Step-IsSteady (opens actual) v = open_bind-IsSteady actual v
Step-IsSteady closes v = close_bind-IsSteady v
Step-IsSteady (delivers p) v = deliver_relay_packet-IsSteady p v
Step-IsSteady (drains size) v = receive_relay-IsSteady size v
Step-IsSteady {b} (receives is_stun arrived) v = receive_datagram-IsSteady is_stun arrived b v

-- However the bind is opened and closed again, a wait on the channel of `Ready` that is current ends
-- exactly when the socket is open, the channel that ends the relay's receiver is there exactly then, and
-- no channel is closed twice.
pub Reach-IsSteady : {b : Bind} → Reach b → IsSteady b
Reach-IsSteady start = new_bind-IsSteady
Reach-IsSteady (next r st) = Step-IsSteady st (Reach-IsSteady r)
