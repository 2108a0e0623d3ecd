-- ===== src/Magicsock/Bind/Demux.antt =====
-- How datagrams are told apart.
use over_mesh.Common.{
  ℕ, ◌+◌, ◌≤◌, ◌≡◌, refl, ap, sym, ◌∙◌, Bool, true, false, List, [], ◌∷◌, ◌++◌, Option, some, ltb,
  length, length-append, All, arith,
}
use mathlib.Core.List.{append-nil, append_assoc}
use over_mesh.Magicsock.Bind.{Bind, Packet, mux_cap, deliver_to, receive_from}

-- While the mux has room, the STUN messages that arrive before another datagram go to ICE, in order and
-- all of them, that datagram goes to WireGuard and is counted, and what arrives behind it is left.
receive_from_lem :
    (is_stun : List ℕ → Bool) (stuns rest : List Packet) (p : Packet) (b : Bind)
    (queue : List Packet)
    → All (λ q. is_stun q.payload ≡ true) stuns
    → is_stun p.payload ≡ false
    → b.mux ≡ some queue
    → length queue + length stuns ≤ mux_cap
    → receive_from is_stun (stuns ++ p ∷ rest) b
      ≡ (some p, record b { mux = some (queue ++ stuns); wg_packets = b.wg_packets + 1 }, rest)
receive_from_lem is_stun [] rest p b queue all other here room = rw other (
    ap
      (λ (m : Option (List Packet)).
        (some p, record b { mux = m; wg_packets = b.wg_packets + 1 }, rest))
      (here ∙ ap some (sym (append-nil queue))))
receive_from_lem is_stun (q ∷ stuns) rest p b queue all other here room =
    let fits : ltb (length queue) mux_cap ≡ true = ground (arith, room) in
    let taken : deliver_to q (some queue) ≡ some (queue ++ q ∷ []) = rw fits refl in
    let more = length-append queue (q ∷ []) in
    rw all.0 (
      receive_from_lem is_stun stuns rest p (record b { mux = deliver_to q b.mux })
        (queue ++ q ∷ []) all.1 other (ap (deliver_to q) here ∙ taken) (omega (arith, more, room))
      ∙ ap
          (λ (m : List Packet).
            (some p, record b { mux = some m; wg_packets = b.wg_packets + 1 }, rest))
          (append_assoc queue (q ∷ []) stuns))
