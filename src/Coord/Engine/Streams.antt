-- ===== src/Coord/Engine/Streams.antt =====
-- What the netmap streams leave alone: the nodes, the networks and the allocators.
use over_mesh.Common.{
  ℕ, ◌+◌, ◌≡◌, refl, ◌∙◌, List, [], ◌∷◌, Option, none, some, ltb, nat_eq, length, lookup, insert,
  Bool-cases, Option-cases, inl, inr,
}
use over_mesh.Store.Nodes.{Node, nodes_in_network}
use over_mesh.Coord.Engine.{
  Setup, Coordinator, Stream, NetMap, stream_cap, seq_of, send_open, push_map, push_named, push_all,
  notify_network, build_net_map, close_open, close_named,
}

abbrev pub Kept : Coordinator → Coordinator → Type 0
Kept c c' = (c'.signals ≡ c.signals) × (c'.networks ≡ c.networks) × (c'.ipams ≡ c.ipams)

Kept-trans : (a b c : Coordinator) → Kept a b → Kept b c → Kept a c
Kept-trans a b c (s, n, i) (s', n', i') = (s' ∙ s, n' ∙ n, i' ∙ i)

send_open-Kept :
    (i : ℕ) (nm : NetMap) (s : Option Stream) (c : Coordinator) → Kept c (send_open i nm s c)
send_open-Kept i nm none c = (refl, refl, refl)
send_open-Kept i nm (some s) c = elim (Bool-cases s.is_open) [
  | inr closed ↦ rw closed (refl, refl, refl)
  | inl on ↦ elim (Bool-cases (ltb (length s.queue) stream_cap)) [
    | inl room ↦ rw (on, room) (refl, refl, refl)
    | inr full ↦ rw (on, full) (refl, refl, refl)
  ]
]

close_open-Kept : (i : ℕ) (s : Option Stream) (c : Coordinator) → Kept c (close_open i s c)
close_open-Kept i none c = (refl, refl, refl)
close_open-Kept i (some s) c = elim (Bool-cases s.is_open) [
  | inl on ↦ rw on (refl, refl, refl)
  | inr off ↦ rw off (refl, refl, refl)
]

pub close_named-Kept : (i : Option ℕ) (c : Coordinator) → Kept c (close_named i c)
close_named-Kept none c = (refl, refl, refl)
close_named-Kept (some i) c = close_open-Kept i (lookup i c.streams) c

module _ (cfg : Setup) where
  push_named-Kept : (n : Node) (i : Option ℕ) (c : Coordinator) → Kept c (push_named cfg n i c)
  unfolding push_map
  push_named-Kept n none c = (refl, refl, refl)
  push_named-Kept n (some i) c = elim (Option-cases (build_net_map cfg c n)) [
    | inl missing ↦ rw missing (refl, refl, refl)
    | inr (nm, made) ↦ rw made (send_open-Kept i nm (lookup i c.streams) c)
  ]

  push_all-Kept : (nodes : List Node) (c : Coordinator) → Kept c (push_all cfg nodes c)
  push_all-Kept [] c = (refl, refl, refl)
  push_all-Kept (n ∷ nodes) c =
      let pushed = push_named cfg n (lookup n.id c.subs) c in
      Kept-trans c pushed (push_all cfg nodes pushed) (push_named-Kept n (lookup n.id c.subs) c)
        (push_all-Kept nodes pushed)

  pub notify_network-Kept : (network : ℕ) (c : Coordinator) → Kept c (notify_network cfg network c)
  unfolding notify_network
  notify_network-Kept network c =
      push_all-Kept (nodes_in_network network c.signals.nodes)
        (record c { seq = insert network (seq_of network c + 1) c.seq })
