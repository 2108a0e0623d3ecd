-- ===== src/Coord/Engine/Addresses/Rows.antt =====
-- How new and deleted rows keep names and addresses apart.
use over_mesh.Common.{
  ℕ, ◌+◌, ◌<◌, ◌≡◌, ◌≢◌, refl, ap, subst, ◌∙◌, Bool, true, ◌||◌, List, [], ◌∷◌, ◌++◌, map, some,
  nat_beq, nat_beq_iff, nat_eq, bytes_eq, All, All-imp, All-both, All-select, All-append,
  Pairwise-append, Pairwise-select, select, lookup, contains, beq_refl, arith, Bool-cases, inl, inr,
}
use over_mesh.Net.{Addr, unmap, addr_eq}
use over_mesh.Ipam.{Allocator, mark_used}
use over_mesh.Ipam.Fresh.{mark_used-contains}
use over_mesh.Store.Nodes.{Node, Nodes}
use over_mesh.Coord.Engine.Addresses.{Apart, Covers, IsSound}

-- A new row at the end, with the next number.
pub append-IsSound :
    {t : Nodes} {ipams : List (ℕ × Allocator)} (n : Node)
    → n.id ≡ t.next_id
    → unmap n.ipv4 ≡ n.ipv4
    → All (λ m. m.network_id ≡ n.network_id → (m.hostname ≢ n.hostname) × (m.ipv4 ≢ n.ipv4)) t.rows
    → ((network : ℕ) (a : Allocator)
        → lookup network ipams ≡ some a
        → n.network_id ≡ network
        → contains a.used n.ipv4 ≡ true)
    → IsSound t ipams
    → IsSound (record { rows = t.rows ++ n ∷ []; next_id = t.next_id + 1 }) ipams
append-IsSound {t} {ipams} n next plain fresh covered v = record {
  apart = Pairwise-append Apart t.rows n v.apart (
      All-imp
        (λ m.
          (m.id < t.next_id)
          × (m.network_id ≡ n.network_id → (m.hostname ≢ n.hostname) × (m.ipv4 ≢ n.ipv4)))
        (λ m. Apart m n) t.rows (λ m h. ((λ e. omega (arith, h.0, e, next)), h.1))
        (All-both (λ m. m.id < t.next_id)
          (λ m. m.network_id ≡ n.network_id → (m.hostname ≢ n.hostname) × (m.ipv4 ≢ n.ipv4)) t.rows
          v.low fresh));
  low =
      All-append (λ m. m.id < t.next_id + 1) t.rows (n ∷ [])
        (All-imp (λ m. m.id < t.next_id) (λ m. m.id < t.next_id + 1) t.rows
          (λ m h. omega (arith, h)) v.low)
        (omega (arith, next), tt);
  plain = All-append (λ m. unmap m.ipv4 ≡ m.ipv4) t.rows (n ∷ []) v.plain (plain, tt);
  covers = λ network a e.
      let (valid, old) = v.covers network a e in
      (
        valid,
        All-append (λ m. m.network_id ≡ network → contains a.used m.ipv4 ≡ true) t.rows (n ∷ []) old
            (covered network a e, tt),
      );
}

-- Rows that are deleted.
pub select-IsSound :
    {t : Nodes} {ipams : List (ℕ × Allocator)} (p : Node → Bool)
    → IsSound t ipams
    → IsSound (record t { rows = select p t.rows }) ipams
select-IsSound {t} {ipams} p v = record {
  apart = Pairwise-select Apart p t.rows v.apart;
  low = All-select (λ n. n.id < t.next_id) (λ n. n.id < t.next_id) p t.rows (λ n _ h. h) v.low;
  plain =
      All-select (λ n. unmap n.ipv4 ≡ n.ipv4) (λ n. unmap n.ipv4 ≡ n.ipv4) p t.rows (λ n _ h. h)
        v.plain;
  covers = λ network a e.
      let (valid, old) = v.covers network a e in
      (
        valid,
        All-select (λ n. n.network_id ≡ network → contains a.used n.ipv4 ≡ true)
            (λ n. n.network_id ≡ network → contains a.used n.ipv4 ≡ true) p t.rows (λ n _ h. h) old,
      );
}

abbrev unmapped_in : ℕ → List Node → List Addr
unmapped_in network rows =
    map unmap (map (λ n. n.ipv4) (select (λ n. nat_beq n.network_id network) rows))

unmapped_in-wider :
    (network : ℕ) (n : Node) (rows : List Node) (c : Addr)
    → contains (unmapped_in network rows) c ≡ true
    → contains (unmapped_in network (n ∷ rows)) c ≡ true
unmapped_in-wider network n rows c h = elim (Bool-cases (nat_beq n.network_id network)) [
  | inl here ↦ rw here (ground (arith, h))
  | inr there ↦ rw there h
]

unmapped_in-All :
    (network : ℕ) (rows : List Node)
    → All
        (λ n. n.network_id ≡ network → contains (unmapped_in network rows) (unmap n.ipv4) ≡ true)
        rows
unmapped_in-All network [] = tt
unmapped_in-All network (n ∷ rows) = (
  (λ e. rw ((nat_beq_iff n.network_id network).1 e, beq_refl (unmap n.ipv4)) refl),
  All-imp (λ m. m.network_id ≡ network → contains (unmapped_in network rows) (unmap m.ipv4) ≡ true)
      (λ m.
        m.network_id ≡ network → contains (unmapped_in network (n ∷ rows)) (unmap m.ipv4) ≡ true)
      rows (λ m h e. unmapped_in-wider network n rows (unmap m.ipv4) (h e))
      (unmapped_in-All network rows),
)

-- The addresses of a network's devices are in use in an allocator that they were marked in.
pub mark_used-Covers :
    (network : ℕ) (a : Allocator) (rows : List Node)
    → All (λ n. unmap n.ipv4 ≡ n.ipv4) rows
    → Covers network
        (mark_used (map (λ n. n.ipv4) (select (λ n. nat_beq n.network_id network) rows)) a)
        rows
mark_used-Covers network a rows plain =
    All-imp
      (λ n.
        (unmap n.ipv4 ≡ n.ipv4)
        × (n.network_id ≡ network → contains (unmapped_in network rows) (unmap n.ipv4) ≡ true))
      (λ n.
        n.network_id ≡ network
        → contains
            (mark_used (map (λ m. m.ipv4) (select (λ m. nat_beq m.network_id network) rows)) a).used
            n.ipv4
          ≡ true)
      rows
      (λ n h e.
        mark_used-contains (map (λ m. m.ipv4) (select (λ m. nat_beq m.network_id network) rows)) a
          n.ipv4
        ∙ ap (λ (x : Bool). x || contains a.used n.ipv4)
            (subst (λ (c : Addr). contains (unmapped_in network rows) c ≡ true) h.0 (h.1 e)))
      (All-both (λ n. unmap n.ipv4 ≡ n.ipv4)
        (λ n. n.network_id ≡ network → contains (unmapped_in network rows) (unmap n.ipv4) ≡ true)
        rows plain (unmapped_in-All network rows))
