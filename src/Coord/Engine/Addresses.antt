-- ===== src/Coord/Engine/Addresses.antt =====
-- The devices' names and addresses: what differs between two devices, and what the allocators cover.
pub mod Updates
pub mod Rows
use over_mesh.Common.{
  ℕ, ◌+◌, ◌^◌, ◌<◌, ◌≡◌, ◌≢◌, ◌⊎◌, refl, sym, ap, subst, ◌∙◌, Bool, true, ◌||◌, List, [], ◌∷◌, ◌++◌,
  map, some, nat_beq, nat_beq_iff, nat_eq, bytes_eq, if◌then◌else◌, All, All-imp, All-both,
  All-update, All-select, All-append, Pairwise, Pairwise-append, Pairwise-select, Pairwise-update,
  select, update, has_key, lookup, insert, contains, beq_refl, arith, of_some, Bool-cases, inl, inr,
}
use over_mesh.Net.{Addr, v4, v6, unmap, addr_eq}
use over_mesh.Ipam.{Allocator, mark_used}
use over_mesh.Ipam.Allocate.{IsValid}
use over_mesh.Ipam.Fresh.{mark_used-contains}
use over_mesh.Store.Nodes.{Node, Nodes, row_id, update_node}
use over_mesh.Store.SetupKeys.{Network}

-- Two devices have different numbers and, in one network, different names and IPv4 addresses.
abbrev pub Apart : Node → Node → Type 0
Apart n m =
    (n.id ≢ m.id) × (n.network_id ≡ m.network_id → (n.hostname ≢ m.hostname) × (n.ipv4 ≢ m.ipv4))

pub Apart-sym : (n m : Node) → Apart n m → Apart m n
Apart-sym n m a =
    ((λ e. a.0 (sym e)), (λ e. ((λ h. (a.1 (sym e)).0 (sym h)), (λ h. (a.1 (sym e)).1 (sym h)))))

-- What `Apart` is about is the same.
abbrev Like : Node → Node → Type 0
Like n m =
    (n.id ≡ m.id) × (n.network_id ≡ m.network_id) × (n.hostname ≡ m.hostname) × (n.ipv4 ≡ m.ipv4)

Apart-Like : (n n' m m' : Node) → Like n n' → Like m m' → Apart n m → Apart n' m'
Apart-Like n n' m m' (i, k, h, p) (i', k', h', p') a = (
  (λ e. a.0 (i ∙ e ∙ sym i')),
  (λ e.
      let (x, y) = a.1 (k ∙ e ∙ sym k') in ((λ q. x (h ∙ q ∙ sym h')), (λ q. y (p ∙ q ∙ sym p')))),
)

-- The allocator has the addresses of the network's devices in use.
abbrev pub Covers : ℕ → Allocator → List Node → Type 0
Covers network a rows = All (λ n. n.network_id ≡ network → contains a.used n.ipv4 ≡ true) rows

pub record IsSound (t : Nodes) (ipams : List (ℕ × Allocator)) : Type 0 where
  pub apart : Pairwise Apart t.rows
  pub low : All (λ n. n.id < t.next_id) t.rows
  pub plain : All (λ n. unmap n.ipv4 ≡ n.ipv4) t.rows
  pub covers :
      (network : ℕ) (a : Allocator)
      → lookup network ipams ≡ some a
      → IsValid a × Covers network a t.rows

-- The networks have an IPv4 range and an IPv6 range.
pub record IsRange (nw : Network) : Type 0 where
  pub x : ℕ
  pub n : ℕ
  pub y : ℕ
  pub m : ℕ
  pub fits : x < 2 ^ 32
  pub v4_is : nw.v4_prefix ≡ record { addr = v4 x; bits = n }
  pub v6_is : nw.v6_prefix ≡ record { addr = v6 y; bits = m }

pub put-IsSound :
    {t : Nodes} {ipams : List (ℕ × Allocator)} (network : ℕ) (a : Allocator)
    → IsValid a
    → Covers network a t.rows
    → IsSound t ipams
    → IsSound t (insert network a ipams)
put-IsSound {t} {ipams} network a valid covered v = record {
  apart = v.apart;
  low = v.low;
  plain = v.plain;
  covers = λ other b e. elim (Bool-cases (nat_beq network other)) [
    | inr away ↦ v.covers other b (rw away at e)
    | inl same ↦
        let is : some a ≡ some b = rw same at e in
        let here : network ≡ other = (nat_beq_iff network other).0 same in
        subst (λ (k : ℕ). IsValid b × Covers k b t.rows) here
          (subst (λ (d : Allocator). IsValid d × Covers network d t.rows) (of_some is)
            (valid, covered))
  ];
}
