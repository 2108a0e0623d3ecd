-- ===== src/Coord/AclCompile/Sources.antt =====
-- The sources of a compiled rule: the addresses of the devices that the access rule lists.
use over_mesh.Common.{
  ℕ, ◌<◌, ◌/◌, ◌^◌, ◌≡◌, ◌≢◌, ◌⊎◌, inl, inr, refl, sym, ap, ◌∙◌, subst, true, false, ◌&&◌, ◌||◌,
  List, [], ◌∷◌, ◌++◌, none, some, ltb, nat_beq, nat_eq, nat_beq_iff, if◌then◌else◌, length,
  length-nil, contains, find, has_key, any, gather, All, All-find, find-key, of_some, arith,
  Bool-cases, Option-cases,
}
use over_mesh.Net.{
  Addr, v4, v6, addr_beq, addr_beq_iff, prefix_contains, host_prefix, host_prefix-contains, no_addr,
}
use over_mesh.Store.Nodes.{Node, row_id}
use over_mesh.Coord.AclCompile.{
  AddrText, slash_32, slash_128, id_list_matches, src_cidrs, overlay_cidrs,
}

-- A host's address with its prefix length is read back as that host's prefix.
pub record AddrTextLaws (tx : AddrText) : Type 0 where
  pub host_v4 :
      (a : ℕ)
      → a < 2 ^ 32
      → tx.parse_prefix (tx.to_string (v4 a) ++ slash_32) ≡ some (host_prefix (v4 a))
  pub host_v6 :
      (a : ℕ)
      → a < 2 ^ 128
      → a / 2 ^ 32 ≢ 0xffff
      → tx.parse_prefix (tx.to_string (v6 a) ++ slash_128) ≡ some (host_prefix (v6 a))

-- The device has an address of each family, and the IPv6 one is not a mapped IPv4 address.
pub record HasAddresses (n : Node) : Type 0 where
  pub a4 : ℕ
  pub is_v4 : n.ipv4 ≡ v4 a4
  pub fits_v4 : a4 < 2 ^ 32
  pub a6 : ℕ
  pub is_v6 : n.ipv6 ≡ v6 a6
  pub fits_v6 : a6 < 2 ^ 128
  pub not_mapped : a6 / 2 ^ 32 ≢ 0xffff

-- `a` is an address of the device `src` of the network, and of no other device.
pub record Owns (nodes : List Node) (src : Node) (a : Addr) : Type 0 where
  pub listed : find (has_key row_id src.id) nodes ≡ some src
  pub has : (src.ipv4 ≡ a) ⊎ (src.ipv6 ≡ a)
  pub alone : All (λ n. n.id ≢ src.id → (n.ipv4 ≢ a) × (n.ipv6 ≢ a)) nodes

v4-valid : {a : ℕ} → v4 a ≢ no_addr
v4-valid e = cc

v6-valid : {a : ℕ} → v6 a ≢ no_addr
v6-valid e = cc

module _ (tx : AddrText) (laws : AddrTextLaws tx) where
  src_cidrs_gone :
      (nodes : List Node) (id : ℕ) (ids : List ℕ)
      → find (has_key row_id id) nodes ≡ none
      → src_cidrs tx nodes (id ∷ ids) ≡ src_cidrs tx nodes ids
  src_cidrs_gone nodes id ids e = rw (src_cidrs, e) refl

  src_cidrs_there :
      (nodes : List Node) (id : ℕ) (ids : List ℕ) (n : Node)
      → find (has_key row_id id) nodes ≡ some n
      → src_cidrs tx nodes (id ∷ ids) ≡ overlay_cidrs tx n ++ src_cidrs tx nodes ids
  src_cidrs_there nodes id ids n e = rw (src_cidrs, e) refl

  cidrs-node :
      (n : Node) (rest : List (List ℕ))
      → HasAddresses n
      → gather tx.parse_prefix (overlay_cidrs tx n ++ rest)
        ≡ host_prefix n.ipv4 ∷ host_prefix n.ipv6 ∷ gather tx.parse_prefix rest
  cidrs-node n rest h =
      let e4 : tx.parse_prefix (tx.to_string n.ipv4 ++ slash_32) ≡ some (host_prefix n.ipv4) =
        rw h.is_v4 (laws.host_v4 h.a4 h.fits_v4) in
      let e6 : tx.parse_prefix (tx.to_string n.ipv6 ++ slash_128) ≡ some (host_prefix n.ipv6) =
        rw h.is_v6 (laws.host_v6 h.a6 h.fits_v6 h.not_mapped) in
      rw (e4, e6) refl

  module _ (nodes : List Node) (src : Node) (a : Addr) (all : All HasAddresses nodes)
      (own : Owns nodes src a) where
    owner : ((src.ipv4 ≡ a) ⊎ (src.ipv6 ≡ a)) → (addr_beq src.ipv4 a || addr_beq src.ipv6 a) ≡ true
    owner h = ground (arith, h, addr_beq_iff src.ipv4 a, addr_beq_iff src.ipv6 a)

    -- A device's two prefixes hold the address exactly when the device is its owner.
    node-holds :
        (id : ℕ) (n : Node)
        → find (has_key row_id id) nodes ≡ some n
        → (prefix_contains (host_prefix n.ipv4) a || prefix_contains (host_prefix n.ipv6) a)
          ≡ nat_beq id src.id
    node-holds id n e =
        let h = All-find HasAddresses (has_key row_id id) nodes {x = n} all e in
        let lone =
          All-find (λ m. m.id ≢ src.id → (m.ipv4 ≢ a) × (m.ipv6 ≢ a)) (has_key row_id id) nodes
            {x = n} own.alone e in
        let n4 : n.ipv4 ≢ no_addr = λ x. v4-valid (sym h.is_v4 ∙ x) in
        let n6 : n.ipv6 ≢ no_addr = λ x. v6-valid (sym h.is_v6 ∙ x) in
        let k = find-key row_id id nodes {t = n} e in
        rw (host_prefix-contains n.ipv4 a n4, host_prefix-contains n.ipv6 a n6)
          (elim (Bool-cases (nat_beq id src.id)) [
            | inl same ↦
                let i : id ≡ src.id = (nat_beq_iff id src.id).0 same in
                let twice : some n ≡ some src =
                  sym e ∙ ap (λ (j : ℕ). find (has_key row_id j) nodes) i ∙ own.listed in
                let is_src : n ≡ src = of_some twice in rw (is_src, same) (owner own.has)
            | inr other ↦
                let apart : n.id ≢ src.id = ground (arith, k, other) in
                rw other (ground (arith, lone apart, addr_beq_iff n.ipv4 a, addr_beq_iff n.ipv6 a))
          ])

    not_listed : (id : ℕ) → find (has_key row_id id) nodes ≡ none → nat_beq id src.id ≡ false
    not_listed id e = elim (Bool-cases (nat_beq id src.id)) [
      | inr other ↦ other
      | inl same ↦
          let i : id ≡ src.id = (nat_beq_iff id src.id).0 same in
          let both : none ≡ some src =
            sym e ∙ ap (λ (j : ℕ). find (has_key row_id j) nodes) i ∙ own.listed in
          cc
    ]

    any-sources :
        (ids : List ℕ)
        → any (λ p. prefix_contains p a) (gather tx.parse_prefix (src_cidrs tx nodes ids))
          ≡ contains ids src.id
    any-sources [] = refl
    any-sources (id ∷ ids) = elim (Option-cases (find (has_key row_id id) nodes)) [
      | inl e ↦
          let other : nat_beq id src.id ≡ false = not_listed id e in
          rw (src_cidrs_gone nodes id ids e, other) (any-sources ids)
      | inr (n, e) ↦
          rw
            (
              src_cidrs_there nodes id ids n e,
              cidrs-node n (src_cidrs tx nodes ids)
                  (All-find HasAddresses (has_key row_id id) nodes {x = n} all e),
            )
            (ground (arith, node-holds id n e, any-sources ids))
    ]

    -- Without any source left, the packet's device is not among the rule's sources.
    pub no-sources :
        (ids : List ℕ) → length (src_cidrs tx nodes ids) ≡ 0 → contains ids src.id ≡ false
    no-sources ids e =
        let nil : src_cidrs tx nodes ids ≡ [] = length-nil (src_cidrs tx nodes ids) e in
        let same : any (λ p. prefix_contains p a) (gather tx.parse_prefix [])
            ≡ contains ids src.id =
          subst
            (λ (c : List (List ℕ)).
              any (λ p. prefix_contains p a) (gather tx.parse_prefix c) ≡ contains ids src.id)
            nil (any-sources ids) in
        sym same

    gathered_none :
        (ids : List ℕ)
        → nat_beq (length (gather tx.parse_prefix (src_cidrs tx nodes ids))) 0
          ≡ nat_beq (length (src_cidrs tx nodes ids)) 0
    gathered_none [] = refl
    gathered_none (id ∷ ids) = elim (Option-cases (find (has_key row_id id) nodes)) [
      | inl e ↦ rw (src_cidrs_gone nodes id ids e) (gathered_none ids)
      | inr (n, e) ↦
          rw
            (
              src_cidrs_there nodes id ids n e,
              cidrs-node n (src_cidrs tx nodes ids)
                  (All-find HasAddresses (has_key row_id id) nodes {x = n} all e),
            )
            (ground arith)
    ]

    -- The compiled sources match the packet exactly when the rule's list has its device.
    pub sources-match :
        (ids : List ℕ)
        → (ltb 0 (length ids) && nat_beq (length (src_cidrs tx nodes ids)) 0) ≡ false
        → (if nat_beq (length (gather tx.parse_prefix (src_cidrs tx nodes ids))) 0
            then true
            else any (λ p. prefix_contains p a) (gather tx.parse_prefix (src_cidrs tx nodes ids)))
          ≡ id_list_matches ids src.id
    unfolding id_list_matches
    sources-match [] left = refl
    sources-match (id ∷ ids) left =
        let some_left : nat_beq (length (src_cidrs tx nodes (id ∷ ids))) 0 ≡ false =
          ground (arith, left) in
        rw (gathered_none (id ∷ ids), some_left, any-sources (id ∷ ids)) (ground arith)
