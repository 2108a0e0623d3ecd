-- ===== src/Coord/AclCompile/Refinement.antt =====
-- The compiled filter decides as the access rules of the web UI say.
use over_mesh.Common.{
  ℕ, ◌≡◌, ◌⊎◌, inl, inr, refl, Bool, true, false, ◌&&◌, ◌||◌, String, str_eq, eq_iff, List, [], ◌∷◌,
  map, none, some, ltb, nat_beq, nat_eq, if◌then◌else◌, length, any, gather, gather-none,
  gather-some, All, arith, Bool-cases,
}
use over_mesh.Net.{Addr}
use over_mesh.Filter.{
  Rule, Parsed, matches_src, matches_proto, matches_port, allows, allows_packet, parse,
}
use over_mesh.Filter.Rules.{matches, allows_cons, allows_nil, proto_names_differ}
use over_mesh.Store.Nodes.{Node, Nodes, nodes_in_network}
use over_mesh.Store.Acl.{AclRule, AclTable, acl}
use over_mesh.Coord.AclCompile.{
  AddrText, id_list_matches, src_cidrs, compiled, compile_rule, compile_filter_for_node,
  from_proto_rule, from_proto,
}
use over_mesh.Coord.AclCompile.Sources.{AddrTextLaws, HasAddresses, Owns, no-sources, sources-match}
use over_mesh.Coord.AclCompile.Ports.{Parses, spec_has, ports-match}

abbrev pub port_listed : List (List ℕ) → ℕ → ℕ → Bool
port_listed specs proto port =
    nat_beq (length specs) 0 || ((nat_beq proto 6 || nat_beq proto 17) && any (spec_has port) specs)

abbrev pub proto_named : String → ℕ → Bool
proto_named name proto =
    str_eq name ""
    || (str_eq name "tcp" && nat_beq proto 6)
    || (str_eq name "udp" && nat_beq proto 17)
    || (str_eq name "icmp" && (nat_beq proto 1 || nat_beq proto 58))

-- Whether an access rule is about a packet from the device `src` to the device `dst`.
abbrev pub acl_matches : AclRule → ℕ → ℕ → ℕ → ℕ → Bool
acl_matches r src dst proto port =
    id_list_matches r.dst_ids dst
    && id_list_matches r.src_ids src
    && proto_named r.protocol proto
    && port_listed r.ports proto port

-- The first rule that is about the packet decides, and without one it is denied.
abbrev pub acl_allows : List AclRule → ℕ → ℕ → ℕ → ℕ → Bool
acl_allows [] src dst proto port = false
acl_allows (r ∷ rules) src dst proto port =
    if acl_matches r src dst proto port
    then str_eq r.action "allow"
    else acl_allows rules src dst proto port

-- A network without rules lets everything through.
abbrev pub acl_decision : List AclRule → ℕ → ℕ → ℕ → ℕ → Bool
acl_decision rules src dst proto port =
    nat_beq (length rules) 0 || acl_allows rules src dst proto port

matches_proto-named : (r : Rule) (proto : ℕ) → matches_proto r proto ≡ proto_named r.proto proto
unfolding matches_proto
matches_proto-named r proto = ground (
  arith,
  eq_iff r.proto "",
  eq_iff r.proto "tcp",
  eq_iff r.proto "udp",
  eq_iff r.proto "icmp",
  proto_names_differ,
)

and_swap : (x y z : Bool) → (x && (y && z)) ≡ (y && x && z)
and_swap x y z = ground arith

module _ (tx : AddrText) (laws : AddrTextLaws tx) (nodes : List Node) (src dst : Node)
    (a : Addr) where
  compiled-ports :
      (r : AclRule) (proto port : ℕ)
      → All Parses r.ports
      → matches_port (from_proto_rule tx (compiled tx nodes r)) proto port
        ≡ port_listed r.ports proto port
  unfolding matches_port from_proto_rule
  compiled-ports r proto port specs =
      let (l, m) = ports-match r.ports port specs in rw (l, m) (ground arith)

  compiled-proto :
      (r : AclRule) (proto : ℕ)
      → matches_proto (from_proto_rule tx (compiled tx nodes r)) proto
        ≡ proto_named r.protocol proto
  unfolding from_proto_rule
  compiled-proto r proto = matches_proto-named (from_proto_rule tx (compiled tx nodes r)) proto

  compiled-sources :
      (r : AclRule)
      → All HasAddresses nodes
      → Owns nodes src a
      → (ltb 0 (length r.src_ids) && nat_beq (length (src_cidrs tx nodes r.src_ids)) 0) ≡ false
      → matches_src (from_proto_rule tx (compiled tx nodes r)) a ≡ id_list_matches r.src_ids src.id
  unfolding matches_src from_proto_rule
  compiled-sources r all own left = sources-match tx laws nodes src a all own r.src_ids left

  left_out :
      (ids : List ℕ)
      → All HasAddresses nodes
      → Owns nodes src a
      → (ltb 0 (length ids) && nat_beq (length (src_cidrs tx nodes ids)) 0) ≡ true
      → id_list_matches ids src.id ≡ false
  unfolding id_list_matches
  left_out ids all own gone =
      let none_left : length (src_cidrs tx nodes ids) ≡ 0 = ground (arith, gone) in
      let missing = no-sources tx laws nodes src a all own ids none_left in
      ground (arith, gone, missing)

  -- A rule that is left out of the compiled ones is not about the packet, and one that is kept is
  -- compiled to a rule that matches the packet exactly when it is about it.
  rule-refines :
      (r : AclRule) (proto port : ℕ)
      → All HasAddresses nodes
      → Owns nodes src a
      → All Parses r.ports
      → ((compile_rule tx nodes dst r ≡ none) × (acl_matches r src.id dst.id proto port ≡ false))
        ⊎ ((compile_rule tx nodes dst r ≡ some (compiled tx nodes r))
            × (matches (from_proto_rule tx (compiled tx nodes r)) a proto port
                ≡ acl_matches r src.id dst.id proto port))
  unfolding compile_rule
  rule-refines r proto port all own specs = elim (Bool-cases (id_list_matches r.dst_ids dst.id)) [
    | inr e ↦ inl (rw e (refl, refl))
    | inl e ↦
        elim (Bool-cases
          (ltb 0 (length r.src_ids) && nat_beq (length (src_cidrs tx nodes r.src_ids)) 0)) [
            | inl c ↦ let out = left_out r.src_ids all own c in inl (rw (e, c, out) (refl, refl))
            | inr c ↦
                let s = compiled-sources r all own c in
                let p = compiled-ports r proto port specs in
                let n = compiled-proto r proto in
                inr (
                  rw (e, c)
                    (
                      refl,
                      rw (n, s, p)
                          (and_swap (proto_named r.protocol proto)
                            (id_list_matches r.src_ids src.id) (port_listed r.ports proto port)),
                    ))
          ]
  ]

  rules-refine :
      (rules : List AclRule) (proto port : ℕ)
      → All HasAddresses nodes
      → Owns nodes src a
      → All (λ r. All Parses r.ports) rules
      → allows (map (from_proto_rule tx) (gather (compile_rule tx nodes dst) rules)) a proto port
        ≡ acl_allows rules src.id dst.id proto port
  unfolding from_proto_rule
  rules-refine [] proto port all own specs = allows_nil a proto port
  rules-refine (r ∷ rules) proto port all own specs =
      let rest = rules-refine rules proto port all own specs.1 in
      elim (rule-refines r proto port all own specs.0) [
        | inl (gone, miss) ↦ rw (gather-none (compile_rule tx nodes dst) r rules gone, miss) rest
        | inr (kept, same) ↦
            rw
              (
                gather-some (compile_rule tx nodes dst) r rules (compiled tx nodes r) kept,
                allows_cons (from_proto_rule tx (compiled tx nodes r))
                    (map (from_proto_rule tx) (gather (compile_rule tx nodes dst) rules)) a proto
                    port,
                same,
                rest,
              )
              refl
      ]

-- The filter that a device is sent and reads back lets a packet that parses through exactly when the
-- network has no access rules or the first of them that is about the packet's devices, protocol and
-- port is an allow rule. The packet's source address is one of a device's of the network, and of no
-- other's; every device has an address of each family, which net/netip writes and reads back; and
-- the rules' port specs are ones that the API accepts.
pub compile_filter_for_node-allows_packet :
    (tx : AddrText) (rules : AclTable) (nodes : Nodes) (src dst : Node) (pkt : List ℕ) (p : Parsed)
    → AddrTextLaws tx
    → All HasAddresses (nodes_in_network dst.network_id nodes)
    → Owns (nodes_in_network dst.network_id nodes) src p.src
    → All (λ r. All Parses r.ports) (acl dst.network_id rules)
    → parse pkt ≡ some p
    → (let (compiled, enabled) = compile_filter_for_node tx rules nodes dst in
        allows_packet (some (from_proto tx compiled enabled)) pkt)
      ≡ acl_decision (acl dst.network_id rules) src.id dst.id p.proto p.dst_port
unfolding compile_filter_for_node allows_packet from_proto
compile_filter_for_node-allows_packet tx rules nodes src dst pkt p laws all own specs e =
    let list = acl dst.network_id rules in
    elim (Bool-cases (nat_beq (length list) 0)) [
      | inl c ↦ rw (compile_filter_for_node, c) refl
      | inr c ↦
          rw (compile_filter_for_node, c, e)
            (rules-refine tx laws (nodes_in_network dst.network_id nodes) src dst p.src list p.proto
              p.dst_port all own specs)
    ]
