-- ===== src/Coord/AclCompile.antt =====
-- internal/coord/aclcompile.go: the network's access rules rendered for one receiving device, and
-- `FromProto` of internal/filter/filter.go, which that device reads them with.
pub mod Sources
pub mod Ports
pub mod Refinement
use over_mesh.Common.{
  ℕ, ◌+◌, ◌^◌, ◌%◌, Bool, true, false, not, ◌&&◌, ◌||◌, String, str_eq, List, [], ◌∷◌, ◌++◌, map,
  Option, none, some, ltb, leb, nat_beq, nat_eq, if◌then◌else◌, length, contains, gather, find,
  has_key, trim_space, cut, parse_uint,
}
use over_mesh.Net.{Addr, Prefix}
use over_mesh.Filter.{Filter, Rule, PortRange}
use over_mesh.Store.Nodes.{Node, Nodes, row_id, nodes_in_network}
use over_mesh.Store.Acl.{AclRule, AclTable, acl}

-- `Addr.String` and `ParsePrefix` of net/netip.
pub record AddrText : Type 0 where
  pub to_string : Addr → List ℕ
  pub parse_prefix : List ℕ → Option Prefix

-- The messages `FilterRule` and `PortRange` of the netmap.
pub record FilterRule : Type 0 where
  pub allow : Bool
  pub src_cidrs : List (List ℕ)
  pub protocol : String
  pub dst_ports : List PortRange

-- "/32" and "/128"
abbrev pub slash_32 : List ℕ
slash_32 = b'/' ∷ b'3' ∷ b'2' ∷ []

abbrev pub slash_128 : List ℕ
slash_128 = b'/' ∷ b'1' ∷ b'2' ∷ b'8' ∷ []

unfoldable pub id_list_matches : List ℕ → ℕ → Bool
id_list_matches ids id = if nat_beq (length ids) 0 then true else contains ids id

abbrev pub last_port : ℕ → Bool → Option ℕ → Option PortRange
last_port f false l = some (record { first = f; last = f })
last_port f true none = none
last_port f true (some l) = if ltb l f then none else some (record { first = f; last = l })

abbrev pub port_spec : Option ℕ → List ℕ → Bool → Option PortRange
port_spec none last ranged = none
port_spec (some f) last ranged =
    if nat_beq f 0 then none else last_port f ranged (parse_uint (trim_space last) (2 ^ 16))

unfoldable pub parse_port_spec : List ℕ → Option PortRange
parse_port_spec spec =
    let (first, last, ranged) = cut (trim_space spec) b'-' in
    port_spec (parse_uint (trim_space first) (2 ^ 16)) last ranged

module _ (tx : AddrText) where
  abbrev pub overlay_cidrs : Node → List (List ℕ)
  overlay_cidrs n = (tx.to_string n.ipv4 ++ slash_32) ∷ (tx.to_string n.ipv6 ++ slash_128) ∷ []

  -- The loop over `SrcIDs`, with the map `byID` looked up in the list of the nodes: their numbers
  -- differ.
  abbrev pub src_cidrs : List Node → List ℕ → List (List ℕ)
  src_cidrs nodes [] = []
  src_cidrs nodes (id ∷ ids) = elim (find (has_key row_id id) nodes) [
    | none ↦ src_cidrs nodes ids
    | some n ↦ overlay_cidrs n ++ src_cidrs nodes ids
  ]

  abbrev pub compiled : List Node → AclRule → FilterRule
  compiled nodes r = record {
    allow = str_eq r.action "allow";
    src_cidrs = src_cidrs nodes r.src_ids;
    protocol = r.protocol;
    dst_ports = gather parse_port_spec r.ports;
  }

  -- One turn of the loop over the rules: `none` where it goes on without adding a rule.
  unfoldable pub compile_rule : List Node → Node → AclRule → Option FilterRule
  compile_rule nodes dst r =
      let rule = compiled nodes r in
      if not (id_list_matches r.dst_ids dst.id)
      then none
      else if ltb 0 (length r.src_ids) && nat_beq (length rule.src_cidrs) 0
      then none
      else some rule

  -- The rules and whether the filter is on.
  unfoldable pub compile_filter_for_node : AclTable → Nodes → Node → List FilterRule × Bool
  compile_filter_for_node rules nodes dst =
      let list = acl dst.network_id rules in
      if nat_beq (length list) 0
      then ([], false)
      else (gather (compile_rule (nodes_in_network dst.network_id nodes) dst) list, true)

  unfoldable pub from_proto_rule : FilterRule → Rule
  from_proto_rule pr = record {
    allow = pr.allow;
    srcs = gather tx.parse_prefix pr.src_cidrs;
    proto = pr.protocol;
    ports = map (λ p. record { first = p.first % 2 ^ 16; last = p.last % 2 ^ 16 }) pr.dst_ports;
  }

  unfoldable pub from_proto : List FilterRule → Bool → Filter
  from_proto rules enabled = record { enabled = enabled; rules = map from_proto_rule rules }
