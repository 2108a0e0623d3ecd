-- ===== src/Tests/Access.antt =====
-- The compiled filter of the device 2, which only the device 1 may reach over SSH.
use over_mesh.Common.{
  ℕ, ◌+◌, ◌*◌, ◌^◌, ◌<◌, ◌≡◌, ◌≢◌, refl, arith, Option, some, none, List, [], ◌∷◌, inl, All,
  nat_beq, bytes_beq, if◌then◌else◌, ◌&&◌,
}
use over_mesh.Net.{Addr, no_addr, v4, v6, Prefix, host_prefix}
use over_mesh.Filter.{parse, parse_v4, allows_packet}
use over_mesh.Store.Nodes.{Node, Nodes}
use over_mesh.Store.Acl.{AclRule, AclTable, acl}
use over_mesh.Coord.AclCompile.{
  AddrText, slash_32, slash_128, parse_port_spec, compile_filter_for_node, from_proto,
}
use over_mesh.Coord.AclCompile.Sources.{AddrTextLaws, HasAddresses, Owns}
use over_mesh.Coord.AclCompile.Ports.{Parses}
use over_mesh.Coord.AclCompile.Refinement.{acl_decision, compile_filter_for_node-allows_packet}

-- An address in two numbers, the first of them its family.
abbrev text_of : Addr → List ℕ
text_of no_addr = []
text_of (v4 a) = 4 ∷ a ∷ []
text_of (v6 a) = 6 ∷ a ∷ []

abbrev prefix_of : List ℕ → Option Prefix
prefix_of (k ∷ a ∷ rest) =
    if nat_beq k 4 && bytes_beq rest slash_32
    then some (host_prefix (v4 a))
    else if nat_beq k 6 && bytes_beq rest slash_128
    then some (host_prefix (v6 a))
    else none
prefix_of _ = none

abbrev numbers : AddrText
numbers = record { to_string = text_of; parse_prefix = prefix_of }

numbers_laws : AddrTextLaws numbers
numbers_laws = record { host_v4 = λ a fits. refl; host_v6 = λ a fits plain. refl }

abbrev device : ℕ → Node
device id = record {
  id = id;
  network_id = 1;
  hostname = [];
  machine_key = id ∷ [];
  node_key = [];
  ipv4 = v4 (0x0a000000 + id);
  ipv6 = v6 (0xfdab3f190000 * 2 ^ 80 + id);
  os = [];
  endpoints = [];
  created_at = 0;
  last_seen = 0;
  owner_user_id = 0;
}

abbrev devices : Nodes
devices = record { rows = device 1 ∷ device 2 ∷ []; next_id = 3 }

abbrev ssh : AclRule
ssh = record {
  id = 1;
  action = "allow";
  src_ids = 1 ∷ [];
  dst_ids = 2 ∷ [];
  protocol = "tcp";
  ports = (b'2' ∷ b'2' ∷ []) ∷ [];
}

abbrev rules : AclTable
rules = record { rows = record { network_id = 1; position = 0; rule = ssh } ∷ []; next_id = 2 }

ssh_port : parse_port_spec (b'2' ∷ b'2' ∷ []) ≡ some (record { first = 22; last = 22 })
unfolding parse_port_spec
ssh_port = refl

device-HasAddresses : (id : ℕ) → id < 3 → HasAddresses (device id)
device-HasAddresses id small = record {
  a4 = 0x0a000000 + id;
  is_v4 = refl;
  fits_v4 = omega arith;
  a6 = 0xfdab3f190000 * 2 ^ 80 + id;
  is_v6 = refl;
  fits_v6 = omega arith;
  not_mapped = λ e. omega (arith, e);
}

other_v4 : ◌≢◌ {A = Addr} (v4 0x0a000002) (v4 0x0a000001)
other_v4 e = ground (arith, e)

other_v6 : {a b : ℕ} → ◌≢◌ {A = Addr} (v6 a) (v4 b)
other_v6 e = cc

device-Owns : Owns (device 1 ∷ device 2 ∷ []) (device 1) (v4 0x0a000001)
device-Owns = record {
  listed = refl;
  has = inl refl;
  alone = ((λ ne. absurd (ne refl)), ((λ ne. (other_v4, other_v6)), tt));
}

-- A TCP packet from 10.0.0.1 to port 22 of 10.0.0.2.
abbrev packet : List ℕ
packet =
    69 ∷ 0 ∷ 0 ∷ 40 ∷ 0 ∷ 1 ∷ 0 ∷ 0 ∷ 64 ∷ 6 ∷ 0 ∷ 0 ∷ 10 ∷ 0 ∷ 0 ∷ 1 ∷ 10 ∷ 0 ∷ 0 ∷ 2 ∷ 4 ∷ 0 ∷ 0
    ∷ 22 ∷ []

parse-packet : parse packet ≡ some (record { src = v4 0x0a000001; proto = 6; dst_port = 22 })
unfolding parse parse_v4
parse-packet = refl

rules_Parse : All (λ r. All Parses r.ports) (acl 1 rules)
unfolding acl
rules_Parse = (((record { first = 22; last = 22 }, ssh_port), tt), tt)

compile_filter_for_node-allows_packet_example :
    (let (compiled, enabled) = compile_filter_for_node numbers rules devices (device 2) in
      allows_packet (some (from_proto numbers compiled enabled)) packet)
    ≡ acl_decision (acl 1 rules) 1 2 6 22
compile_filter_for_node-allows_packet_example =
    compile_filter_for_node-allows_packet numbers rules devices (device 1) (device 2) packet
      (record { src = v4 0x0a000001; proto = 6; dst_port = 22 }) numbers_laws
      (device-HasAddresses 1 (omega arith), (device-HasAddresses 2 (omega arith), tt)) device-Owns
      rules_Parse parse-packet
