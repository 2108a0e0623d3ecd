-- ===== src/Filter.antt =====
-- internal/filter/filter.go: the access rules that a node applies to inbound overlay packets, and
-- internal/wgengine/filtertun.go, which applies them. A packet is the list of its bytes.
pub mod Rules
pub mod Packets
pub mod Tun
use over_mesh.Common.{
  ℕ, ◌+◌, ◌-◌, ◌*◌, ◌/◌, ◌%◌, ◌^◌, Bool, true, false, not, ◌&&◌, ◌||◌, Option, none, some, List, [],
  ◌∷◌, String, str_eq, ltb, leb, nat_beq, if◌then◌else◌, length, get_or, take, drop, any,
}
use over_mesh.Net.{Addr, v4, v6, is6, Prefix, prefix_contains}

abbrev pub proto_icmp4 : ℕ
proto_icmp4 = 1

abbrev pub proto_tcp : ℕ
proto_tcp = 6

abbrev pub proto_udp : ℕ
proto_udp = 17

abbrev pub proto_icmp6 : ℕ
proto_icmp6 = 58

pub record PortRange : Type 0 where
  pub first : ℕ
  pub last : ℕ

pub record Rule : Type 0 where
  pub allow : Bool
  pub srcs : List Prefix
  pub proto : String
  pub ports : List PortRange

pub record Filter : Type 0 where
  pub enabled : Bool
  pub rules : List Rule

unfoldable pub matches_src : Rule → Addr → Bool
matches_src r src =
    if nat_beq (length r.srcs) 0 then true else any (λ p. prefix_contains p src) r.srcs

unfoldable pub matches_proto : Rule → ℕ → Bool
matches_proto r proto =
    if str_eq r.proto ""
    then true
    else if str_eq r.proto "tcp"
    then nat_beq proto proto_tcp
    else if str_eq r.proto "udp"
    then nat_beq proto proto_udp
    else if str_eq r.proto "icmp"
    then nat_beq proto proto_icmp4 || nat_beq proto proto_icmp6
    else false

unfoldable pub matches_port : Rule → ℕ → ℕ → Bool
matches_port r proto port =
    if nat_beq (length r.ports) 0
    then true
    else if not (nat_beq proto proto_tcp) && not (nat_beq proto proto_udp)
    then false
    else any (λ pr. leb pr.first port && leb port pr.last) r.ports

-- The loop of `allows` over the rules.
unfoldable pub allows : List Rule → Addr → ℕ → ℕ → Bool
allows [] src proto port = false
allows (r ∷ rules) src proto port =
    if not (matches_proto r proto) || not (matches_src r src) || not (matches_port r proto port)
    then allows rules src proto port
    else r.allow

-- A nil `*Filter` is `none`.
unfoldable pub check : Option Filter → Addr → String → ℕ → Bool
check none src proto_name port = true
check (some f) src proto_name port =
    if not f.enabled
    then true
    else if str_eq proto_name "tcp"
    then allows f.rules src proto_tcp port
    else if str_eq proto_name "udp"
    then allows f.rules src proto_udp port
    else if str_eq proto_name "icmp"
    then allows f.rules src (if is6 src then proto_icmp6 else proto_icmp4) port
    else false

-- `binary.BigEndian.Uint16` at an index, and a big-endian number of any length.
abbrev pub uint16_at : List ℕ → ℕ → ℕ
uint16_at pkt i = get_or pkt i 0 * 256 + get_or pkt (i + 1) 0

abbrev pub number_from : ℕ → List ℕ → ℕ
number_from acc [] = acc
number_from acc (b ∷ bs) = number_from (acc * 256 + b) bs

abbrev pub slice : List ℕ → ℕ → ℕ → List ℕ
slice pkt from to = take (to - from) (drop from pkt)

abbrev pub has_ports : ℕ → Bool
has_ports proto = nat_beq proto proto_tcp || nat_beq proto proto_udp

pub record Parsed : Type 0 where
  pub src : Addr
  pub proto : ℕ
  pub dst_port : ℕ

unfoldable pub parse_v4 : List ℕ → Option Parsed
parse_v4 pkt =
    if ltb (length pkt) 20
    then none
    else let ihl = get_or pkt 0 0 % 16 * 4 in
      if ltb ihl 20 || ltb (length pkt) ihl
      then none
      else let proto = get_or pkt 9 0 in
        let src = v4 (number_from 0 (slice pkt 12 16)) in
        if has_ports proto && ltb (length pkt) (ihl + 4)
        then none
        else let port = if has_ports proto then uint16_at pkt (ihl + 2) else 0 in
          let frag = uint16_at pkt 6 % 2 ^ 13 in
          some (record {
            src = src;
            proto = proto;
            dst_port = if not (nat_beq frag 0) then 0 else port;
          })

unfoldable pub parse_v6 : List ℕ → Option Parsed
parse_v6 pkt =
    if ltb (length pkt) 40
    then none
    else let proto = get_or pkt 6 0 in
      let src = v6 (number_from 0 (slice pkt 8 24)) in
      if has_ports proto && ltb (length pkt) 44
      then none
      else some (record {
        src = src;
        proto = proto;
        dst_port = if has_ports proto then uint16_at pkt 42 else 0;
      })

-- `none` where the source returns `ok` false.
unfoldable pub parse : List ℕ → Option Parsed
parse pkt =
    if ltb (length pkt) 1
    then none
    else if nat_beq (get_or pkt 0 0 / 16) 4
    then parse_v4 pkt
    else if nat_beq (get_or pkt 0 0 / 16) 6
    then parse_v6 pkt
    else none

abbrev allows_parsed : List Rule → Option Parsed → Bool
allows_parsed rules none = false
allows_parsed rules (some p) = allows rules p.src p.proto p.dst_port

unfoldable pub allows_packet : Option Filter → List ℕ → Bool
allows_packet none pkt = true
allows_packet (some f) pkt = if not f.enabled then true else allows_parsed f.rules (parse pkt)
