-- ===== src/Filter/Packets.antt =====
-- `parse` on well-formed packets, and the packet filter against the dry-run `Check`.
use over_mesh.Common.{
  ℕ, ◌+◌, ◌*◌, ◌/◌, ◌%◌, ◌^◌, ◌≤◌, ◌<◌, ◌≡◌, ◌⊎◌, inl, inr, refl, true, false, ◌&&◌, List, [], ◌∷◌,
  ◌++◌, arith, String, leb, nat_beq, if◌then◌else◌, length, length-append, get_or, get_or-append,
  any, select, All, Bool-cases, Option, some, none,
}
use over_mesh.Net.{Addr, v4}
use over_mesh.Filter.{
  Rule, Filter, PortRange, allows, allows_packet, check, parse, parse_v4, parse_v6, matches_port,
}
use over_mesh.Filter.Rules.{allows_cons}

-- An IPv4 header of `ihl` 32-bit words.
pub record HeaderV4 : Type 0 where
  pub ihl : ℕ
  pub tos : ℕ
  pub len_hi : ℕ
  pub len_lo : ℕ
  pub id_hi : ℕ
  pub id_lo : ℕ
  pub frag_hi : ℕ
  pub frag_lo : ℕ
  pub ttl : ℕ
  pub proto : ℕ
  pub check_hi : ℕ
  pub check_lo : ℕ
  pub s0 : ℕ
  pub s1 : ℕ
  pub s2 : ℕ
  pub s3 : ℕ
  pub d0 : ℕ
  pub d1 : ℕ
  pub d2 : ℕ
  pub d3 : ℕ
  pub options : List ℕ

abbrev pub header_v4 : HeaderV4 → List ℕ
header_v4 h =
    (64 + h.ihl)
    ∷ h.tos
    ∷ h.len_hi
    ∷ h.len_lo
    ∷ h.id_hi
    ∷ h.id_lo
    ∷ h.frag_hi
    ∷ h.frag_lo
    ∷ h.ttl
    ∷ h.proto
    ∷ h.check_hi
    ∷ h.check_lo
    ∷ h.s0
    ∷ h.s1
    ∷ h.s2
    ∷ h.s3
    ∷ h.d0
    ∷ h.d1
    ∷ h.d2
    ∷ h.d3
    ∷ h.options

pub record IsHeaderV4 (h : HeaderV4) : Type 0 where
  pub at_least : 5 ≤ h.ihl
  pub at_most : h.ihl < 16
  pub options_fit : length h.options + 20 ≡ 4 * h.ihl

abbrev pub src_of : HeaderV4 → Addr
src_of h = v4 (((h.s0 * 256 + h.s1) * 256 + h.s2) * 256 + h.s3)

-- The fragment offset: the low 13 bits of the sixteen that hold it.
abbrev pub frag_offset : HeaderV4 → ℕ
frag_offset h = (h.frag_hi * 256 + h.frag_lo) % 2 ^ 13

-- An IPv4 packet of TCP or UDP with at least four bytes behind its header, options included, is read as
-- its source, its protocol and its destination port, but that the port of a fragment after the first
-- is read as 0.
pub parse-header_v4 :
    (h : HeaderV4) (sp0 sp1 dp0 dp1 : ℕ) (payload : List ℕ)
    → IsHeaderV4 h
    → (h.proto ≡ 6) ⊎ (h.proto ≡ 17)
    → parse (header_v4 h ++ sp0 ∷ sp1 ∷ dp0 ∷ dp1 ∷ payload)
      ≡ some (record {
        src = src_of h;
        proto = h.proto;
        dst_port = if nat_beq (frag_offset h) 0 then dp0 * 256 + dp1 else 0;
      })
unfolding parse parse_v4
parse-header_v4 h sp0 sp1 dp0 dp1 payload ok port =
    let body = sp0 ∷ sp1 ∷ dp0 ∷ dp1 ∷ payload in
    let ihl_is : (64 + h.ihl) % 16 * 4 ≡ length (header_v4 h) =
      omega (arith, ok.options_fit, ok.at_most) in
    let hi = get_or-append (header_v4 h) body 2 0 in
    let lo = get_or-append (header_v4 h) body 3 0 in
    let long = length-append h.options body in
    ground (arith, ok.at_least, ok.at_most, ok.options_fit, hi, lo, long)

-- The dry-run tester agrees with the packet filter: on an IPv4 packet of TCP or UDP that is no later
-- fragment and has at least four bytes behind its header, the filter answers as `Check` does for the
-- packet's source and destination port.
pub allows_packet-check :
    (f : Option Filter) (h : HeaderV4) (name : String) (sp0 sp1 dp0 dp1 : ℕ) (payload : List ℕ)
    → IsHeaderV4 h
    → ((name ≡ "tcp") × (h.proto ≡ 6)) ⊎ ((name ≡ "udp") × (h.proto ≡ 17))
    → frag_offset h ≡ 0
    → allows_packet f (header_v4 h ++ sp0 ∷ sp1 ∷ dp0 ∷ dp1 ∷ payload)
      ≡ check f (src_of h) name (dp0 * 256 + dp1)
unfolding allows_packet check
allows_packet-check none h name sp0 sp1 dp0 dp1 payload ok port frag = refl
allows_packet-check (some f) h name sp0 sp1 dp0 dp1 payload ok (inl (tcp, six)) frag =
    rw (parse-header_v4 h sp0 sp1 dp0 dp1 payload ok (inl six), tcp) (ground arith)
allows_packet-check (some f) h name sp0 sp1 dp0 dp1 payload ok (inr (udp, seventeen)) frag =
    rw (parse-header_v4 h sp0 sp1 dp0 dp1 payload ok (inr seventeen), udp) (ground arith)

-- The rules with no ports.
abbrev pub portless : List Rule → List Rule
portless = select (λ r. nat_beq (length r.ports) 0)

-- No port range starts at port 0.
abbrev pub RangesArePositive : List PortRange → Type 0
RangesArePositive = All (λ q. 0 < q.first)

port_zero-misses :
    (ports : List PortRange)
    → RangesArePositive ports
    → any (λ pr. leb pr.first 0 && leb 0 pr.last) ports ≡ false
port_zero-misses [] h = refl
port_zero-misses (q ∷ ports) h = ground (arith, port_zero-misses ports h.1)

matches_port_zero :
    (r : Rule) (proto : ℕ)
    → RangesArePositive r.ports
    → matches_port r proto 0 ≡ nat_beq (length r.ports) 0
unfolding matches_port
matches_port_zero r proto h = ground (arith, port_zero-misses r.ports h)

-- Where the port is 0 the rules with ports play no part.
allows_port_zero :
    (rules : List Rule) (src : Addr) (proto : ℕ)
    → All (λ r. RangesArePositive r.ports) rules
    → allows rules src proto 0 ≡ allows (portless rules) src proto 0
allows_port_zero [] src proto h = refl
allows_port_zero (r ∷ rules) src proto h = elim (Bool-cases (nat_beq (length r.ports) 0)) [
  | inl open' ↦
      rw (open', allows_cons, allows_cons) (ground (arith, allows_port_zero rules src proto h.1))
  | inr ports ↦
      rw (ports, allows_cons, matches_port_zero r proto h.0, ports)
        (ground (arith, allows_port_zero rules src proto h.1))
]

-- With filtering on, a fragment after the first of an IPv4 packet of TCP or UDP that has at least four
-- bytes behind its header is decided by the rules without ports alone, when no port range of the rules
-- starts at 0: neither an allow nor a deny rule with ports sees it.
pub allows_packet_fragment :
    (f : Filter) (h : HeaderV4) (b0 b1 b2 b3 : ℕ) (payload : List ℕ)
    → IsHeaderV4 h
    → (h.proto ≡ 6) ⊎ (h.proto ≡ 17)
    → 0 < frag_offset h
    → All (λ r. RangesArePositive r.ports) f.rules
    → f.enabled ≡ true
    → allows_packet (some f) (header_v4 h ++ b0 ∷ b1 ∷ b2 ∷ b3 ∷ payload)
      ≡ allows (portless f.rules) (src_of h) h.proto 0
unfolding allows_packet
allows_packet_fragment f h b0 b1 b2 b3 payload ok port later positive on =
    rw (parse-header_v4 h b0 b1 b2 b3 payload ok port, on)
      (ground (arith, allows_port_zero f.rules (src_of h) h.proto positive))

-- With filtering on, a packet with no room for its header is refused: an empty one, and one that
-- is shorter than the 20 bytes of IPv4 or the 40 of IPv6.
allows_packet_truncated :
    (f : Filter) (pkt : List ℕ)
    → f.enabled ≡ true
    → (length pkt < 20) ⊎ ((get_or pkt 0 0 / 16 ≡ 6) × (length pkt < 40))
    → allows_packet (some f) pkt ≡ false
unfolding allows_packet parse parse_v4 parse_v6
allows_packet_truncated f pkt on short = ground arith
