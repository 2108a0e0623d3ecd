-- ===== src/Tests/Packets.antt =====
-- The packet filter on packets of 10.0.0.1, with a rule that allows TCP to port 22.
use over_mesh.Common.{
  ℕ, ◌≡◌, ◌↔◌, refl, true, arith, Option, some, none, List, [], ◌∷◌, ◌++◌, inl, length,
}
use over_mesh.Net.{v4}
use over_mesh.Filter.{Rule, Filter, allows, allows_packet, check, parse}
use over_mesh.Filter.Rules.{FirstMatch, allows-FirstMatch, Matches, matches_iff, matches}
use over_mesh.Filter.Packets.{
  HeaderV4, header_v4, IsHeaderV4, portless, parse-header_v4, allows_packet-check,
  allows_packet_fragment,
}

abbrev header : ℕ → HeaderV4
header frag = record {
  ihl = 5;
  tos = 0;
  len_hi = 0;
  len_lo = 40;
  id_hi = 0;
  id_lo = 1;
  frag_hi = 0;
  frag_lo = frag;
  ttl = 64;
  proto = 6;
  check_hi = 0;
  check_lo = 0;
  s0 = 10;
  s1 = 0;
  s2 = 0;
  s3 = 1;
  d0 = 10;
  d1 = 0;
  d2 = 0;
  d3 = 2;
  options = [];
}

header-IsHeaderV4 : (frag : ℕ) → IsHeaderV4 (header frag)
header-IsHeaderV4 frag = record {
  at_least = omega arith;
  at_most = omega arith;
  options_fit = refl;
}

abbrev ssh : Rule
ssh = record {
  allow = true;
  srcs = [];
  proto = "tcp";
  ports = record { first = 22; last = 22 } ∷ [];
}

abbrev ssh_only : Filter
ssh_only = record { enabled = true; rules = ssh ∷ [] }

allows-FirstMatch_example :
    (allows (ssh ∷ []) (v4 0x0a000001) 6 22 ≡ true)
    ↔ ((r : Rule) × FirstMatch (ssh ∷ []) (v4 0x0a000001) 6 22 r × (r.allow ≡ true))
allows-FirstMatch_example = allows-FirstMatch (ssh ∷ []) (v4 0x0a000001) 6 22

matches_iff_example : (matches ssh (v4 0x0a000001) 6 22 ≡ true) ↔ Matches ssh (v4 0x0a000001) 6 22
matches_iff_example = matches_iff ssh (v4 0x0a000001) 6 22

parse-header_v4_example :
    parse (header_v4 (header 0) ++ 4 ∷ 0 ∷ 0 ∷ 22 ∷ [])
    ≡ some (record { src = v4 0x0a000001; proto = 6; dst_port = 22 })
parse-header_v4_example = parse-header_v4 (header 0) 4 0 0 22 [] (header-IsHeaderV4 0) (inl refl)

allows_packet-check_example :
    allows_packet (some ssh_only) (header_v4 (header 0) ++ 4 ∷ 0 ∷ 0 ∷ 22 ∷ [])
    ≡ check (some ssh_only) (v4 0x0a000001) "tcp" 22
allows_packet-check_example =
    allows_packet-check (some ssh_only) (header 0) "tcp" 4 0 0 22 [] (header-IsHeaderV4 0)
      (inl (refl, refl)) refl

allows_packet_fragment_example :
    allows_packet (some ssh_only) (header_v4 (header 9) ++ 4 ∷ 0 ∷ 0 ∷ 22 ∷ [])
    ≡ allows (portless (ssh ∷ [])) (v4 0x0a000001) 6 0
allows_packet_fragment_example =
    allows_packet_fragment ssh_only (header 9) 4 0 0 22 [] (header-IsHeaderV4 9) (inl refl)
      (omega arith) ((omega arith, tt), tt) refl

abbrev write_all : List (List ℕ) → ℕ → ℕ × Option ℕ
write_all bs offset = (length bs, none)

abbrev batch : List (List ℕ)
batch =
    (header_v4 (header 0) ++ 4 ∷ 0 ∷ 0 ∷ 22 ∷ [])
    ∷ (header_v4 (header 0) ++ 4 ∷ 0 ∷ 0 ∷ 23 ∷ [])
    ∷ []
