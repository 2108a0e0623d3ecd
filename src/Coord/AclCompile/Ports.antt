-- ===== src/Coord/AclCompile/Ports.antt =====
-- The ports of a compiled rule: the ranges that the access rule's port specs stand for.
use over_mesh.Common.{
  ℕ, ◌≤◌, ◌<◌, ◌%◌, ◌^◌, ◌≡◌, inl, inr, refl, subst, Bool, true, false, ◌&&◌, List, [], ◌∷◌, map,
  Option, none, some, ltb, leb, nat_beq, length, any, gather, gather-some, All, of_some, arith,
  Bool-cases, trim_space, cut, parse_uint, below, digits_onto,
}
use native.Mathlib.Nat.{mod-eq_of_lt}
use over_mesh.Filter.{PortRange}
use over_mesh.Coord.AclCompile.{parse_port_spec, last_port, port_spec}

-- A first and a last port that are in order and fit 16 bits; port 0 is none.
pub record PortsInRange (pr : PortRange) : Type 0 where
  pub positive : 1 ≤ pr.first
  pub ordered : pr.first ≤ pr.last
  pub fits : pr.last < 2 ^ 16

below-lt : (limit : ℕ) (o : Option ℕ) {n : ℕ} → below limit o ≡ some n → n < limit
below-lt limit none e = cc
below-lt limit (some m) {n} e = elim (Bool-cases (ltb m limit)) [
  | inl c ↦
      let same : some m ≡ some n = rw c at e in
      subst (λ (k : ℕ). k < limit) (of_some same) (ground (arith, c))
  | inr c ↦ let no : none ≡ some n = rw c at e in cc
]

parse_uint-lt : (s : List ℕ) (limit : ℕ) {n : ℕ} → parse_uint s limit ≡ some n → n < limit
parse_uint-lt [] limit e = cc
parse_uint-lt (c ∷ cs) limit {n} e = below-lt limit (digits_onto 0 (c ∷ cs)) {n = n} e

last_port-PortsInRange :
    (f : ℕ) (ranged : Bool) (o : Option ℕ) (pr : PortRange)
    → 1 ≤ f
    → f < 2 ^ 16
    → ((l : ℕ) → o ≡ some l → l < 2 ^ 16)
    → last_port f ranged o ≡ some pr
    → PortsInRange pr
last_port-PortsInRange f false o pr pos fits low e =
    subst PortsInRange (of_some e) (record { positive = pos; ordered = omega arith; fits = fits })
last_port-PortsInRange f true none pr pos fits low e = cc
last_port-PortsInRange f true (some l) pr pos fits low e = elim (Bool-cases (ltb l f)) [
  | inl c ↦ let no : none ≡ some pr = rw c at e in cc
  | inr c ↦
      let same : some (record { first = f; last = l }) ≡ some pr = rw c at e in
      subst PortsInRange (of_some same)
        (record { positive = pos; ordered = ground (arith, c); fits = low l refl })
]

port_spec-PortsInRange :
    (o : Option ℕ) (last : List ℕ) (ranged : Bool) (pr : PortRange)
    → ((f : ℕ) → o ≡ some f → f < 2 ^ 16)
    → port_spec o last ranged ≡ some pr
    → PortsInRange pr
port_spec-PortsInRange none last ranged pr low e = cc
port_spec-PortsInRange (some f) last ranged pr low e = elim (Bool-cases (nat_beq f 0)) [
  | inl c ↦ let no : none ≡ some pr = rw c at e in cc
  | inr c ↦
      last_port-PortsInRange f ranged (parse_uint (trim_space last) (2 ^ 16)) pr (ground (arith, c))
        (low f refl) (λ l h. parse_uint-lt (trim_space last) (2 ^ 16) {n = l} h) (rw c at e)
]

-- A port spec that parses gives two ports in order, neither 0 nor above 65535.
parse_port_spec-PortsInRange :
    (spec : List ℕ) (pr : PortRange) → parse_port_spec spec ≡ some pr → PortsInRange pr
unfolding parse_port_spec
parse_port_spec-PortsInRange spec pr e =
    port_spec-PortsInRange (parse_uint (trim_space (cut (trim_space spec) b'-').0) (2 ^ 16))
      (cut (trim_space spec) b'-').1 (cut (trim_space spec) b'-').2 pr
      (λ f h. parse_uint-lt (trim_space (cut (trim_space spec) b'-').0) (2 ^ 16) {n = f} h) e

abbrev pub in_range : ℕ → PortRange → Bool
in_range port pr = leb pr.first port && leb port pr.last

-- Whether a spec, as text, has the port.
abbrev pub spec_has : ℕ → List ℕ → Bool
spec_has port spec = elim (parse_port_spec spec) [ none ↦ false | some pr ↦ in_range port pr ]

spec_has-range :
    (port : ℕ) (spec : List ℕ) (pr : PortRange)
    → parse_port_spec spec ≡ some pr
    → spec_has port spec ≡ in_range port pr
spec_has-range port spec pr e = rw (spec_has, e) refl

-- The spec is one that the API accepts.
abbrev pub Parses : List ℕ → Type 0
Parses spec = (pr : PortRange) × (parse_port_spec spec ≡ some pr)

-- What the wire format and `FromProto` make of a range.
abbrev pub wire : PortRange → PortRange
wire p = record { first = p.first % 2 ^ 16; last = p.last % 2 ^ 16 }

pub ports-match :
    (specs : List (List ℕ)) (port : ℕ)
    → All Parses specs
    → (length (map wire (gather parse_port_spec specs)) ≡ length specs)
      × (any (in_range port) (map wire (gather parse_port_spec specs)) ≡ any (spec_has port) specs)
ports-match [] port h = (refl, refl)
ports-match (s ∷ specs) port h =
    let (pr, e) = h.0 in
    let r = parse_port_spec-PortsInRange s pr e in
    let rest = ports-match specs port h.1 in
    let f : pr.first % 2 ^ 16 ≡ pr.first = mod-eq_of_lt (omega (arith, r.ordered, r.fits)) in
    let l : pr.last % 2 ^ 16 ≡ pr.last = mod-eq_of_lt r.fits in
    rw (gather-some parse_port_spec s specs pr e, spec_has-range port s pr e, rest.0, f, l, rest.1)
      (refl, refl)
