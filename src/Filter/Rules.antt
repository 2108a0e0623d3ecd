-- ===== src/Filter/Rules.antt =====
-- `allows`: the first rule that matches decides, and with none the packet is refused.
use mathlib.Core.Bool.{false≢true}
use over_mesh.Common.{
  ℕ, ◌≤◌, ◌≡◌, ◌≢◌, ◌↔◌, ◌⊎◌, inl, inr, refl, ap, ◌∙◌, Bool, true, false, ◌&&◌, List, [], ◌∷◌, ◌++◌,
  arith, String, eq_iff, leb, if◌then◌else◌, length, any, All, Bool-cases,
}
use over_mesh.Net.{Addr, prefix_contains}
use over_mesh.Filter.{Rule, PortRange, matches_src, matches_proto, matches_port, allows}

-- Some element has the property.
abbrev pub Some : {A : Type 0} → (A → Type 0) → List A → Type 0
Some P [] = ⊥
Some P (x ∷ xs) = P x ⊎ Some P xs

any-Some : {A : Type 0} (p : A → Bool) (xs : List A) → (any p xs ≡ true) ↔ Some (λ x. p x ≡ true) xs
any-Some p [] = ground arith
any-Some p (x ∷ xs) = ground (arith, any-Some p xs)

length_zero : {A : Type 0} (xs : List A) → (length xs ≡ 0) ↔ (xs ≡ [])
length_zero [] = ground arith
length_zero (x ∷ xs) = ground arith

-- The rule names the protocol, by its name or by leaving it out.
abbrev pub NamesProto : Rule → ℕ → Type 0
NamesProto r proto =
    (r.proto ≡ "")
    ⊎ ((r.proto ≡ "tcp") × (proto ≡ 6))
    ⊎ ((r.proto ≡ "udp") × (proto ≡ 17))
    ⊎ ((r.proto ≡ "icmp") × ((proto ≡ 1) ⊎ (proto ≡ 58)))

-- What it means for a rule to match: its protocol is the packet's, its source list is empty or has a
-- prefix with the packet's source, and its port list is empty or, for TCP and UDP, has a range with
-- the packet's port.
pub record Matches (r : Rule) (src : Addr) (proto port : ℕ) : Type 0 where
  pub proto_is : NamesProto r proto
  pub src_is : (r.srcs ≡ []) ⊎ Some (λ p. prefix_contains p src ≡ true) r.srcs
  pub port_is :
      (r.ports ≡ [])
      ⊎ (((proto ≡ 6) ⊎ (proto ≡ 17)) × Some (λ q. (q.first ≤ port) × (port ≤ q.last)) r.ports)

pub proto_names_differ :
    (◌≢◌ {A = String} "tcp" "")
    × (◌≢◌ {A = String} "udp" "")
    × (◌≢◌ {A = String} "icmp" "")
    × (◌≢◌ {A = String} "udp" "tcp")
    × (◌≢◌ {A = String} "icmp" "tcp")
    × (◌≢◌ {A = String} "icmp" "udp")
proto_names_differ = (
  (λ e. false≢true ((eq_iff "tcp" "").1 e)),
  (λ e. false≢true ((eq_iff "udp" "").1 e)),
  (λ e. false≢true ((eq_iff "icmp" "").1 e)),
  (λ e. false≢true ((eq_iff "udp" "tcp").1 e)),
  (λ e. false≢true ((eq_iff "icmp" "tcp").1 e)),
  (λ e. false≢true ((eq_iff "icmp" "udp").1 e)),
)

matches_proto_iff : (r : Rule) (proto : ℕ) → (matches_proto r proto ≡ true) ↔ NamesProto r proto
unfolding matches_proto
matches_proto_iff r proto = ground (
  arith,
  eq_iff r.proto "",
  eq_iff r.proto "tcp",
  eq_iff r.proto "udp",
  eq_iff r.proto "icmp",
  proto_names_differ,
)

matches_src_iff :
    (r : Rule) (src : Addr)
    → (matches_src r src ≡ true) ↔ ((r.srcs ≡ []) ⊎ Some (λ p. prefix_contains p src ≡ true) r.srcs)
unfolding matches_src
matches_src_iff r src =
    ground (arith, any-Some (λ p. prefix_contains p src) r.srcs, length_zero r.srcs)

in_ranges-Some :
    (ports : List PortRange) (port : ℕ)
    → (any (λ pr. leb pr.first port && leb port pr.last) ports ≡ true)
      ↔ Some (λ q. (q.first ≤ port) × (port ≤ q.last)) ports
in_ranges-Some [] port = ground arith
in_ranges-Some (q ∷ ports) port = ground (arith, in_ranges-Some ports port)

matches_port_iff :
    (r : Rule) (proto port : ℕ)
    → (matches_port r proto port ≡ true) ↔ (
        (r.ports ≡ [])
        ⊎ (((proto ≡ 6) ⊎ (proto ≡ 17)) × Some (λ q. (q.first ≤ port) × (port ≤ q.last)) r.ports))
unfolding matches_port
matches_port_iff r proto port = ground (arith, in_ranges-Some r.ports port, length_zero r.ports)

abbrev pub matches : Rule → Addr → ℕ → ℕ → Bool
matches r src proto port = matches_proto r proto && (matches_src r src && matches_port r proto port)

-- The three tests of the code hold together exactly when the rule matches.
pub matches_iff :
    (r : Rule) (src : Addr) (proto port : ℕ)
    → (matches r src proto port ≡ true) ↔ Matches r src proto port
matches_iff r src proto port = (
  (λ h. record {
    proto_is = (matches_proto_iff r proto).0 (ground arith);
    src_is = (matches_src_iff r src).0 (ground arith);
    port_is = (matches_port_iff r proto port).0 (ground arith);
  }),
  λ m.
      let a = (matches_proto_iff r proto).1 m.proto_is in
      let b = (matches_src_iff r src).1 m.src_is in
      let c = (matches_port_iff r proto port).1 m.port_is in ground arith,
)

pub allows_nil : (src : Addr) (proto port : ℕ) → allows [] src proto port ≡ false
unfolding allows
allows_nil src proto port = refl

pub allows_cons :
    (r : Rule) (rules : List Rule) (src : Addr) (proto port : ℕ)
    → allows (r ∷ rules) src proto port
      ≡ (if matches r src proto port then r.allow else allows rules src proto port)
unfolding allows
allows_cons r rules src proto port = ground arith

-- The first rule that matches is `r`.
pub record FirstMatch (rules : List Rule) (src : Addr) (proto port : ℕ) (r : Rule) : Type 0 where
  pub before : List Rule
  pub after : List Rule
  pub splits : rules ≡ before ++ r ∷ after
  pub passed : All (λ q. ¬ Matches q src proto port) before
  pub hit : Matches r src proto port

FirstMatch-skip :
    (q r : Rule) (rules : List Rule) (src : Addr) (proto port : ℕ)
    → ¬ Matches q src proto port
    → FirstMatch rules src proto port r
    → FirstMatch (q ∷ rules) src proto port r
FirstMatch-skip q r rules src proto port miss f = record {
  before = q ∷ f.before;
  after = f.after;
  splits = ap (◌∷◌ q) f.splits;
  passed = (miss, f.passed);
  hit = f.hit;
}

first :
    (rules : List Rule) (src : Addr) (proto port : ℕ)
    → allows rules src proto port ≡ true
    → (r : Rule) × FirstMatch rules src proto port r × (r.allow ≡ true)
first [] src proto port h = cc (allows_nil src proto port)
first (q ∷ rules) src proto port h = elim (Bool-cases (matches q src proto port)) [
  | inl yes' ↦ (
    q,
    record {
      before = [];
      after = rules;
      splits = refl;
      passed = tt;
      hit = (matches_iff q src proto port).0 yes';
    },
    ground (arith, allows_cons q rules src proto port),
  )
  | inr no' ↦
      let (r, f, allow) =
        first rules src proto port (ground (arith, allows_cons q rules src proto port)) in
      (
        r,
        FirstMatch-skip q r rules src proto port (λ m. cc ((matches_iff q src proto port).1 m)) f,
        allow,
      )
]

back_at :
    (before : List Rule) (r : Rule) (after : List Rule) (src : Addr) (proto port : ℕ)
    → All (λ q. ¬ Matches q src proto port) before
    → Matches r src proto port
    → allows (before ++ r ∷ after) src proto port ≡ r.allow
back_at [] r after src proto port passed hit =
    let m = (matches_iff r src proto port).1 hit in
    ground (arith, allows_cons r after src proto port)
back_at (q ∷ before) r after src proto port passed hit =
    elim (Bool-cases (matches q src proto port)) [
      | inl m ↦ absurd (passed.0 ((matches_iff q src proto port).0 m))
      | inr m ↦
          rw (allows_cons q (before ++ r ∷ after) src proto port, m)
            (back_at before r after src proto port passed.1 hit)
    ]

back :
    (rules : List Rule) (src : Addr) (proto port : ℕ)
    → (r : Rule) × FirstMatch rules src proto port r × (r.allow ≡ true)
    → allows rules src proto port ≡ true
back rules src proto port (r, f, allow) =
    rw f.splits (back_at f.before r f.after src proto port f.passed f.hit) ∙ allow

-- A packet is allowed exactly when some rule matches it and the first that does is an allow rule.
pub allows-FirstMatch :
    (rules : List Rule) (src : Addr) (proto port : ℕ)
    → (allows rules src proto port ≡ true)
      ↔ ((r : Rule) × FirstMatch rules src proto port r × (r.allow ≡ true))
allows-FirstMatch rules src proto port = (first rules src proto port, back rules src proto port)
