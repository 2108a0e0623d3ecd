-- ===== src/Coord/Names/Dedupe.antt =====
-- `dedupeHostname` ends, with a name that is free.
use over_mesh.Common.{
  ℕ, zero, suc, ◌+◌, ◌≤◌, ◌<◌, ◌≡◌, ◌≢◌, refl, ap, subst, ◌∙◌, true, false, ◌&&◌, List, [], ◌∷◌,
  some, ltb, nat_beq, bytes_beq, bytes_eq, if◌then◌else◌, length, drop, drop-append_length,
  length-append, count, contains, arith, Bool-cases, inl, inr, decimal, value_onto,
  value_onto-decimal, fresh_candidate, of_some,
}
use over_mesh.Store.Nodes.{Node, Nodes, hostname_taken}
use over_mesh.Coord.Names.{numbered, dedupe_loop, dedupe_hostname}

-- The names that the loop tries: the base, then the base with 2, 3 and so on.
abbrev pub candidate : List ℕ → ℕ → List ℕ
candidate base zero = base
candidate base (suc k) = numbered base (k + 2)

-- What is behind the base and the dash, read as a number.
suffix : List ℕ → List ℕ → ℕ
suffix base name = value_onto 0 (drop 1 (drop (length base) name))

drop-length : (xs : List ℕ) → drop (length xs) xs ≡ []
drop-length [] = refl
drop-length (x ∷ xs) = drop-length xs

suffix-base : (base : List ℕ) → suffix base base ≡ 0
unfolding suffix
suffix-base base = rw (drop-length base) refl

suffix-numbered : (base : List ℕ) (i : ℕ) → suffix base (numbered base i) ≡ i
unfolding suffix
suffix-numbered base i = rw (drop-append_length base (b'-' ∷ decimal i)) (value_onto-decimal i)

candidates_differ : (base : List ℕ) (i j : ℕ) → i < j → candidate base i ≢ candidate base j
candidates_differ base zero zero h e = omega arith
candidates_differ base (suc i) zero h e = omega arith
candidates_differ base zero (suc j) h e =
    omega (arith, suffix-base base, suffix-numbered base (j + 2), ap (suffix base) e)
candidates_differ base (suc i) (suc j) h e =
    omega (arith, suffix-numbered base (i + 2), suffix-numbered base (j + 2), ap (suffix base) e, h)

-- The names of a network's devices.
abbrev pub names_in : ℕ → List Node → List (List ℕ)
names_in network [] = []
names_in network (n ∷ rows) =
    let rest = names_in network rows in
    if nat_beq n.network_id network then n.hostname ∷ rest else rest

length-names_in : (network : ℕ) (rows : List Node) → length (names_in network rows) ≤ length rows
length-names_in network [] = omega arith
length-names_in network (n ∷ rows) = ground (arith, length-names_in network rows)

taken_rows :
    (network : ℕ) (name : List ℕ) (rows : List Node)
    → ltb 0 (count (λ n. nat_beq n.network_id network && bytes_beq n.hostname name) rows)
      ≡ contains (names_in network rows) name
taken_rows network name [] = refl
taken_rows network name (n ∷ rows) = ground (arith, taken_rows network name rows)

dedupe_loop-finds :
    (fuel network : ℕ) (base : List ℕ) (k j i : ℕ) (name : List ℕ) (t : Nodes)
    → i ≡ k + 2
    → name ≡ candidate base k
    → k ≤ j
    → j < k + fuel
    → hostname_taken network (candidate base j) t ≡ false
    → (free : List ℕ) × (dedupe_loop fuel network base i name t ≡ some free)
      × (hostname_taken network free t ≡ false)
dedupe_loop-finds zero network base k j i name t ei en lo hi free = absurd (omega arith)
dedupe_loop-finds (suc fuel) network base k j i name t ei en lo hi free =
    elim (Bool-cases (hostname_taken network name t)) [
      | inr here ↦ (name, rw here refl, here)
      | inl taken ↦
          let same : hostname_taken network (candidate base k) t ≡ true = rw (← en) taken in
          let later : k + 1 ≤ j = ground (arith, same, free, lo) in
          let (found, is, ok) =
            dedupe_loop-finds fuel network base (suc k) j (i + 1) (numbered base i) t
              (omega (arith, ei)) (ap (numbered base) ei) (omega (arith, later)) (omega (arith, hi))
              free in
          (found, rw taken is, ok)
    ]

dedupe_loop-longer :
    (fuel network : ℕ) (base : List ℕ) (i : ℕ) (name : List ℕ) (t : Nodes) {found : List ℕ}
    → length base < length name
    → dedupe_loop fuel network base i name t ≡ some found
    → length base < length found
dedupe_loop-longer zero network base i name t h e = cc
dedupe_loop-longer (suc fuel) network base i name t {found} h e =
    elim (Bool-cases (hostname_taken network name t)) [
      | inr here ↦
          let same : some name ≡ some found = rw here at e in
          subst (λ (x : List ℕ). length base < length x) (of_some same) h
      | inl taken ↦
          dedupe_loop-longer fuel network base (i + 1) (numbered base i) t {found = found}
            (omega (arith, length-append base (b'-' ∷ decimal i))) (rw taken at e)
    ]

-- The search for a free name ends within one turn more than there are devices, with a name that no
-- device of the network has.
pub dedupe_hostname-free :
    (network : ℕ) (base : List ℕ) (t : Nodes)
    → (name : List ℕ) × (dedupe_hostname network base t ≡ some name)
      × (hostname_taken network name t ≡ false)
unfolding dedupe_hostname
dedupe_hostname-free network base t =
    let (j, lo, hi, free) =
      fresh_candidate (candidate base) (candidates_differ base) (length t.rows) 0
        (names_in network t.rows) (length-names_in network t.rows) in
    dedupe_loop-finds (suc (length t.rows)) network base 0 j 2 base t refl refl lo
      (omega (arith, hi)) (taken_rows network (candidate base j) t.rows ∙ free)

-- When a name of 63 characters is taken, the device gets a longer one.
pub dedupe_hostname_overlong :
    (network : ℕ) (base : List ℕ) (t : Nodes) {name : List ℕ}
    → length base ≡ 63
    → hostname_taken network base t ≡ true
    → dedupe_hostname network base t ≡ some name
    → 63 < length name
unfolding dedupe_hostname
dedupe_hostname_overlong network base t {name} long taken e = omega (
  arith,
  long,
  dedupe_loop-longer (length t.rows) network base 3 (numbered base 2) t {found = name}
      (omega (arith, length-append base (b'-' ∷ decimal 2))) (rw taken at e),
)
