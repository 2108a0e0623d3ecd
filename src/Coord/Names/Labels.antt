-- ===== src/Coord/Names/Labels.antt =====
-- `sanitizeHostname` gives DNS labels.
use over_mesh.Common.{
  ℕ, zero, suc, ◌≤◌, ◌≡◌, refl, Bool, true, false, List, [], ◌∷◌, ltb, nat_beq, if◌then◌else◌,
  length, take, length-take, All, ltb→lt, arith, Bool-cases, inl, inr, is_nil, to_lower, trim_space,
}
use over_mesh.Coord.Names.{
  is_name_char, replace_runs, trim_dashes_left, trim_dashes_right, trim_dashes, sanitize_hostname,
}

abbrev pub NameChars : List ℕ → Type 0
NameChars h = All (λ c. is_name_char c ≡ true) h

replace_runs-NameChars : (in_run : Bool) (h : List ℕ) → NameChars (replace_runs in_run h)
replace_runs-NameChars in_run [] = tt
replace_runs-NameChars in_run (c ∷ cs) = elim (Bool-cases (is_name_char c)) [
  | inl good ↦ rw good (good, replace_runs-NameChars false cs)
  | inr bad ↦ elim (Bool-cases in_run) [
    | inl inside ↦ rw (bad, inside) (replace_runs-NameChars true cs)
    | inr outside ↦ rw (bad, outside) (refl, replace_runs-NameChars true cs)
  ]
]

trim_dashes_left-NameChars : (h : List ℕ) → NameChars h → NameChars (trim_dashes_left h)
trim_dashes_left-NameChars [] good = tt
trim_dashes_left-NameChars (c ∷ cs) good = elim (Bool-cases (nat_beq c b'-')) [
  | inl dash ↦ rw dash (trim_dashes_left-NameChars cs good.1)
  | inr other ↦ rw other good
]

trim_dashes_right-NameChars : (h : List ℕ) → NameChars h → NameChars (trim_dashes_right h)
trim_dashes_right-NameChars [] good = tt
trim_dashes_right-NameChars (c ∷ cs) good = elim (Bool-cases (is_nil (trim_dashes_right cs))) [
  | inr more ↦ rw more (good.0, trim_dashes_right-NameChars cs good.1)
  | inl last ↦ elim (Bool-cases (nat_beq c b'-')) [
    | inl dash ↦ rw (last, dash) tt
    | inr other ↦ rw (last, other) (good.0, tt)
  ]
]

take-NameChars : (n : ℕ) (h : List ℕ) → NameChars h → NameChars (take n h)
take-NameChars zero h good = tt
take-NameChars (suc n) [] good = tt
take-NameChars (suc n) (c ∷ cs) good = (good.0, take-NameChars n cs good.1)

abbrev pub starts_with_dash : List ℕ → Bool
starts_with_dash [] = false
starts_with_dash (c ∷ cs) = nat_beq c b'-'

abbrev pub ends_with_dash : List ℕ → Bool
ends_with_dash [] = false
ends_with_dash (c ∷ cs) = if is_nil cs then nat_beq c b'-' else ends_with_dash cs

starts-left : (h : List ℕ) → starts_with_dash (trim_dashes_left h) ≡ false
starts-left [] = refl
starts-left (c ∷ cs) = elim (Bool-cases (nat_beq c b'-')) [
  | inl dash ↦ rw dash (starts-left cs)
  | inr other ↦ rw other other
]

starts-right :
    (h : List ℕ) → starts_with_dash h ≡ false → starts_with_dash (trim_dashes_right h) ≡ false
starts-right [] e = refl
starts-right (c ∷ cs) e = elim (Bool-cases (is_nil (trim_dashes_right cs))) [
  | inr more ↦ rw more e
  | inl last ↦ rw (last, e) e
]

ends-right : (h : List ℕ) → ends_with_dash (trim_dashes_right h) ≡ false
ends-right [] = refl
ends-right (c ∷ cs) = elim (Bool-cases (is_nil (trim_dashes_right cs))) [
  | inr more ↦ rw (more, more) (ends-right cs)
  | inl last ↦ elim (Bool-cases (nat_beq c b'-')) [
    | inl dash ↦ rw (last, dash) refl
    | inr other ↦ rw (last, other) other
  ]
]

starts-take :
    (n : ℕ) (h : List ℕ) → starts_with_dash h ≡ false → starts_with_dash (take n h) ≡ false
starts-take zero h e = refl
starts-take (suc n) [] e = refl
starts-take (suc n) (c ∷ cs) e = e

length-take_long : (h : List ℕ) → ltb 63 (length h) ≡ true → length (take 63 h) ≡ 63
length-take_long h long = omega (arith, length-take 63 h, ltb→lt 63 (length h) long)

-- A label of at most 63 letters, digits and dashes that does not start with a dash, and that ends in
-- a dash only if it has the greatest length.
pub record IsLabel (h : List ℕ) : Type 0 where
  pub chars : NameChars h
  pub short : length h ≤ 63
  pub first : starts_with_dash h ≡ false
  pub last : (ltb (length h) 63 ≡ true) → ends_with_dash h ≡ false

-- Whatever name a device asks for, the cleaned name has at most 63 characters, all of them lower-case
-- letters, digits or dashes, does not start with a dash, and does not end with one if it has fewer
-- than 63 characters.
pub sanitize_hostname-IsLabel : (h : List ℕ) → IsLabel (sanitize_hostname h)
unfolding sanitize_hostname
sanitize_hostname-IsLabel h =
    let r = replace_runs false (to_lower (trim_space h)) in
    let t = trim_dashes r in
    let good : NameChars t =
      trim_dashes_right-NameChars (trim_dashes_left r)
        (trim_dashes_left-NameChars r (replace_runs-NameChars false (to_lower (trim_space h)))) in
    let first : starts_with_dash t ≡ false = starts-right (trim_dashes_left r) (starts-left r) in
    elim (Bool-cases (ltb 63 (length t))) [
      | inl long ↦ rw long (record {
        chars = take-NameChars 63 t good;
        short = omega (arith, length-take 63 t);
        first = starts-take 63 t first;
        last = λ below.
            absurd (omega (arith, length-take_long t long, ltb→lt (length (take 63 t)) 63 below));
      })
      | inr fits ↦ rw fits (record {
        chars = good;
        short = ground (arith, fits);
        first = first;
        last = λ below. ends-right (trim_dashes_left r);
      })
    ]
