-- ===== src/Overdrop/Digits.antt =====
-- Numbers in a query.
use over_mesh.Common.{
  ℕ, zero, suc, ◌+◌, ◌-◌, ◌*◌, ◌/◌, ◌%◌, ◌^◌, ◌<◌, ◌≤◌, ◌≡◌, refl, ap, ◌∙◌, Bool, true, false, List,
  [], ◌∷◌, ◌++◌, some, ltb, leb, nat_beq, nat_eq, bytes_eq, if◌then◌else◌, contains, decimal,
  digits, value_onto, value_onto-decimal, digits_onto, All, All-append, arith, Bool-cases, inl, inr,
}
use over_mesh.Overdrop.{parse_int, non_negative, before, query_unescape}
use over_mesh.Overdrop.Escape.{plain}

-- A digit.
abbrev pub IsDigit : ℕ → Type 0
IsDigit c = (b'0' ≤ c) × (c ≤ b'9')

digits-IsDigit : (fuel n : ℕ) → All IsDigit (digits fuel n)
digits-IsDigit zero n = tt
digits-IsDigit (suc fuel) n = elim (Bool-cases (ltb n 10)) [
  | inl small ↦ rw small ((omega arith, ground (arith, small)), tt)
  | inr big ↦ rw big (
      All-append IsDigit (digits fuel (n / 10)) ((b'0' + n % 10) ∷ [])
        (digits-IsDigit fuel (n / 10)) ((omega arith, omega arith), tt))
]

pub decimal-IsDigit : (n : ℕ) → All IsDigit (decimal n)
unfolding decimal
decimal-IsDigit n = digits-IsDigit (suc n) n

pub query_unescape-digits : (ds : List ℕ) → All IsDigit ds → query_unescape ds ≡ some ds
query_unescape-digits [] h = refl
query_unescape-digits (d ∷ ds) ((low, high), h) =
    plain d ds (ground arith) (ground arith) ∙ ap (before d) (query_unescape-digits ds h)

pub contains-digits : (ds : List ℕ) (c : ℕ) → All IsDigit ds → b'9' < c → contains ds c ≡ false
contains-digits [] c h up = refl
contains-digits (d ∷ ds) c (here, h) up = ground (arith, contains-digits ds c h up)

pub lacks-digits : (ds : List ℕ) (c : ℕ) → All IsDigit ds → c < b'0' → contains ds c ≡ false
lacks-digits [] c h low = refl
lacks-digits (d ∷ ds) c (here, h) low = ground (arith, lacks-digits ds c h low)

digits_onto-value :
    (ds : List ℕ) (n : ℕ) → All IsDigit ds → digits_onto n ds ≡ some (value_onto n ds)
digits_onto-value [] n h = refl
digits_onto-value (d ∷ ds) n (here, h) =
    let rest = digits_onto-value ds (n * 10 + (d - b'0')) h in
    let low : leb b'0' d ≡ true = ground arith in
    let high : leb d b'9' ≡ true = ground arith in rw (low, high, rest) refl

abbrev IsCons : List ℕ → Type 0
IsCons ds = (c : ℕ) × (cs : List ℕ) × (ds ≡ c ∷ cs)

append-IsCons : (xs : List ℕ) (y : ℕ) → IsCons (xs ++ y ∷ [])
append-IsCons [] y = (y, [], refl)
append-IsCons (x ∷ xs) y = (x, xs ++ y ∷ [], refl)

either_IsCons :
    (small : Bool) (x : ℕ) (xs : List ℕ) (y : ℕ) → IsCons (if small then x ∷ [] else xs ++ y ∷ [])
either_IsCons true x xs y = (x, [], refl)
either_IsCons false x xs y = append-IsCons xs y

decimal-IsCons : (n : ℕ) → IsCons (decimal n)
unfolding decimal
decimal-IsCons n = either_IsCons (ltb n 10) (b'0' + n) (digits n (n / 10)) (b'0' + n % 10)

parse_int-digits :
    (ds : List ℕ)
    → IsCons ds
    → All IsDigit ds
    → value_onto 0 ds < 2 ^ 63
    → non_negative (parse_int ds) ≡ some (value_onto 0 ds)
unfolding parse_int
parse_int-digits [] (c, cs, e) h fits = cc
parse_int-digits (d ∷ ds) nonempty h fits =
    let minus : nat_beq d b'-' ≡ false = ground (arith, h.0) in
    let plus : nat_beq d b'+' ≡ false = ground (arith, h.0) in
    let read = digits_onto-value (d ∷ ds) 0 h in
    let short : ltb (value_onto 0 (d ∷ ds)) (2 ^ 63) ≡ true = ground (arith, fits) in
    rw (minus, plus, read, short) refl

pub parse_int-decimal : (n : ℕ) → n < 2 ^ 63 → non_negative (parse_int (decimal n)) ≡ some n
parse_int-decimal n fits =
    let is = value_onto-decimal n in
    parse_int-digits (decimal n) (decimal-IsCons n) (decimal-IsDigit n) (rw is fits) ∙ ap some is
