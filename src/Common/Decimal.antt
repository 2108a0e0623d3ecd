-- ===== src/Common/Decimal.antt =====
-- `strconv.Itoa` of a natural number: `%d` of Go's formats.
use native.Mathlib.Nat.{div-add-mod}
use Prim.Native.Nat.{ℕ, zero, suc, ◌+◌, ◌-◌, ◌*◌, ◌/◌, ◌%◌, ◌<◌}
use mathlib.Core.Path.{◌≡◌, refl}
use mathlib.Core.Logic.{inl, inr}
use mathlib.Core.List.{List, [], ◌∷◌, ◌++◌}
use native.Mathlib.Omega.{arith}
use over_mesh.Common.Tests.{ltb, if◌then◌else◌, Bool-cases}

abbrev pub digits : ℕ → ℕ → List ℕ
digits zero n = []
digits (suc fuel) n =
    let rest = digits fuel (n / 10) in
    if ltb n 10 then (b'0' + n) ∷ [] else rest ++ (b'0' + n % 10) ∷ []

-- A number has fewer digits than its successor's worth.
unfoldable pub decimal : ℕ → List ℕ
decimal n = digits (suc n) n

abbrev pub value_onto : ℕ → List ℕ → ℕ
value_onto n [] = n
value_onto n (c ∷ cs) = value_onto (n * 10 + (c - b'0')) cs

value_onto-append :
    (xs : List ℕ) (n d : ℕ) → value_onto n (xs ++ d ∷ []) ≡ value_onto n xs * 10 + (d - b'0')
value_onto-append [] n d = refl
value_onto-append (x ∷ xs) n d = value_onto-append xs (n * 10 + (x - b'0')) d

value_onto-digits : (fuel n : ℕ) → n < fuel → value_onto 0 (digits fuel n) ≡ n
value_onto-digits zero n h = absurd (omega arith)
value_onto-digits (suc fuel) n h = elim (Bool-cases (ltb n 10)) [
  | inl small ↦ rw small (omega arith)
  | inr big ↦
      let rest = value_onto-digits fuel (n / 10) (ground (arith, big, h)) in
      rw (big, value_onto-append, rest) (omega (arith, div-add-mod n 10))
]

-- The digits read back are the number.
pub value_onto-decimal : (n : ℕ) → value_onto 0 (decimal n) ≡ n
unfolding decimal
value_onto-decimal n = value_onto-digits (suc n) n (omega arith)
