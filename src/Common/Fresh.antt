-- ===== src/Common/Fresh.antt =====
-- The pigeonhole principle for a search through numbered candidates: among one more candidate than a
-- list is long, all of them different, one is not in the list.
use Prim.Native.Nat.{ℕ, zero, suc, ◌+◌, ◌≤◌, ◌<◌}
use mathlib.Core.Path.{◌≡◌, refl}
use mathlib.Core.Logic.{◌≢◌, inl, inr}
use mathlib.Core.Bool.{true, false}
use mathlib.Core.List.{List, [], ◌∷◌}
use native.Mathlib.Omega.{arith}
use over_mesh.Common.Tests.{Comparable, Bool-cases}
use over_mesh.Common.Lists.{length, length-nil}
use over_mesh.Common.Maps.{contains, remove, contains-remove}

module _ {ℓ} {A : Type ℓ} ⦃e : Comparable A⦄ where
  length-remove-le : (xs : List A) (a : A) → length (remove xs a) ≤ length xs
  length-remove-le [] a = omega arith
  length-remove-le (x ∷ xs) a = ground (arith, length-remove-le xs a)

  length-remove : (xs : List A) (a : A) → contains xs a ≡ true → length (remove xs a) < length xs
  length-remove [] a h = cc
  length-remove (x ∷ xs) a h = ground (arith, length-remove xs a, length-remove-le xs a)

  pub fresh_candidate :
      (candidate : ℕ → A)
      → ((i j : ℕ) → i < j → candidate i ≢ candidate j)
      → (n i : ℕ) (xs : List A) → length xs ≤ n
      → (j : ℕ) × (i ≤ j) × (j ≤ i + n) × (contains xs (candidate j) ≡ false)
  fresh_candidate candidate differ zero i xs h =
      (i, omega arith, omega arith, rw (length-nil xs (omega (arith, h))) refl)
  fresh_candidate candidate differ (suc n) i xs h = elim (Bool-cases (contains xs (candidate i))) [
    | inr free ↦ (i, omega arith, omega arith, free)
    | inl taken ↦
        let shorter = length-remove xs (candidate i) taken in
        let (j, lo, hi, free) =
          fresh_candidate candidate differ n (i + 1) (remove xs (candidate i))
            (omega (arith, shorter, h)) in
        (
          j,
          omega (arith, lo),
          omega (arith, hi),
          ground (
            arith,
            contains-remove xs (candidate i) (candidate j),
            e.same_iff (candidate i) (candidate j),
            differ i j (omega (arith, lo)),
            free,
          ),
        )
  ]
