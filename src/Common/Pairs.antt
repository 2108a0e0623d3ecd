-- ===== src/Common/Pairs.antt =====
-- A symmetric relation between any two elements of a list, and how tables keep it.
use mathlib.Core.Path.{◌≡◌, subst}
use mathlib.Core.Logic.{◌⊎◌, inl, inr}
use mathlib.Core.Bool.{Bool, true}
use mathlib.Core.List.{List, [], ◌∷◌, ◌++◌}
use mathlib.Core.Option.{some}
use over_mesh.Common.Tests.{if◌then◌else◌, Bool-cases}
use over_mesh.Common.Lists.{All, All-find, find, select, of_some}
use over_mesh.Common.Tables.{update}

module _ {ℓ κ μ} {A : Type ℓ} (P : A → Type κ) (Q : A → Type μ) where
  -- What follows from a property of each element is one, too.
  pub All-imp : (xs : List A) → ((x : A) → P x → Q x) → All P xs → All Q xs
  All-imp [] imp h = tt
  All-imp (x ∷ xs) imp h = (imp x h.0, All-imp xs imp h.1)

  pub All-both : (xs : List A) → All P xs → All Q xs → All (λ x. P x × Q x) xs
  All-both [] h k = tt
  All-both (x ∷ xs) h k = ((h.0, k.0), All-both xs h.1 k.1)

  pub All-update :
      (p : A → Bool) (f : A → A) (xs : List A)
      → ((x : A) → P x → Q (if p x then f x else x))
      → All P xs
      → All Q (update p f xs)
  All-update p f [] keeps h = tt
  All-update p f (x ∷ xs) keeps h = (keeps x h.0, All-update p f xs keeps h.1)

  -- What the test adds to a property, of the elements that it selects.
  pub All-select :
      (p : A → Bool) (xs : List A)
      → ((x : A) → p x ≡ true → P x → Q x)
      → All P xs
      → All Q (select p xs)
  All-select p [] imp h = tt
  All-select p (x ∷ xs) imp h = elim (Bool-cases (p x)) [
    | inl e ↦ rw e (imp x e h.0, All-select p xs imp h.1)
    | inr e ↦ rw e (All-select p xs imp h.1)
  ]

module _ {ℓ κ} {A : Type ℓ} (R : A → A → Type κ) where
  abbrev pub Pairwise : List A → Type κ
  Pairwise [] = Unit
  Pairwise (x ∷ xs) = All (R x) xs × Pairwise xs

  pub Pairwise-append :
      (xs : List A) (y : A) → Pairwise xs → All (λ x. R x y) xs → Pairwise (xs ++ y ∷ [])
  Pairwise-append [] y h k = (tt, tt)
  Pairwise-append (x ∷ xs) y h k = (All-snoc xs h.0 k.0, Pairwise-append xs y h.1 k.1)
    where
      All-snoc : (ys : List A) → All (R x) ys → R x y → All (R x) (ys ++ y ∷ [])
      All-snoc [] g r = (r, tt)
      All-snoc (z ∷ ys) g r = (g.0, All-snoc ys g.1 r)

  pub Pairwise-select : (p : A → Bool) (xs : List A) → Pairwise xs → Pairwise (select p xs)
  Pairwise-select p [] h = tt
  Pairwise-select p (x ∷ xs) h = elim (Bool-cases (p x)) [
    | inl e ↦ rw e (All-select (R x) (R x) p xs (λ y _ r. r) h.0, Pairwise-select p xs h.1)
    | inr e ↦ rw e (Pairwise-select p xs h.1)
  ]

  pub Pairwise-update {μ} :
      (Q : A → Type μ) (p : A → Bool) (f : A → A) (xs : List A)
      → ((x y : A) → Q x → Q y → R x y → R (if p x then f x else x) (if p y then f y else y))
      → All Q xs
      → Pairwise xs
      → Pairwise (update p f xs)
  Pairwise-update Q p f [] keeps q h = tt
  Pairwise-update Q p f (x ∷ xs) keeps q h = (
    All-update (λ y. Q y × R x y) (R (if p x then f x else x)) p f xs (λ y g. keeps x y q.0 g.0 g.1)
        (All-both Q (R x) xs q.1 h.0),
    Pairwise-update Q p f xs keeps q.1 h.1,
  )

  -- Every element is the one that was found or is related to it.
  pub Pairwise-find :
      (p : A → Bool) (xs : List A) {n : A}
      → ((x y : A) → R x y → R y x)
      → Pairwise xs
      → find p xs ≡ some n
      → All (λ x. (x ≡ n) ⊎ R x n) xs
  Pairwise-find p [] back h e = tt
  Pairwise-find p (x ∷ xs) {n} back h e = elim (Bool-cases (p x)) [
    | inl here ↦
        let same : some x ≡ some n = rw here at e in
        (
          inl (of_some same),
          All-imp (R x) (λ y. (y ≡ n) ⊎ R y n) xs
              (λ y r. inr (subst (R y) (of_some same) (back x y r))) h.0,
        )
    | inr there ↦
        let found : find p xs ≡ some n = rw there at e in
        (inr (All-find (R x) p xs {x = n} h.0 found), Pairwise-find p xs {n = n} back h.1 found)
  ]
