-- ===== src/Common/Tables.antt =====
-- SQL on a table as the list of its rows, in the order of their numbers.
use Prim.Native.Nat.{ℕ, ◌+◌, ◌<◌}
use mathlib.Core.Path.{◌≡◌, refl, ap, subst}
use mathlib.Core.Logic.{◌≢◌, inl, inr}
use mathlib.Core.Bool.{Bool, true, not}
use mathlib.Core.List.{List, [], ◌∷◌, ◌++◌}
use mathlib.Core.Option.{some}
use native.Mathlib.Omega.{arith}
use over_mesh.Common.Tests.{if◌then◌else◌, nat_beq, nat_beq_iff, Bool-cases}
use over_mesh.Common.Lists.{select, find, All, of_some}

abbrev pub flag : Bool → ℕ
flag b = if b then 1 else 0

module _ {ℓ} {A : Type ℓ} where
  -- `SELECT COUNT(*) … WHERE p`
  abbrev pub count : (A → Bool) → List A → ℕ
  count p [] = 0
  count p (r ∷ rows) = flag (p r) + count p rows

  -- `UPDATE … SET f WHERE p`
  abbrev pub update : (A → Bool) → (A → A) → List A → List A
  update p f [] = []
  update p f (r ∷ rows) = (if p r then f r else r) ∷ update p f rows

  pub count-append : (p : A → Bool) (xs ys : List A) → count p (xs ++ ys) ≡ count p xs + count p ys
  count-append p [] ys = omega arith
  count-append p (x ∷ xs) ys = omega (arith, count-append p xs ys)

-- Tables with a primary key.
module _ {ℓ} {A : Type ℓ} (key : A → ℕ) where
  abbrev pub has_key : ℕ → A → Bool
  has_key k r = nat_beq (key r) k

  abbrev pub NoKey : ℕ → List A → Type 0
  NoKey k [] = Unit
  NoKey k (r ∷ rows) = (key r ≢ k) × NoKey k rows

  -- No two rows have the same key.
  abbrev pub KeysDiffer : List A → Type 0
  KeysDiffer [] = Unit
  KeysDiffer (r ∷ rows) = NoKey (key r) rows × KeysDiffer rows

  count-update_none :
      (p : A → Bool) (k : ℕ) (f : A → A) (rows : List A)
      → NoKey k rows
      → count p (update (has_key k) f rows) ≡ count p rows
  count-update_none p k f [] h = refl
  count-update_none p k f (r ∷ rows) h = ground (arith, count-update_none p k f rows h.1)

  -- Changing the one row with the key changes a count by that row alone.
  pub count-update :
      (p : A → Bool) (k : ℕ) (f : A → A) (rows : List A) {t : A}
      → KeysDiffer rows
      → find (has_key k) rows ≡ some t
      → count p (update (has_key k) f rows) + flag (p t) ≡ count p rows + flag (p (f t))
  count-update p k f [] u e = cc
  count-update p k f (r ∷ rows) {t} u e = elim (Bool-cases (has_key k r)) [
    | inl here ↦
        ground (arith, here, count-update_none p (key r) f rows u.0, count-update_none p k f rows)
    | inr there ↦
        let e' : find (has_key k) rows ≡ some t = rw there at e in
        ground (arith, there, count-update p k f rows {t = t} u.1 e')
  ]

  pub NoKey-update :
      (j k : ℕ) (f : A → A) (rows : List A)
      → ((r : A) → key (f r) ≡ key r)
      → NoKey j rows
      → NoKey j (update (has_key k) f rows)
  NoKey-update j k f [] same h = tt
  NoKey-update j k f (r ∷ rows) same h =
      (ground (arith, same r, h.0), NoKey-update j k f rows same h.1)

  pub KeysDiffer-update :
      (k : ℕ) (f : A → A) (rows : List A)
      → ((r : A) → key (f r) ≡ key r)
      → KeysDiffer rows
      → KeysDiffer (update (has_key k) f rows)
  KeysDiffer-update k f [] same u = tt
  KeysDiffer-update k f (r ∷ rows) same u = elim (Bool-cases (has_key k r)) [
    | inl here ↦
        rw here
          (rw same (NoKey-update (key r) k f rows same u.0), KeysDiffer-update k f rows same u.1)
    | inr there ↦
        rw there (NoKey-update (key r) k f rows same u.0, KeysDiffer-update k f rows same u.1)
  ]

  pub find-update :
      (k : ℕ) (f : A → A) (rows : List A) {t : A}
      → ((r : A) → key (f r) ≡ key r)
      → find (has_key k) rows ≡ some t
      → find (has_key k) (update (has_key k) f rows) ≡ some (f t)
  find-update k f [] same e = cc
  find-update k f (r ∷ rows) {t} same e = elim (Bool-cases (has_key k r)) [
    | inl here ↦ ground (arith, here, same r)
    | inr there ↦
        let e' : find (has_key k) rows ≡ some t = rw there at e in
        rw (there, there) (find-update k f rows {t = t} same e')
  ]

  count-delete_none :
      (p : A → Bool) (k : ℕ) (rows : List A)
      → NoKey k rows
      → count p (select (λ r. not (has_key k r)) rows) ≡ count p rows
  count-delete_none p k [] h = refl
  count-delete_none p k (r ∷ rows) h = ground (arith, count-delete_none p k rows h.1)

  -- Deleting the one row with the key takes that row alone out of a count.
  pub count-delete :
      (p : A → Bool) (k : ℕ) (rows : List A) {t : A}
      → KeysDiffer rows
      → find (has_key k) rows ≡ some t
      → count p (select (λ r. not (has_key k r)) rows) + flag (p t) ≡ count p rows
  count-delete p k [] u e = cc
  count-delete p k (r ∷ rows) {t} u e = elim (Bool-cases (has_key k r)) [
    | inl here ↦
        ground (arith, here, count-delete_none p (key r) rows u.0, count-delete_none p k rows)
    | inr there ↦
        let e' : find (has_key k) rows ≡ some t = rw there at e in
        rw there (ground (arith, count-delete p k rows {t = t} u.1 e'))
  ]

  NoKey-append :
      (k : ℕ) (rows : List A) (r : A) → NoKey k rows → key r ≢ k → NoKey k (rows ++ r ∷ [])
  NoKey-append k [] r h ne = (ne, tt)
  NoKey-append k (q ∷ rows) r h ne = (h.0, NoKey-append k rows r h.1 ne)

  -- A row whose key is above all the others' can be added at the end.
  pub KeysDiffer-append :
      (rows : List A) (r : A)
      → KeysDiffer rows
      → All (λ q. key q < key r) rows
      → KeysDiffer (rows ++ r ∷ [])
  KeysDiffer-append [] r u low = (tt, tt)
  KeysDiffer-append (q ∷ rows) r u low = (
    NoKey-append (key q) rows r u.0 (λ e. omega (arith, low.0)),
    KeysDiffer-append rows r u.1 low.1,
  )

  NoKey-select : (j : ℕ) (p : A → Bool) (rows : List A) → NoKey j rows → NoKey j (select p rows)
  NoKey-select j p [] h = tt
  NoKey-select j p (r ∷ rows) h = elim (Bool-cases (p r)) [
    | inl e ↦ rw e (h.0, NoKey-select j p rows h.1)
    | inr e ↦ rw e (NoKey-select j p rows h.1)
  ]

  pub KeysDiffer-select :
      (p : A → Bool) (rows : List A) → KeysDiffer rows → KeysDiffer (select p rows)
  KeysDiffer-select p [] u = tt
  KeysDiffer-select p (r ∷ rows) u = elim (Bool-cases (p r)) [
    | inl e ↦ rw e (NoKey-select (key r) p rows u.0, KeysDiffer-select p rows u.1)
    | inr e ↦ rw e (KeysDiffer-select p rows u.1)
  ]

  pub below-update :
      (n k : ℕ) (f : A → A) (rows : List A)
      → ((r : A) → key (f r) ≡ key r)
      → All (λ r. key r < n) rows
      → All (λ r. key r < n) (update (has_key k) f rows)
  below-update n k f [] same h = tt
  below-update n k f (r ∷ rows) same h = elim (Bool-cases (has_key k r)) [
    | inl e ↦ rw e (rw same h.0, below-update n k f rows same h.1)
    | inr e ↦ rw e (h.0, below-update n k f rows same h.1)
  ]

  pub below-select :
      (n : ℕ) (p : A → Bool) (rows : List A)
      → All (λ r. key r < n) rows
      → All (λ r. key r < n) (select p rows)
  below-select n p [] h = tt
  below-select n p (r ∷ rows) h = elim (Bool-cases (p r)) [
    | inl e ↦ rw e (h.0, below-select n p rows h.1)
    | inr e ↦ rw e (below-select n p rows h.1)
  ]

  pub below-append :
      (n : ℕ) (rows : List A) (r : A)
      → All (λ q. key q < n) rows
      → key r ≡ n
      → All (λ q. key q < n + 1) (rows ++ r ∷ [])
  below-append n [] r h e = (omega arith, tt)
  below-append n (q ∷ rows) r h e = (omega (arith, h.0), below-append n rows r h.1 e)

  pub find-key : (k : ℕ) (rows : List A) {t : A} → find (has_key k) rows ≡ some t → key t ≡ k
  find-key k [] e = cc
  find-key k (r ∷ rows) {t} e = elim (Bool-cases (has_key k r)) [
    | inl here ↦
        let same : some r ≡ some t = rw here at e in
        subst (λ (x : A). key x ≡ k) (of_some same) ((nat_beq_iff (key r) k).0 here)
    | inr there ↦ find-key k rows {t = t} (rw there at e)
  ]

  -- The row that another test finds, after an update of that row which keeps the test.
  pub find-update_found :
      (p : A → Bool) (f : A → A) (rows : List A) {t : A}
      → ((r : A) → p (f r) ≡ p r)
      → find p rows ≡ some t
      → find p (update (has_key (key t)) f rows) ≡ some (f t)
  find-update_found p f [] keeps e = cc
  find-update_found p f (r ∷ rows) {t} keeps e = elim (Bool-cases (p r)) [
    | inl here ↦
        let same : some r ≡ some t = rw here at e in
        let k : has_key (key t) r ≡ true =
          (nat_beq_iff (key r) (key t)).1 (ap key (of_some same)) in
        rw (k, keeps, here) (ap (λ (x : A). some (f x)) (of_some same))
    | inr there ↦
        let e' : find p rows ≡ some t = rw there at e in
        let rest = find-update_found p f rows {t = t} keeps e' in
        elim (Bool-cases (has_key (key t) r)) [
          | inl k ↦ rw (k, keeps, there) rest
          | inr k ↦ rw (k, there) rest
        ]
  ]

  -- The row of another key stays.
  pub find-update_other :
      (i j : ℕ) (f : A → A) (rows : List A) {t : A}
      → i ≢ j
      → ((r : A) → key (f r) ≡ key r)
      → find (has_key j) rows ≡ some t
      → find (has_key j) (update (has_key i) f rows) ≡ some t
  find-update_other i j f [] ne same e = cc
  find-update_other i j f (r ∷ rows) {t} ne same e =
      ground (arith, same r, find-update_other i j f rows {t = t} ne same)
