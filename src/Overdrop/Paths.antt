-- ===== src/Overdrop/Paths.antt =====
-- `dedupePath` ends, with a path that no file has.
use over_mesh.Common.{
  ℕ, zero, suc, ◌+◌, ◌-◌, ◌≤◌, ◌<◌, ◌≡◌, ◌≢◌, refl, ap, subst, ◌∙◌, true, false, List, [], ◌∷◌,
  ◌++◌, some, length, take, drop, length-append, drop-append_length, take-append_length, contains,
  bytes_eq, bytes_beq, decimal, value_onto, value_onto-decimal, fresh_candidate, arith, Bool-cases,
  inl, inr,
}
use over_mesh.Overdrop.{Files, variant, stem, ext, exists_at, variant_loop, dedupe_path, final_path}

-- The number in a variant of the name.
number_in : List ℕ → List ℕ → List ℕ → ℕ
number_in dir name path =
    let rest = drop 2 (drop (length (stem name)) (drop 1 (drop (length dir) path))) in
    value_onto 0 (take (length rest - length (b')' ∷ ext name)) rest)

take-before : (xs ys : List ℕ) → take (length (xs ++ ys) - length ys) (xs ++ ys) ≡ xs
take-before xs ys =
    let e : length (xs ++ ys) - length ys ≡ length xs = omega (arith, length-append xs ys) in
    rw e (take-append_length xs ys)

number_in-variant : (dir name : List ℕ) (i : ℕ) → number_in dir name (variant dir name i) ≡ i
unfolding number_in
number_in-variant dir name i =
    let close = b')' ∷ ext name in
    let inner = stem name ++ (b' ' ∷ b'(' ∷ (decimal i ++ close)) in
    let number = λ (rest : List ℕ). value_onto 0 (take (length rest - length close) rest) in
    ap (λ (x : List ℕ). number (drop 2 (drop (length (stem name)) (drop 1 x))))
      (drop-append_length dir (b'/' ∷ inner))
    ∙ ap (λ (x : List ℕ). number (drop 2 x))
        (drop-append_length (stem name) (b' ' ∷ b'(' ∷ (decimal i ++ close)))
    ∙ ap (value_onto 0) (take-before (decimal i) close)
    ∙ value_onto-decimal i

variants_differ :
    (dir name : List ℕ) (i j : ℕ) → i < j → variant dir name (i + 2) ≢ variant dir name (j + 2)
variants_differ dir name i j h e = omega (
  arith,
  number_in-variant dir name (i + 2),
  number_in-variant dir name (j + 2),
  ap (number_in dir name) e,
  h,
)

paths_of : Files → List (List ℕ)
paths_of [] = []
paths_of ((p, bytes) ∷ files) = p ∷ paths_of files

length-paths_of : (files : Files) → length (paths_of files) ≡ length files
unfolding paths_of
length-paths_of [] = refl
length-paths_of ((p, bytes) ∷ files) = ap suc (length-paths_of files)

exists_at-paths_of :
    (path : List ℕ) (files : Files) → exists_at path files ≡ contains (paths_of files) path
unfolding paths_of
exists_at-paths_of path [] = refl
exists_at-paths_of path ((p, bytes) ∷ files) = elim (Bool-cases (bytes_beq p path)) [
  | inl here ↦ rw (exists_at, here) refl
  | inr away ↦ rw (exists_at, away) (exists_at-paths_of path files)
]

variant_loop-finds :
    (fuel : ℕ) (dir name : List ℕ) (i j : ℕ) (files : Files)
    → i ≤ j
    → j < i + fuel
    → exists_at (variant dir name j) files ≡ false
    → (path : List ℕ) × (variant_loop fuel dir name i files ≡ some path)
      × (exists_at path files ≡ false)
variant_loop-finds zero dir name i j files lo hi free = absurd (omega arith)
variant_loop-finds (suc fuel) dir name i j files lo hi free =
    elim (Bool-cases (exists_at (variant dir name i) files)) [
      | inr here ↦ (variant dir name i, rw here refl, here)
      | inl taken ↦
          let later : i + 1 ≤ j = past i j files lo taken free in
          let (path, found, open_path) =
            variant_loop-finds fuel dir name (i + 1) j files later (omega (arith, hi)) free in
          (path, rw taken found, open_path)
    ]
  where
    past :
        (k l : ℕ) (fs : Files)
        → k ≤ l
        → exists_at (variant dir name k) fs ≡ true
        → exists_at (variant dir name l) fs ≡ false
        → k + 1 ≤ l
    past k l fs le taken' free' =
        let apart : k ≢ l = λ e.
          let both = subst (λ (x : ℕ). exists_at (variant dir name x) fs ≡ true) e taken' in cc in
        ground (arith, le, apart)

-- The search for a free path ends within one turn more than there are files, and no file is lost by
-- using the path that it returns, since none has it.
pub dedupe_path-free :
    (dir name : List ℕ) (files : Files)
    → (path : List ℕ) × (dedupe_path dir name files ≡ some path) × (exists_at path files ≡ false)
unfolding dedupe_path
dedupe_path-free dir name files = elim (Bool-cases (exists_at (final_path dir name) files)) [
  | inr free ↦ (final_path dir name, rw free refl, free)
  | inl taken ↦
      let (j, lo, hi, free) =
        fresh_candidate (λ k. variant dir name (k + 2)) (variants_differ dir name) (length files) 0
          (paths_of files) (omega (arith, length-paths_of files)) in
      let (path, found, open_path) =
        variant_loop-finds (suc (length files)) dir name 2 (j + 2) files (omega arith)
          (omega (arith, hi)) (exists_at-paths_of (variant dir name (j + 2)) files ∙ free) in
      (path, rw taken found, open_path)
]
