-- ===== src/Overdrop/Races.antt =====
-- Two transfers that end at the same time.
use over_mesh.Common.{
  ℕ, ◌≡◌, refl, sym, ◌∙◌, false, List, none, some, if◌then◌else◌, lookup, delete, lookup-delete,
  bytes_eq, bytes_beq, bytes_beq_iff, beq_refl, arith, Bool-cases, inl, inr, of_some, subst,
}
use over_mesh.Overdrop.{Files, Inbox, Transfer, part_of, exists_at, finish, dedupe_path}
use over_mesh.Overdrop.Paths.{dedupe_path-free}
use over_mesh.Overdrop.Transfers.{absent}

not_there :
    (path dst x : List ℕ) (files : Files) {bytes : List ℕ}
    → exists_at dst files ≡ false
    → lookup path files ≡ some bytes
    → bytes_beq dst path ≡ false
not_there path dst x files {bytes} free here = elim (Bool-cases (bytes_beq dst path)) [
  | inr other ↦ other
  | inl same ↦
      let gone : lookup path files ≡ none =
        subst (λ (p : List ℕ). lookup p files ≡ none) ((bytes_beq_iff dst path).0 same)
          (absent dst files free) in
      cc
]

lookup-both :
    (a b p : List ℕ) (files : Files)
    → lookup p (delete b (delete a files))
      ≡ (if bytes_beq a p then none else if bytes_beq b p then none else lookup p files)
lookup-both a b p files =
    rw (lookup-delete b p (delete a files), lookup-delete a p files)
      (elim (Bool-cases (bytes_beq a p)) [
        | inl same ↦ rw same (ground arith)
        | inr other ↦ rw other refl
      ])

-- Two transfers of one name and different sizes that both look for a path before either of them renames
-- its file choose the same path; after both renames that path has the second file, and at every other
-- path there is what was there before, except that nothing is staged. The first file is lost.
pub finish_replaces :
    (t u : Transfer) (dst x y p : List ℕ) (s : Inbox)
    → t.dir ≡ u.dir
    → t.name ≡ u.name
    → dedupe_path t.dir t.name s.files ≡ some dst
    → bytes_beq (part_of t) (part_of u) ≡ false
    → lookup (part_of t) s.files ≡ some x
    → lookup (part_of u) s.files ≡ some y
    → (dedupe_path u.dir u.name s.files ≡ some dst)
      × (lookup dst (finish u dst (finish t dst s).1).1.files ≡ some y)
      × (lookup p (finish u dst (finish t dst s).1).1.files ≡ (
          if bytes_beq dst p
          then some y
          else if bytes_beq (part_of t) p
          then none
          else if bytes_beq (part_of u) p
          then none
          else lookup p s.files))
unfolding finish
finish_replaces t u dst x y p s dirs names found apart staged staged' =
    let (dst', found', free') = dedupe_path-free t.dir t.name s.files in
    let one : some dst' ≡ some dst = sym found' ∙ found in
    let free : exists_at dst s.files ≡ false =
      subst (λ (p : List ℕ). exists_at p s.files ≡ false) (of_some one) free' in
    let off = not_there (part_of t) dst x s.files free staged in
    let off' = not_there (part_of u) dst y s.files free staged' in
    let kept : lookup (part_of u) (delete (part_of t) s.files) ≡ some y =
      rw (lookup-delete (part_of t) (part_of u) s.files, apart) staged' in
    (
      rw (← dirs, ← names) found,
      rw (off', kept, beq_refl dst) refl,
      elim (Bool-cases (bytes_beq dst p)) [
        | inl same ↦ rw (off', kept, same) refl
        | inr other ↦ rw (off', other) (lookup-both (part_of t) (part_of u) p s.files)
      ],
    )
