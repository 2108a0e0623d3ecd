-- ===== src/Overdrop/Transfers.antt =====
-- A file that is sent arrives whole, after any number of attempts that broke off, and the other files
-- stay.
use over_mesh.Common.{
  ℕ, ◌+◌, ◌≡◌, refl, subst, ◌∙◌, Bool, true, false, List, Option, none, some, length, ltb, nat_beq,
  lookup, lookup-delete, contains, bytes_eq, bytes_beq, bytes_beq_iff, beq_refl, Bool-cases,
  Option-cases, inl, inr,
}
use over_mesh.Overdrop.{
  Files, Inbox, Transfer, Reply, part_of, contents, exists_at, create_part, begin_put, receive,
  finish, received, begun, handle_put,
}
use over_mesh.Overdrop.Paths.{dedupe_path-free}

pub absent :
    (path : List ℕ) (files : Files) → exists_at path files ≡ false → lookup path files ≡ none
absent path files e = elim (Option-cases (lookup path files)) [
  | inl none_there ↦ none_there
  | inr (x, here) ↦ let taken : true ≡ false = rw (exists_at, here) at e in cc
]

pub create_part-contents :
    (part : List ℕ) (files : Files)
    → contents (lookup part (create_part part files)) ≡ contents (lookup part files)
create_part-contents part files = elim (Bool-cases (exists_at part files)) [
  | inl there ↦ rw there refl
  | inr new ↦ rw (new, beq_refl part, absent part files new) refl
]

pub create_part-others :
    (part p : List ℕ) (files : Files)
    → bytes_beq part p ≡ false
    → lookup p (create_part part files) ≡ lookup p files
create_part-others part p files away = elim (Bool-cases (exists_at part files)) [
  | inl there ↦ rw there refl
  | inr new ↦ rw (new, away) refl
]

begin_put-files :
    (t : Transfer) (s : Inbox) (p : List ℕ)
    → bytes_beq (part_of t) p ≡ false
    → lookup p (begin_put t s).1.files ≡ lookup p s.files
unfolding begin_put
begin_put-files t s p away =
    let others = create_part-others (part_of t) p s.files away in
    elim (Bool-cases (ltb t.size t.offset)) [
      | inl bad ↦ rw bad refl
      | inr good ↦ elim (Bool-cases (contains s.busy (part_of t))) [
        | inl busy ↦ rw (good, busy) refl
        | inr free ↦
            elim (Bool-cases (
              nat_beq (length (contents (lookup (part_of t) (create_part (part_of t) s.files))))
                t.offset)) [
                  | inl same ↦ rw (good, free, same) others
                  | inr other ↦ rw (good, free, other) others
                ]
      ]
    ]

receive-files :
    (t : Transfer) (body : List ℕ) (broken : Bool) (s : Inbox) (p : List ℕ)
    → bytes_beq (part_of t) p ≡ false
    → lookup p (receive t body broken s).1.files ≡ lookup p s.files
unfolding receive
receive-files t body broken s p away = elim (Bool-cases (ltb t.size (t.offset + length body))) [
  | inl over ↦ rw (over, lookup-delete (part_of t) p, away) refl
  | inr fits ↦ elim (Bool-cases broken) [
    | inl cut ↦ rw (fits, cut, away) refl
    | inr whole ↦ elim (Bool-cases (ltb (t.offset + length body) t.size)) [
      | inl short ↦ rw (fits, whole, short, away) refl
      | inr full ↦ rw (fits, whole, full, away) refl
    ]
  ]
]

-- The file that is moved replaces none.
finish-keeps :
    (t : Transfer) (dst : List ℕ) (s : Inbox) (p : List ℕ) {bytes : List ℕ}
    → bytes_beq (part_of t) p ≡ false
    → exists_at dst s.files ≡ false
    → lookup p s.files ≡ some bytes
    → lookup p (finish t dst s).1.files ≡ some bytes
unfolding finish
finish-keeps t dst s p {bytes} away free here = elim (Bool-cases (bytes_beq dst p)) [
  | inr other ↦ rw (other, lookup-delete (part_of t) p, away) here
  | inl same ↦
      let gone : lookup p s.files ≡ none =
        subst (λ (x : List ℕ). lookup x s.files ≡ none) ((bytes_beq_iff dst p).0 same)
          (absent dst s.files free) in
      cc
]

received-keeps :
    (t : Transfer) (r : Option Reply × Inbox) (p : List ℕ) {bytes : List ℕ}
    → bytes_beq (part_of t) p ≡ false
    → lookup p r.1.files ≡ some bytes
    → lookup p (received t r).1.files ≡ some bytes
received-keeps t (some reply, s) p away here = here
received-keeps t (none, s) p away here =
    let (dst, found, free) = dedupe_path-free t.dir t.name s.files in
    rw found (finish-keeps t dst s p away free here)

begun-keeps :
    (t : Transfer) (body : List ℕ) (broken : Bool) (r : Option Reply × Inbox) (p : List ℕ)
    {bytes : List ℕ}
    → bytes_beq (part_of t) p ≡ false
    → lookup p r.1.files ≡ some bytes
    → lookup p (begun t body broken r).1.files ≡ some bytes
begun-keeps t body broken (some reply, s) p away here = here
begun-keeps t body broken (none, s) p away here =
    received-keeps t (receive t body broken s) p away (receive-files t body broken s p away ∙ here)

-- Whatever is put, in however many bytes, and whether or not it breaks off, every file but the staged
-- one of that transfer is there afterwards with the contents that it had.
pub handle_put-keeps :
    (t : Transfer) (body : List ℕ) (broken : Bool) (s : Inbox) (p : List ℕ) {bytes : List ℕ}
    → bytes_beq (part_of t) p ≡ false
    → lookup p s.files ≡ some bytes
    → lookup p (handle_put t body broken s).1.files ≡ some bytes
unfolding handle_put
handle_put-keeps t body broken s p away here =
    begun-keeps t body broken (begin_put t s) p away (begin_put-files t s p away ∙ here)
