-- ===== src/Overdrop/Escape.antt =====
-- The name in the query is read back as it was.
use over_mesh.Common.{
  ℕ, ◌+◌, ◌*◌, ◌≡◌, refl, ap, ◌∙◌, false, List, [], ◌∷◌, ◌++◌, Option, none, some, nat_beq,
  nat_beq_iff, contains, nat_eq, arith, Bool-cases, inl, inr,
}
use over_mesh.Overdrop.{escaped, url_escape, unescaped_pair, before, query_unescape}

pub plain :
    (c : ℕ) (cs : List ℕ)
    → nat_beq c b'%' ≡ false
    → nat_beq c b'+' ≡ false
    → query_unescape (c ∷ cs) ≡ before c (query_unescape cs)
plain c [] percent plus = rw (percent, plus) refl
plain c (d ∷ []) percent plus = rw (percent, plus) refl
plain c (d ∷ e ∷ cs) percent plus = rw (percent, plus) refl

coded : (h l : ℕ) (o : Option (List ℕ)) → unescaped_pair (some h) (some l) o ≡ before (h * 16 + l) o
coded h l none = refl
coded h l (some rest) = refl

escaped_one :
    (c : ℕ) (cs : List ℕ) → query_unescape (escaped c ++ cs) ≡ before c (query_unescape cs)
escaped_one c cs =
    let o = query_unescape cs in
    elim (Bool-cases (nat_beq c b'%')) [
      | inl e ↦ rw ((nat_beq_iff c b'%').0 e) (coded 2 5 o)
      | inr percent ↦ elim (Bool-cases (nat_beq c b'&')) [
        | inl e ↦ rw ((nat_beq_iff c b'&').0 e) (coded 2 6 o)
        | inr amp ↦ elim (Bool-cases (nat_beq c b'+')) [
          | inl e ↦ rw ((nat_beq_iff c b'+').0 e) (coded 2 11 o)
          | inr plus ↦ elim (Bool-cases (nat_beq c b'#')) [
            | inl e ↦ rw ((nat_beq_iff c b'#').0 e) (coded 2 3 o)
            | inr hash ↦ elim (Bool-cases (nat_beq c b'?')) [
              | inl e ↦ rw ((nat_beq_iff c b'?').0 e) (coded 3 15 o)
              | inr ask ↦ elim (Bool-cases (nat_beq c b' ')) [
                | inl e ↦ rw ((nat_beq_iff c b' ').0 e) (coded 2 0 o)
                | inr blank ↦ rw (percent, amp, plus, hash, ask, blank) (plain c cs percent plus)
              ]
            ]
          ]
        ]
      ]
    ]

no_amp : (c : ℕ) (cs : List ℕ) → contains (escaped c ++ cs) b'&' ≡ contains cs b'&'
no_amp c cs = ground arith

no_hash : (c : ℕ) (cs : List ℕ) → contains (escaped c ++ cs) b'#' ≡ contains cs b'#'
no_hash c cs = ground arith

-- Every name that is escaped is read back, and no "&" or "#" that would end it is left.
pub query_unescape-url_escape :
    (s : List ℕ)
    → (query_unescape (url_escape s) ≡ some s)
      × (contains (url_escape s) b'&' ≡ false)
      × (contains (url_escape s) b'#' ≡ false)
query_unescape-url_escape [] = (refl, refl, refl)
query_unescape-url_escape (c ∷ cs) =
    let (read, amp, hash) = query_unescape-url_escape cs in
    (
      escaped_one c (url_escape cs) ∙ ap (before c) read,
      no_amp c (url_escape cs) ∙ amp,
      no_hash c (url_escape cs) ∙ hash,
    )
