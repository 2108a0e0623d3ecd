-- ===== src/Overdrop/Queries.antt =====
-- What the receiver reads in the query of a request of `Send`.
use over_mesh.Common.{
  ℕ, ◌≡◌, refl, ap, ◌∙◌, true, false, ◌||◌, List, [], ◌∷◌, ◌++◌, none, some, nat_beq, nat_beq_iff,
  nat_eq, bytes_eq, bytes_beq, if◌then◌else◌, lookup, contains, gather, gather-none, gather-some,
  decimal, arith, Bool-cases, inl, inr,
}
use over_mesh.Overdrop.{url_escape, escaped, query_unescape, contents}
use over_mesh.Overdrop.Escape.{query_unescape-url_escape}
use over_mesh.Overdrop.Requests.{
  split, query_pair, query_get, name_key, size_key, offset_key, file_query, put_query,
}
use over_mesh.Overdrop.Digits.{
  decimal-IsDigit, query_unescape-digits, contains-digits, lacks-digits,
}

split-none : (xs : List ℕ) (sep : ℕ) → contains xs sep ≡ false → split xs sep ≡ xs ∷ []
split-none [] sep h = refl
split-none (x ∷ xs) sep h =
    let off : nat_beq x sep ≡ false = ground (arith, h) in
    let rest = split-none xs sep (ground (arith, h)) in rw (off, rest) refl

split-append :
    (xs ys : List ℕ) (sep : ℕ)
    → contains xs sep ≡ false
    → split (xs ++ sep ∷ ys) sep ≡ xs ∷ split ys sep
split-append [] ys sep h = let same = (nat_beq_iff sep sep).1 refl in rw same refl
split-append (x ∷ xs) ys sep h =
    let off : nat_beq x sep ≡ false = ground (arith, h) in
    let rest = split-append xs ys sep (ground (arith, h)) in rw (off, rest) refl

contains-append :
    (xs ys : List ℕ) (c : ℕ) → contains (xs ++ ys) c ≡ (contains xs c || contains ys c)
contains-append [] ys c = refl
contains-append (x ∷ xs) ys c = ground (arith, contains-append xs ys c)

contains-escaped : (c : ℕ) → contains (escaped c) b';' ≡ nat_beq c b';'
contains-escaped c = ground arith

-- Escaping leaves a semicolon, and makes none.
contains-url_escape : (s : List ℕ) → contains (url_escape s) b';' ≡ contains s b';'
contains-url_escape [] = refl
contains-url_escape (c ∷ cs) =
    contains-append (escaped c) (url_escape cs) b';'
    ∙ ground (arith, contains-escaped c, contains-url_escape cs)

-- A part of a query whose key is plain.
name_pair :
    (raw v : List ℕ)
    → query_unescape raw ≡ some v
    → contains raw b';' ≡ false
    → query_pair (name_key ++ b'=' ∷ raw) ≡ some (name_key, v)
name_pair raw v read plain_raw = rw (plain_raw, read) refl

number_pair :
    (n : ℕ)
    → (query_pair (size_key ++ b'=' ∷ decimal n) ≡ some (size_key, decimal n))
      × (query_pair (offset_key ++ b'=' ∷ decimal n) ≡ some (offset_key, decimal n))
number_pair n =
    let read = query_unescape-digits (decimal n) (decimal-IsDigit n) in
    let none_there = contains-digits (decimal n) b';' (decimal-IsDigit n) (omega arith) in
    (rw (none_there, read) refl, rw (none_there, read) refl)

no_name_pair :
    (raw : List ℕ) → contains raw b';' ≡ true → query_pair (name_key ++ b'=' ∷ raw) ≡ none
no_name_pair raw semi = rw semi refl

abbrev Pairs : Type 0
Pairs = List (List ℕ × List ℕ)

abbrev value_of : List ℕ → Pairs → List ℕ
value_of key pairs = contents (lookup key pairs)

put_query-parts :
    (name : List ℕ) (size offset : ℕ)
    → split (put_query name size offset) b'&'
      ≡ (name_key ++ b'=' ∷ url_escape name)
        ∷ (size_key ++ b'=' ∷ decimal size)
        ∷ (offset_key ++ b'=' ∷ decimal offset)
        ∷ []
put_query-parts name size offset =
    let first = name_key ++ b'=' ∷ url_escape name in
    let second = size_key ++ b'=' ∷ decimal size in
    let third = offset_key ++ b'=' ∷ decimal offset in
    let no_amp : contains first b'&' ≡ false = (query_unescape-url_escape name).1 in
    let no_amp_two : contains second b'&' ≡ false =
      lacks-digits (decimal size) b'&' (decimal-IsDigit size) (omega arith) in
    let no_amp_three : contains third b'&' ≡ false =
      lacks-digits (decimal offset) b'&' (decimal-IsDigit offset) (omega arith) in
    split-append first (second ++ (b'&' ∷ third)) b'&' no_amp
    ∙ ap (λ (x : List (List ℕ)). first ∷ x)
        (split-append second third b'&' no_amp_two
          ∙ ap (λ (x : List (List ℕ)). second ∷ x) (split-none third b'&' no_amp_three))

file_query-parts :
    (name : List ℕ) (size : ℕ)
    → split (file_query name size) b'&'
      ≡ (name_key ++ b'=' ∷ url_escape name) ∷ (size_key ++ b'=' ∷ decimal size) ∷ []
file_query-parts name size =
    let first = name_key ++ b'=' ∷ url_escape name in
    let second = size_key ++ b'=' ∷ decimal size in
    let no_amp : contains first b'&' ≡ false = (query_unescape-url_escape name).1 in
    let no_amp_two : contains second b'&' ≡ false =
      lacks-digits (decimal size) b'&' (decimal-IsDigit size) (omega arith) in
    split-append first second b'&' no_amp
    ∙ ap (λ (x : List (List ℕ)). first ∷ x) (split-none second b'&' no_amp_two)

gather-size :
    (size : ℕ) (rest : List (List ℕ))
    → gather query_pair ((size_key ++ b'=' ∷ decimal size) ∷ rest)
      ≡ (size_key, decimal size) ∷ gather query_pair rest
gather-size size rest =
    gather-some query_pair (size_key ++ b'=' ∷ decimal size) rest (size_key, decimal size)
      (number_pair size).0

gather-offset :
    (offset : ℕ)
    → gather query_pair ((offset_key ++ b'=' ∷ decimal offset) ∷ [])
      ≡ (offset_key, decimal offset) ∷ []
gather-offset offset =
    gather-some query_pair (offset_key ++ b'=' ∷ decimal offset) [] (offset_key, decimal offset)
      (number_pair offset).1

-- The name's pair, which a semicolon loses.
abbrev named_pairs : List ℕ → Pairs → Pairs
named_pairs name rest = if contains name b';' then rest else (name_key, name) ∷ rest

gather-name :
    (name : List ℕ) (rest : List (List ℕ))
    → gather query_pair ((name_key ++ b'=' ∷ url_escape name) ∷ rest)
      ≡ named_pairs name (gather query_pair rest)
gather-name name rest =
    let first = name_key ++ b'=' ∷ url_escape name in
    elim (Bool-cases (contains name b';')) [
      | inl semi ↦
          let lost = no_name_pair (url_escape name) (contains-url_escape name ∙ semi) in
          rw semi (gather-none query_pair first rest lost)
      | inr none_there ↦
          let kept =
            name_pair (url_escape name) name (query_unescape-url_escape name).0
              (contains-url_escape name ∙ none_there) in
          rw none_there (gather-some query_pair first rest (name_key, name) kept)
    ]

put_query-pairs :
    (name : List ℕ) (size offset : ℕ)
    → gather query_pair (split (put_query name size offset) b'&')
      ≡ named_pairs name ((size_key, decimal size) ∷ (offset_key, decimal offset) ∷ [])
put_query-pairs name size offset =
    ap (gather query_pair) (put_query-parts name size offset)
    ∙ gather-name name
        ((size_key ++ b'=' ∷ decimal size) ∷ (offset_key ++ b'=' ∷ decimal offset) ∷ [])
    ∙ ap (named_pairs name) (
        gather-size size ((offset_key ++ b'=' ∷ decimal offset) ∷ [])
        ∙ ap (λ (x : Pairs). (size_key, decimal size) ∷ x) (gather-offset offset))

file_query-pairs :
    (name : List ℕ) (size : ℕ)
    → gather query_pair (split (file_query name size) b'&')
      ≡ named_pairs name ((size_key, decimal size) ∷ [])
file_query-pairs name size =
    ap (gather query_pair) (file_query-parts name size)
    ∙ gather-name name ((size_key ++ b'=' ∷ decimal size) ∷ [])
    ∙ ap (named_pairs name) (gather-size size [])

value_of-named :
    (name : List ℕ) (rest : Pairs)
    → lookup name_key rest ≡ none
    → value_of name_key (named_pairs name rest) ≡ (if contains name b';' then [] else name)
value_of-named name rest missing = elim (Bool-cases (contains name b';')) [
  | inl semi ↦ rw semi (ap contents missing)
  | inr none_there ↦ rw none_there refl
]

value_of-other :
    (key name : List ℕ) (rest : Pairs)
    → bytes_beq name_key key ≡ false
    → value_of key (named_pairs name rest) ≡ value_of key rest
value_of-other key name rest other = elim (Bool-cases (contains name b';')) [
  | inl semi ↦ rw semi refl
  | inr none_there ↦ rw (none_there, other) refl
]

pub query_get-put_query :
    (name : List ℕ) (size offset : ℕ)
    → (query_get name_key (put_query name size offset) ≡ (if contains name b';' then [] else name))
      × (query_get size_key (put_query name size offset) ≡ decimal size)
      × (query_get offset_key (put_query name size offset) ≡ decimal offset)
unfolding query_get
query_get-put_query name size offset =
    let rest : Pairs = (size_key, decimal size) ∷ (offset_key, decimal offset) ∷ [] in
    let pairs = put_query-pairs name size offset in
    (
      ap (value_of name_key) pairs ∙ value_of-named name rest refl,
      ap (value_of size_key) pairs ∙ value_of-other size_key name rest refl,
      ap (value_of offset_key) pairs ∙ value_of-other offset_key name rest refl,
    )

pub query_get-file_query :
    (name : List ℕ) (size : ℕ)
    → (query_get name_key (file_query name size) ≡ (if contains name b';' then [] else name))
      × (query_get size_key (file_query name size) ≡ decimal size)
unfolding query_get
query_get-file_query name size =
    let rest : Pairs = (size_key, decimal size) ∷ [] in
    let pairs = file_query-pairs name size in
    (
      ap (value_of name_key) pairs ∙ value_of-named name rest refl,
      ap (value_of size_key) pairs ∙ value_of-other size_key name rest refl,
    )
