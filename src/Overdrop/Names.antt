-- ===== src/Overdrop/Names.antt =====
-- Names that the receiver accepts as they are.
use over_mesh.Common.{
  ℕ, ◌^◌, ◌<◌, ◌≤◌, ◌≡◌, refl, ap, ◌∙◌, false, ◌||◌, List, [], ◌∷◌, ◌++◌, none, some, nat_beq,
  nat_eq, bytes_eq, contains, is_nil, any, decimal, All, trim_space, arith,
}
use over_mesh.Overdrop.{
  strip_slashes, after_slash, base, is_bad_name, parse_int, non_negative, params, url_escape,
  escaped,
}
use over_mesh.Overdrop.Requests.{
  query_get, name_key, size_key, offset_key, file_query, put_query, request_params, is_control,
}
use over_mesh.Overdrop.Digits.{IsDigit, decimal-IsDigit, parse_int-decimal}
use over_mesh.Overdrop.Queries.{query_get-put_query, query_get-file_query}

-- A name that the receiver accepts as it is, of printable ASCII and without a semicolon.
pub record IsName (name : List ℕ) : Type 0 where
  pub no_semicolon : contains name b';' ≡ false
  pub accepted : is_bad_name name ≡ false
  pub trimmed : trim_space name ≡ name
  pub printable : All (λ c. (32 ≤ c) × (c < 127)) name

lacks_slash :
    (name : List ℕ)
    → any (λ c. nat_beq c b'/' || nat_beq c b'\\' || nat_beq c 0) name ≡ false
    → contains name b'/' ≡ false
lacks_slash [] h = refl
lacks_slash (c ∷ cs) h = ground (arith, h, lacks_slash cs)

strip_slashes-none : (cs : List ℕ) → contains cs b'/' ≡ false → strip_slashes cs ≡ cs
strip_slashes-none [] h = refl
strip_slashes-none (c ∷ cs) h =
    let off : nat_beq c b'/' ≡ false = ground (arith, h) in
    let rest = strip_slashes-none cs (ground (arith, h)) in rw (rest, off) (ground arith)

after_slash-none : (cs : List ℕ) → contains cs b'/' ≡ false → after_slash cs ≡ none
after_slash-none [] h = refl
after_slash-none (c ∷ cs) h =
    let off : nat_beq c b'/' ≡ false = ground (arith, h) in
    let rest = after_slash-none cs (ground (arith, h)) in rw (rest, off) refl

base-none : (name : List ℕ) → is_nil name ≡ false → contains name b'/' ≡ false → base name ≡ name
unfolding base
base-none name nonempty h = rw (strip_slashes-none name h, after_slash-none name h, nonempty) refl

params-lem :
    (name : List ℕ) (size : ℕ)
    → IsName name
    → size < 2 ^ 63
    → params name (decimal size) ≡ some (name, size)
unfolding params
params-lem name size v fits =
    let nonempty : is_nil name ≡ false = ground (arith, v.accepted) in
    let slash = lacks_slash name (ground (arith, v.accepted)) in
    let is = base-none name nonempty slash in
    rw (v.trimmed, is, v.accepted, parse_int-decimal size fits) refl

pub request_params-put_query :
    (name : List ℕ) (size offset : ℕ)
    → IsName name
    → size < 2 ^ 63
    → offset < 2 ^ 63
    → (request_params (put_query name size offset) ≡ some (name, size))
      × (non_negative (parse_int (query_get offset_key (put_query name size offset))) ≡ some offset)
request_params-put_query name size offset v fits fits_too =
    let (n, sz, off) = query_get-put_query name size offset in
    let plain_name : query_get name_key (put_query name size offset) ≡ name =
      n ∙ (rw v.no_semicolon refl) in
    (
      ap (λ (x : List ℕ). params x (query_get size_key (put_query name size offset))) plain_name
          ∙ ap (params name) sz
          ∙ params-lem name size v fits,
      ap (λ (x : List ℕ). non_negative (parse_int x)) off ∙ parse_int-decimal offset fits_too,
    )

pub request_params-file_query :
    (name : List ℕ) (size : ℕ)
    → IsName name
    → size < 2 ^ 63
    → request_params (file_query name size) ≡ some (name, size)
request_params-file_query name size v fits =
    let (n, sz) = query_get-file_query name size in
    let plain_name : query_get name_key (file_query name size) ≡ name =
      n ∙ (rw v.no_semicolon refl) in
    ap (λ (x : List ℕ). params x (query_get size_key (file_query name size))) plain_name
    ∙ ap (params name) sz
    ∙ params-lem name size v fits

any-append : (xs ys : List ℕ) → any is_control (xs ++ ys) ≡ (any is_control xs || any is_control ys)
any-append [] ys = refl
any-append (x ∷ xs) ys = ground (arith, any-append xs ys)

escaped_printable : (c : ℕ) → (32 ≤ c) × (c < 127) → any is_control (escaped c) ≡ false
escaped_printable c (low, high) = ground arith

url_escape_printable :
    (s : List ℕ) → All (λ c. (32 ≤ c) × (c < 127)) s → any is_control (url_escape s) ≡ false
url_escape_printable [] h = refl
url_escape_printable (c ∷ cs) (here, h) =
    any-append (escaped c) (url_escape cs)
    ∙ ground (arith, escaped_printable c here, url_escape_printable cs h)

digits_printable : (ds : List ℕ) → All IsDigit ds → any is_control ds ≡ false
digits_printable [] h = refl
digits_printable (d ∷ ds) (here, h) = ground (arith, digits_printable ds h)

pub file_query_printable :
    (name : List ℕ) (size : ℕ) → IsName name → any is_control (file_query name size) ≡ false
file_query_printable name size v =
    let one = url_escape_printable name v.printable in
    let two = digits_printable (decimal size) (decimal-IsDigit size) in
    any-append (name_key ++ b'=' ∷ url_escape name) (b'&' ∷ (size_key ++ b'=' ∷ decimal size))
    ∙ (rw (one, two) refl)
