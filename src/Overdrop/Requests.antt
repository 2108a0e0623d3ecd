-- ===== src/Overdrop/Requests.antt =====
-- internal/overdrop/overdrop.go: the requests that `Send` makes and how the receiver reads them. The
-- address of the request is that of a known peer, whose directory is `dir`.
use over_mesh.Common.{
  ℕ, Bool, false, ◌||◌, List, [], ◌∷◌, ◌++◌, Option, none, some, ltb, nat_beq, nat_eq, bytes_eq,
  if◌then◌else◌, length, drop, lookup, contains, is_nil, any, cut, gather, decimal,
}
use over_mesh.Overdrop.{
  Inbox, Reply, bad_request, params, non_negative, parse_int, contents, staged_size, handle_put,
  resume_offset, url_escape, query_unescape,
}

-- `strings.Split` at one byte
abbrev pub onto_first : ℕ → List (List ℕ) → List (List ℕ)
onto_first c [] = (c ∷ []) ∷ []
onto_first c (x ∷ xs) = (c ∷ x) ∷ xs

abbrev pub split : List ℕ → ℕ → List (List ℕ)
split [] sep = [] ∷ []
split (c ∷ cs) sep =
    let rest = split cs sep in if nat_beq c sep then [] ∷ rest else onto_first c rest

-- One part of a query in `url.ParseQuery`: a part with a semicolon is an error, and is left out.
abbrev pub pair_read : Option (List ℕ) → Option (List ℕ) → Option (List ℕ × List ℕ)
pair_read (some k) (some v) = some (k, v)
pair_read _ _ = none

abbrev pub query_pair : List ℕ → Option (List ℕ × List ℕ)
query_pair part =
    let (k, v, found) = cut part b'=' in
    if contains part b';' || is_nil part
    then none
    else pair_read (query_unescape k) (query_unescape v)

-- `r.URL.Query().Get`: the first value of a key, and the empty text for none.
unfoldable pub query_get : List ℕ → List ℕ → List ℕ
query_get key query = contents (lookup key (gather query_pair (split query b'&')))

abbrev pub name_key : List ℕ
name_key = b'n' ∷ b'a' ∷ b'm' ∷ b'e' ∷ []

abbrev pub size_key : List ℕ
size_key = b's' ∷ b'i' ∷ b'z' ∷ b'e' ∷ []

abbrev pub offset_key : List ℕ
offset_key = b'o' ∷ b'f' ∷ b'f' ∷ b's' ∷ b'e' ∷ b't' ∷ []

abbrev pub request_params : List ℕ → Option (List ℕ × ℕ)
request_params query = params (query_get name_key query) (query_get size_key query)

abbrev pub offset_of : List ℕ → Option (List ℕ × ℕ) → Inbox → Option ℕ
offset_of dir none s = none
offset_of dir (some (name, size)) s = some (staged_size dir name size s)

-- The offset, or `none` for a 400.
unfoldable pub handle_offset : List ℕ → List ℕ → Inbox → Option ℕ
handle_offset dir query s = offset_of dir (request_params query) s

abbrev pub put_from : List ℕ → List ℕ → ℕ → Option ℕ → List ℕ → Bool → Inbox → Option Reply × Inbox
put_from dir name size none body broken s = (some bad_request, s)
put_from dir name size (some offset) body broken s =
    handle_put (record { dir = dir; name = name; size = size; offset = offset }) body broken s

abbrev pub put_of :
    List ℕ → List ℕ → Option (List ℕ × ℕ) → List ℕ → Bool → Inbox → Option Reply × Inbox
put_of dir query none body broken s = (some bad_request, s)
put_of dir query (some (name, size)) body broken s =
    put_from dir name size (non_negative (parse_int (query_get offset_key query))) body broken s

-- `handlePut` with its parameters.
unfoldable pub put_request : List ℕ → List ℕ → List ℕ → Bool → Inbox → Option Reply × Inbox
put_request dir query body broken s = put_of dir query (request_params query) body broken s

-- `name=%s&size=%d`, and with `&offset=%d`
abbrev pub file_query : List ℕ → ℕ → List ℕ
file_query name size =
    (name_key ++ b'=' ∷ url_escape name) ++ (b'&' ∷ (size_key ++ b'=' ∷ decimal size))

abbrev pub put_query : List ℕ → ℕ → ℕ → List ℕ
put_query name size offset =
    (name_key ++ b'=' ∷ url_escape name)
    ++ (b'&'
        ∷ ((size_key ++ b'=' ∷ decimal size) ++ (b'&' ∷ (offset_key ++ b'=' ∷ decimal offset))))

-- net/url reads no text with such a byte.
abbrev pub is_control : ℕ → Bool
is_control c = ltb c 32 || nat_beq c 127

abbrev pub resume :
    List ℕ → List ℕ → List ℕ → Option ℕ → (List ℕ → List ℕ) → Bool → Inbox → Option Reply × Inbox
resume dir name content none arrives broken s = (none, s)
resume dir name content (some answered) arrives broken s =
    let off = resume_offset answered content in
    put_request dir (put_query name (length content) off) (arrives (drop off content)) broken s

-- `Send` when `arrives` is what arrives of the body and `broken` that the connection breaks. Without an
-- answer to the put there is none.
unfoldable pub attempt :
    (List ℕ → List ℕ) → Bool → List ℕ → List ℕ → List ℕ → Inbox → Option Reply × Inbox
attempt arrives broken dir name content s =
    if any is_control (file_query name (length content))
    then (none, s)
    else resume dir name content (handle_offset dir (file_query name (length content)) s) arrives
        broken s

-- `Send` to a receiver that stays reachable.
abbrev pub send : List ℕ → List ℕ → List ℕ → Inbox → Option Reply × Inbox
send dir name content s = attempt (λ body. body) false dir name content s
