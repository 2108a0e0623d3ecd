-- ===== src/Overdrop.antt =====
-- internal/overdrop/overdrop.go: the inbox of file transfers. The files are a map from paths to
-- contents; directories are there, and reading and writing files does not fail. A query
-- is read as net/url reads it. Texts are their bytes.
pub mod Paths
pub mod Transfers
pub mod Resume
pub mod Races
pub mod Escape
pub mod Requests
pub mod Digits
pub mod Queries
pub mod Names
pub mod Attempts
use over_mesh.Common.{
  ℕ, zero, suc, ◌+◌, ◌-◌, ◌*◌, ◌^◌, Bool, true, false, not, ◌&&◌, ◌||◌, List, [], ◌∷◌, ◌++◌, Option,
  none, some, ltb, leb, nat_beq, bytes_beq, bytes_eq, if◌then◌else◌, length, take, drop, lookup,
  insert, delete, contains, remove, trim_space, is_nil, any, digits_onto, below, decimal,
}
use over_mesh.Key.{hex_value}

abbrev pub Files : Type 0
Files = List (List ℕ × List ℕ)

pub record Inbox : Type 0 where
  pub files : Files
  pub busy : List (List ℕ)

-- `filepath.Base`
abbrev pub strip_slashes : List ℕ → List ℕ
strip_slashes [] = []
strip_slashes (c ∷ cs) =
    let rest = strip_slashes cs in if is_nil rest && nat_beq c b'/' then [] else c ∷ rest

abbrev pub after_slash : List ℕ → Option (List ℕ)
after_slash [] = none
after_slash (c ∷ cs) = elim (after_slash cs) [
  | some rest ↦ some rest
  | none ↦ if nat_beq c b'/' then some cs else none
]

abbrev pub or_whole : Option (List ℕ) → List ℕ → List ℕ
or_whole none s = s
or_whole (some rest) s = rest

unfoldable pub base : List ℕ → List ℕ
base s =
    let stripped = strip_slashes s in
    let last = or_whole (after_slash stripped) stripped in
    if is_nil s then b'.' ∷ [] else if is_nil last then b'/' ∷ [] else last

-- `strconv.ParseInt(s, 10, 64)`: whether it is negative, and how far from 0.
abbrev pub parse_digits : List ℕ → ℕ → Option ℕ
parse_digits [] limit = none
parse_digits (c ∷ cs) limit = below limit (digits_onto 0 (c ∷ cs))

abbrev pub signed : Bool → Option ℕ → Option (Bool × ℕ)
signed negative none = none
signed negative (some n) = some (negative, n)

unfoldable pub parse_int : List ℕ → Option (Bool × ℕ)
parse_int [] = none
parse_int (c ∷ cs) =
    if nat_beq c b'-'
    then signed true (parse_digits cs (2 ^ 63 + 1))
    else if nat_beq c b'+'
    then signed false (parse_digits cs (2 ^ 63))
    else signed false (parse_digits (c ∷ cs) (2 ^ 63))

abbrev pub non_negative : Option (Bool × ℕ) → Option ℕ
non_negative none = none
non_negative (some (true, suc n)) = none
non_negative (some (true, zero)) = some 0
non_negative (some (false, n)) = some n

abbrev pub is_bad_name : List ℕ → Bool
is_bad_name name =
    is_nil name
    || bytes_beq name (b'.' ∷ [])
    || bytes_beq name (b'.' ∷ b'.' ∷ [])
    || bytes_beq name (b'/' ∷ [])
    || any (λ c. nat_beq c b'/' || nat_beq c b'\\' || nat_beq c 0) name

abbrev pub with_size : List ℕ → Option ℕ → Option (List ℕ × ℕ)
with_size name none = none
with_size name (some size) = some (name, size)

-- The name and the size, `none` for a 400.
unfoldable pub params : List ℕ → List ℕ → Option (List ℕ × ℕ)
params raw_name raw_size =
    let name = base (trim_space raw_name) in
    if is_bad_name name then none else with_size name (non_negative (parse_int raw_size))

-- `filepath.Join` of a clean directory and a name without a slash.
abbrev pub join : List ℕ → List ℕ → List ℕ
join dir name = dir ++ b'/' ∷ name

abbrev pub dot_part : List ℕ
dot_part = b'.' ∷ b'p' ∷ b'a' ∷ b'r' ∷ b't' ∷ []

-- `paths` under the sender's directory: the staged file and the finished one.
abbrev pub part_path : List ℕ → List ℕ → ℕ → List ℕ
part_path dir name size = join dir (name ++ b'.' ∷ decimal size ++ dot_part)

abbrev pub final_path : List ℕ → List ℕ → List ℕ
final_path dir name = join dir name

-- `filepath.Ext`, and the name without it.
abbrev pub ext : List ℕ → List ℕ
ext [] = []
ext (c ∷ cs) =
    let rest = ext cs in if is_nil rest then (if nat_beq c b'.' then c ∷ cs else []) else rest

abbrev pub stem : List ℕ → List ℕ
stem name = take (length name - length (ext name)) name

-- `fmt.Sprintf("%s (%d)%s", stem, i, ext)`
abbrev pub variant : List ℕ → List ℕ → ℕ → List ℕ
variant dir name i = join dir (stem name ++ (b' ' ∷ b'(' ∷ (decimal i ++ b')' ∷ ext name)))

abbrev pub exists_at : List ℕ → Files → Bool
exists_at path files = elim (lookup path files) [ none ↦ false | some _ ↦ true ]

-- The loop of `dedupePath`, on fuel: `none` means that the fuel ran out.
abbrev pub variant_loop : ℕ → List ℕ → List ℕ → ℕ → Files → Option (List ℕ)
variant_loop zero dir name i files = none
variant_loop (suc fuel) dir name i files =
    let rest = variant_loop fuel dir name (i + 1) files in
    if exists_at (variant dir name i) files then rest else some (variant dir name i)

-- One turn more than there are files.
unfoldable pub dedupe_path : List ℕ → List ℕ → Files → Option (List ℕ)
dedupe_path dir name files =
    if not (exists_at (final_path dir name) files)
    then some (final_path dir name)
    else variant_loop (suc (length files)) dir name 2 files

abbrev pub contents : Option (List ℕ) → List ℕ
contents none = []
contents (some bytes) = bytes

-- The answer of `handleOffset` to good parameters.
unfoldable pub staged_size : List ℕ → List ℕ → ℕ → Inbox → ℕ
staged_size dir name size s = length (contents (lookup (part_path dir name size) s.files))

-- A transfer whose part is reserved, and that is to be written from `offset` on.
pub record Transfer : Type 0 where
  pub dir : List ℕ
  pub name : List ℕ
  pub size : ℕ
  pub offset : ℕ

abbrev pub part_of : Transfer → List ℕ
part_of t = part_path t.dir t.name t.size

-- The HTTP statuses 400, 409 and 500, and 204.
pub data Reply : Type 0 where
  bad_request conflict failed no_content : Reply

abbrev pub free_part : List ℕ → Inbox → Inbox
free_part part s = record s { busy = remove s.busy part }

-- `os.OpenFile` with O_CREATE
abbrev pub create_part : List ℕ → Files → Files
create_part part files = if exists_at part files then files else insert part [] files

-- `handlePut` up to the body: the reservation, or an answer.
unfoldable pub begin_put : Transfer → Inbox → Option Reply × Inbox
begin_put t s =
    let opened = create_part (part_of t) s.files in
    if ltb t.size t.offset
    then (some bad_request, s)
    else if contains s.busy (part_of t)
    then (some conflict, s)
    else if not (nat_beq (length (contents (lookup (part_of t) opened))) t.offset)
    then (
      some conflict,
      free_part (part_of t) (record { files = opened; busy = part_of t ∷ s.busy }),
    )
    else (none, record { files = opened; busy = part_of t ∷ s.busy })

-- `io.Copy` of the body to the end of the staged file, and the tests on what arrived. `broken` is that
-- reading the body failed. No answer means that the file is complete.
unfoldable pub receive : Transfer → List ℕ → Bool → Inbox → Option Reply × Inbox
receive t body broken s =
    let got = t.offset + length body in
    let old = contents (lookup (part_of t) s.files) in
    let written = record s { files = insert (part_of t) (take t.offset old ++ body) s.files } in
    if ltb t.size got
    then (
      some bad_request,
      free_part (part_of t) (record written { files = delete (part_of t) written.files }),
    )
    else if broken
    then (some failed, free_part (part_of t) written)
    else if ltb got t.size
    then (some bad_request, free_part (part_of t) written)
    else (none, written)

-- `os.Rename`: a file at the new path is replaced.
abbrev pub rename : List ℕ → List ℕ → Files → Files
rename old new files =
    let moved = contents (lookup old files) in insert new moved (delete old files)

unfoldable pub finish : Transfer → List ℕ → Inbox → Reply × Inbox
finish t dst s =
    (no_content, free_part (part_of t) (record s { files = rename (part_of t) dst s.files }))

abbrev pub finish_at : Transfer → Option (List ℕ) → Inbox → Option Reply × Inbox
finish_at t none s = (none, s)
finish_at t (some dst) s = let (r, s') = finish t dst s in (some r, s')

abbrev pub received : Transfer → Option Reply × Inbox → Option Reply × Inbox
received t (some r, s) = (some r, s)
received t (none, s) = finish_at t (dedupe_path t.dir t.name s.files) s

abbrev pub begun : Transfer → List ℕ → Bool → Option Reply × Inbox → Option Reply × Inbox
begun t body broken (some r, s) = (some r, s)
begun t body broken (none, s) = received t (receive t body broken s)

-- `handlePut` of good parameters with nothing else in between; no answer means that the fuel of
-- `dedupe_path` ran out.
unfoldable pub handle_put : Transfer → List ℕ → Bool → Inbox → Option Reply × Inbox
handle_put t body broken s = begun t body broken (begin_put t s)

-- What `Send` puts, when the receiver has answered with its offset.
unfoldable pub resume_offset : ℕ → List ℕ → ℕ
resume_offset answered content = if ltb (length content) answered then 0 else answered

-- `urlEscape`
abbrev pub escaped : ℕ → List ℕ
escaped c =
    if nat_beq c b'%'
    then b'%' ∷ b'2' ∷ b'5' ∷ []
    else if nat_beq c b'&'
    then b'%' ∷ b'2' ∷ b'6' ∷ []
    else if nat_beq c b'+'
    then b'%' ∷ b'2' ∷ b'B' ∷ []
    else if nat_beq c b'#'
    then b'%' ∷ b'2' ∷ b'3' ∷ []
    else if nat_beq c b'?'
    then b'%' ∷ b'3' ∷ b'F' ∷ []
    else if nat_beq c b' '
    then b'%' ∷ b'2' ∷ b'0' ∷ []
    else c ∷ []

abbrev pub url_escape : List ℕ → List ℕ
url_escape [] = []
url_escape (c ∷ cs) = escaped c ++ url_escape cs

-- `url.QueryUnescape`
abbrev pub unescaped_pair : Option ℕ → Option ℕ → Option (List ℕ) → Option (List ℕ)
unescaped_pair (some h) (some l) (some rest) = some ((h * 16 + l) ∷ rest)
unescaped_pair _ _ _ = none

abbrev pub before : ℕ → Option (List ℕ) → Option (List ℕ)
before c none = none
before c (some rest) = some (c ∷ rest)

abbrev pub query_unescape : List ℕ → Option (List ℕ)
query_unescape [] = some []
query_unescape (c ∷ []) =
    if nat_beq c b'%' then none else some ((if nat_beq c b'+' then b' ' else c) ∷ [])
query_unescape (c ∷ d ∷ []) =
    let rest = query_unescape (d ∷ []) in
    if nat_beq c b'%' then none else before (if nat_beq c b'+' then b' ' else c) rest
query_unescape (c ∷ d ∷ e ∷ cs) =
    let pair = unescaped_pair (hex_value d) (hex_value e) (query_unescape cs) in
    let rest = query_unescape (d ∷ e ∷ cs) in
    if nat_beq c b'%' then pair else before (if nat_beq c b'+' then b' ' else c) rest
