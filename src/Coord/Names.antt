-- ===== src/Coord/Names.antt =====
-- internal/coord/coord.go: the names of devices. `sanitizeHostname` is on ASCII text, its bytes.
pub mod Labels
pub mod Dedupe
use over_mesh.Common.{
  ℕ, zero, suc, ◌+◌, Bool, true, false, ◌||◌, List, [], ◌∷◌, ◌++◌, Option, none, some, ltb, nat_beq,
  if◌then◌else◌, length, take, trim_space, to_lower, is_lower_alnum, is_nil, decimal,
}
use over_mesh.Store.Nodes.{Nodes, hostname_taken}

-- A character outside of `[^a-z0-9-]`.
abbrev pub is_name_char : ℕ → Bool
is_name_char c = is_lower_alnum c || nat_beq c b'-'

-- `hostnameRe.ReplaceAllString(h, "-")`: one dash for each longest run of other characters. The flag
-- is whether the character before is in such a run.
abbrev pub replace_runs : Bool → List ℕ → List ℕ
replace_runs in_run [] = []
replace_runs in_run (c ∷ cs) =
    let kept = replace_runs false cs in
    let skipped = replace_runs true cs in
    if is_name_char c then c ∷ kept else if in_run then skipped else b'-' ∷ skipped

abbrev pub trim_dashes_left : List ℕ → List ℕ
trim_dashes_left [] = []
trim_dashes_left (c ∷ cs) =
    let rest = trim_dashes_left cs in if nat_beq c b'-' then rest else c ∷ cs

abbrev pub trim_dashes_right : List ℕ → List ℕ
trim_dashes_right [] = []
trim_dashes_right (c ∷ cs) =
    let rest = trim_dashes_right cs in
    if is_nil rest then (if nat_beq c b'-' then [] else c ∷ []) else c ∷ rest

-- `strings.Trim(h, "-")`
abbrev pub trim_dashes : List ℕ → List ℕ
trim_dashes h = trim_dashes_right (trim_dashes_left h)

unfoldable pub sanitize_hostname : List ℕ → List ℕ
sanitize_hostname h =
    let trimmed = trim_dashes (replace_runs false (to_lower (trim_space h))) in
    if ltb 63 (length trimmed) then take 63 trimmed else trimmed

-- `fmt.Sprintf("%s-%d", base, i)`
abbrev pub numbered : List ℕ → ℕ → List ℕ
numbered base i = base ++ b'-' ∷ decimal i

-- The loop of `dedupeHostname`, on fuel: `none` means that the fuel ran out.
abbrev pub dedupe_loop : ℕ → ℕ → List ℕ → ℕ → List ℕ → Nodes → Option (List ℕ)
dedupe_loop zero network base i name t = none
dedupe_loop (suc fuel) network base i name t =
    let rest = dedupe_loop fuel network base (i + 1) (numbered base i) t in
    if hostname_taken network name t then rest else some name

-- One turn more than the table has rows.
unfoldable pub dedupe_hostname : ℕ → List ℕ → Nodes → Option (List ℕ)
dedupe_hostname network base t = dedupe_loop (suc (length t.rows)) network base 2 base t
