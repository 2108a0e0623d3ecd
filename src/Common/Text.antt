-- ===== src/Common/Text.antt =====
-- Go's functions on strings that the program uses, on ASCII text: a string is the list of its bytes,
-- and each is below 128.
use Prim.Native.Nat.{ℕ, ◌+◌, ◌-◌, ◌*◌}
use mathlib.Core.Bool.{Bool, true, false, ◌&&◌, ◌||◌}
use mathlib.Core.List.{List, [], ◌∷◌, map}
use mathlib.Core.Option.{Option, none, some}
use over_mesh.Common.Tests.{leb, ltb, nat_beq, if◌then◌else◌}

abbrev pub is_space : ℕ → Bool
is_space c = nat_beq c 32 || (leb 9 c && leb c 13)

abbrev pub is_lower_alnum : ℕ → Bool
is_lower_alnum c = (leb b'a' c && leb c b'z') || (leb b'0' c && leb c b'9')

abbrev pub trim_left : List ℕ → List ℕ
trim_left [] = []
trim_left (c ∷ cs) = let rest = trim_left cs in if is_space c then rest else c ∷ cs

abbrev pub is_nil : List ℕ → Bool
is_nil [] = true
is_nil (c ∷ cs) = false

abbrev pub trim_right : List ℕ → List ℕ
trim_right [] = []
trim_right (c ∷ cs) = let rest = trim_right cs in if is_space c && is_nil rest then [] else c ∷ rest

-- `strings.TrimSpace`
abbrev pub trim_space : List ℕ → List ℕ
trim_space s = trim_right (trim_left s)

abbrev pub lower_byte : ℕ → ℕ
lower_byte c = if leb b'A' c && leb c b'Z' then c + 32 else c

-- `strings.ToLower`
abbrev pub to_lower : List ℕ → List ℕ
to_lower = map lower_byte

-- `strings.Cut` at one byte: before it, behind it, and whether it was there.
abbrev pub cut : List ℕ → ℕ → List ℕ × List ℕ × Bool
cut [] sep = ([], [], false)
cut (c ∷ cs) sep =
    let (before, after, found) = cut cs sep in
    if nat_beq c sep then ([], cs, true) else (c ∷ before, after, found)

abbrev pub digits_onto : ℕ → List ℕ → Option ℕ
digits_onto n [] = some n
digits_onto n (c ∷ cs) =
    let rest = digits_onto (n * 10 + (c - b'0')) cs in
    if leb b'0' c && leb c b'9' then rest else none

abbrev pub below : ℕ → Option ℕ → Option ℕ
below limit none = none
below limit (some n) = if ltb n limit then some n else none

-- `strconv.ParseUint(s, 10, bits)`, with `limit` for `2 ^ bits`: decimal digits alone, at least one.
abbrev pub parse_uint : List ℕ → ℕ → Option ℕ
parse_uint [] limit = none
parse_uint (c ∷ cs) limit = below limit (digits_onto 0 (c ∷ cs))
