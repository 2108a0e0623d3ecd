-- ===== src/Tests/Transfers.antt =====
-- The inbox of one sender.
use over_mesh.Common.{
  ℕ, ◌≡◌, refl, arith, false, List, [], ◌∷◌, some, none, lookup, bytes_eq, bytes_beq, nat_eq,
  decimal,
}
use over_mesh.Overdrop.{
  Inbox, Transfer, part_of, final_path, dedupe_path, exists_at, handle_put, finish,
}
use over_mesh.Overdrop.Paths.{dedupe_path-free}
use over_mesh.Overdrop.Transfers.{handle_put-keeps}
use over_mesh.Overdrop.Requests.{send}
use over_mesh.Overdrop.Names.{IsName}
use over_mesh.Overdrop.Resume.{IsStaged, Delivered}
use over_mesh.Overdrop.Attempts.{attempts, send-attempts}
use over_mesh.Overdrop.Races.{finish_replaces}

abbrev dir : List ℕ
dir = b'i' ∷ b'n' ∷ []

abbrev a_txt : List ℕ
a_txt = b'a' ∷ b'.' ∷ b't' ∷ []

abbrev b_txt : List ℕ
b_txt = b'b' ∷ b'.' ∷ b't' ∷ []

abbrev inbox : Inbox
inbox = record { files = (final_path dir a_txt, 7 ∷ []) ∷ []; busy = [] }

inbox-IsStaged : IsStaged dir b_txt (1 ∷ 2 ∷ 3 ∷ []) inbox
inbox-IsStaged = record { k = 0; short = omega arith; staged = refl; idle = refl }

b_txt-IsName : IsName b_txt
b_txt-IsName = record {
  no_semicolon = refl;
  accepted = refl;
  trimmed = refl;
  printable = ground arith;
}

send-attempts_example :
    (let tried = attempts dir b_txt (1 ∷ 2 ∷ 3 ∷ []) (2 ∷ 0 ∷ []) inbox in
      Delivered dir b_txt (1 ∷ 2 ∷ 3 ∷ []) tried (send dir b_txt (1 ∷ 2 ∷ 3 ∷ []) tried))
send-attempts_example = send-attempts (2 ∷ 0 ∷ []) b_txt-IsName (omega arith) inbox-IsStaged

abbrev upload : ℕ → Transfer
upload size = record { dir = dir; name = b_txt; size = size; offset = 0 }

handle_put-keeps_example :
    lookup (final_path dir a_txt) (handle_put (upload 2) (5 ∷ 6 ∷ []) false inbox).1.files
    ≡ some (7 ∷ [])
handle_put-keeps_example =
    handle_put-keeps (upload 2) (5 ∷ 6 ∷ []) false inbox (final_path dir a_txt) refl refl

dedupe_path-free_example :
    (path : List ℕ) × (dedupe_path dir a_txt inbox.files ≡ some path)
    × (exists_at path inbox.files ≡ false)
dedupe_path-free_example = dedupe_path-free dir a_txt inbox.files

-- Two transfers of `b.t` that are complete but for the rename.
abbrev both : Inbox
both = record {
  files = (part_of (upload 1), 8 ∷ []) ∷ (part_of (upload 2), 5 ∷ 6 ∷ []) ∷ [];
  busy = part_of (upload 1) ∷ part_of (upload 2) ∷ [];
}

chosen : dedupe_path dir b_txt both.files ≡ some (final_path dir b_txt)
unfolding dedupe_path decimal
chosen = refl

parts_apart : bytes_beq (part_of (upload 1)) (part_of (upload 2)) ≡ false
unfolding decimal
parts_apart = refl

second_staged : lookup (part_of (upload 2)) both.files ≡ some (5 ∷ 6 ∷ [])
unfolding decimal
second_staged = refl

first_staged : lookup (part_of (upload 1)) both.files ≡ some (8 ∷ [])
unfolding decimal
first_staged = refl

finish_replaces_example :
    (let after =
        (finish
          (upload 2)
          (final_path dir b_txt)
          (finish (upload 1) (final_path dir b_txt) both).1).1.files in
      (dedupe_path dir b_txt both.files ≡ some (final_path dir b_txt))
      × (lookup (final_path dir b_txt) after ≡ some (5 ∷ 6 ∷ []))
      × (lookup (final_path dir a_txt) after ≡ none))
unfolding decimal
finish_replaces_example =
    finish_replaces (upload 1) (upload 2) (final_path dir b_txt) (8 ∷ []) (5 ∷ 6 ∷ [])
      (final_path dir a_txt) both refl refl chosen parts_apart first_staged second_staged

-- "a;b"
abbrev with_semicolon : List ℕ
with_semicolon = b'a' ∷ b';' ∷ b'b' ∷ []
