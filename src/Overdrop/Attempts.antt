-- ===== src/Overdrop/Attempts.antt =====
-- Files that are sent again after attempts that broke off, with the requests and how they are read.
use over_mesh.Common.{
  ℕ, ◌^◌, ◌<◌, ◌≤◌, ◌≡◌, refl, ap, sym, subst, ◌∙◌, Bool, true, false, List, [], ◌∷◌, Option, some,
  none, length, take, drop, if◌then◌else◌, arith,
}
use over_mesh.Overdrop.{Inbox, Reply, handle_put, staged_size, resume_offset}
use over_mesh.Overdrop.Resume.{
  IsStaged, Delivered, resumed, send_parsed, parsed_interrupted, parsed_attempts,
  send_parsed-parsed_attempts,
}
use over_mesh.Overdrop.Requests.{
  file_query, put_query, put_from, put_of, offset_of, handle_offset, put_request, resume, attempt,
  send,
}
use over_mesh.Overdrop.Names.{
  IsName, request_params-put_query, request_params-file_query, file_query_printable,
}

resume_offset-le :
    (answered : ℕ) (content : List ℕ) → resume_offset answered content ≤ length content
unfolding resume_offset
resume_offset-le answered content = ground arith

-- A put of an accepted name reaches `handle_put` with the transfer that was meant.
put_request-lem :
    (dir name content body : List ℕ) (off : ℕ) (broken : Bool) (s : Inbox)
    → IsName name
    → length content < 2 ^ 63
    → off ≤ length content
    → put_request dir (put_query name (length content) off) body broken s
      ≡ handle_put (resumed dir name content off) body broken s
unfolding put_request
put_request-lem dir name content body off broken s v fits within =
    let query = put_query name (length content) off in
    let (read, offset) =
      request_params-put_query name (length content) off v fits (omega (arith, fits, within)) in
    ap (λ (o : Option (List ℕ × ℕ)). put_of dir query o body broken s) read
    ∙ ap (λ (o : Option ℕ). put_from dir name (length content) o body broken s) offset

attempt-lem :
    (arrives : List ℕ → List ℕ) (broken : Bool) (dir name content : List ℕ) (s : Inbox)
    → IsName name
    → length content < 2 ^ 63
    → attempt arrives broken dir name content s ≡ (
        let off = resume_offset (staged_size dir name (length content) s) content in
        handle_put (resumed dir name content off) (arrives (drop off content)) broken s)
unfolding attempt handle_offset
attempt-lem arrives broken dir name content s v fits =
    let size = length content in
    let off = resume_offset (staged_size dir name size s) content in
    let sendable = file_query_printable name size v in
    let read = request_params-file_query name size v fits in
    let answered : handle_offset dir (file_query name size) s ≡ some (staged_size dir name size s) =
      ap (λ (o : Option (List ℕ × ℕ)). offset_of dir o s) read in
    ap
      (λ (b : Bool).
        if b
        then (none, s)
        else resume dir name content (handle_offset dir (file_query name size) s) arrives broken s)
      sendable
    ∙ ap (λ (o : Option ℕ). resume dir name content o arrives broken s) answered
    ∙ put_request-lem dir name content (arrives (drop off content)) off broken s v fits
        (resume_offset-le (staged_size dir name size s) content)

-- An attempt that breaks off after at most `m` bytes, and several.
unfoldable pub interrupted : List ℕ → List ℕ → List ℕ → ℕ → Inbox → Inbox
interrupted dir name content m s = (attempt (take m) true dir name content s).1

unfoldable pub attempts : List ℕ → List ℕ → List ℕ → List ℕ → Inbox → Inbox
attempts dir name content [] s = s
attempts dir name content (m ∷ ms) s =
    attempts dir name content ms (interrupted dir name content m s)

attempts-parsed :
    (dir name content ms : List ℕ) (s : Inbox)
    → IsName name
    → length content < 2 ^ 63
    → attempts dir name content ms s ≡ parsed_attempts dir name content ms s
unfolding attempts interrupted parsed_attempts parsed_interrupted
attempts-parsed dir name content [] s v fits = refl
attempts-parsed dir name content (m ∷ ms) s v fits =
    attempts-parsed dir name content ms (interrupted dir name content m s) v fits
    ∙ ap (λ (r : Option Reply × Inbox). parsed_attempts dir name content ms r.1)
        (attempt-lem (take m) true dir name content s v fits)

send-parsed :
    (dir name content : List ℕ) (s : Inbox)
    → IsName name
    → length content < 2 ^ 63
    → send dir name content s ≡ send_parsed dir name content s
unfolding send_parsed
send-parsed dir name content s v fits = attempt-lem (λ body. body) false dir name content s v fits

-- If the name is of printable ASCII, has no semicolon and is one that the receiver accepts as it is, the
-- size fits in 63 bits, what is staged for the file is the beginning of its content, and no transfer of
-- it is running, then after any number of attempts that break off, wherever they do, sending it once
-- more is answered with 204, puts the content whole under a path that no file had, and leaves nothing
-- staged.
pub send-attempts :
    {dir name content : List ℕ} {s : Inbox} (ms : List ℕ)
    → IsName name
    → length content < 2 ^ 63
    → IsStaged dir name content s
    → Delivered dir name content
        (attempts dir name content ms s)
        (send dir name content (attempts dir name content ms s))
send-attempts {dir} {name} {content} {s} ms v fits staged =
    let tried = attempts-parsed dir name content ms s v fits in
    let whole = send-parsed dir name content (parsed_attempts dir name content ms s) v fits in
    let done = send_parsed-parsed_attempts ms staged in
    subst (λ (x : Inbox). Delivered dir name content x (send dir name content x)) (sym tried)
      (subst (Delivered dir name content (parsed_attempts dir name content ms s)) (sym whole) done)
