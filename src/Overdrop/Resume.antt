-- ===== src/Overdrop/Resume.antt =====
-- A file that is sent again after attempts that broke off arrives whole.
use native.Mathlib.Nat.{zero-add}
use over_mesh.Common.{
  ℕ, zero, suc, ◌+◌, ◌≤◌, ◌≡◌, refl, ap, subst, sym, ◌∙◌, true, false, List, [], ◌∷◌, ◌++◌, Option,
  none, some, length, take, drop, length-take, length-drop, take-append-drop, ltb, nat_beq, lookup,
  insert, lookup-delete, contains, contains-remove, bytes_eq, bytes_beq, bytes_beq_iff, beq_refl,
  arith, Bool-cases, inl, inr,
}
use over_mesh.Overdrop.{
  Files, Inbox, Transfer, Reply, failed, no_content, part_path, part_of, contents, exists_at,
  create_part, free_part, begin_put, receive, rename, finish, finish_at, received, begun,
  handle_put, staged_size, resume_offset, dedupe_path,
}
use over_mesh.Overdrop.Paths.{dedupe_path-free}
use over_mesh.Overdrop.Transfers.{absent, create_part-contents, create_part-others}

-- What is staged for a file is the beginning of its content, and no transfer of it is running.
pub record IsStaged (dir name content : List ℕ) (s : Inbox) : Type 0 where
  pub k : ℕ
  pub short : k ≤ length content
  pub staged : contents (lookup (part_path dir name (length content)) s.files) ≡ take k content
  pub idle : contains s.busy (part_path dir name (length content)) ≡ false

-- The transfer that `Send` starts.
abbrev pub resumed : List ℕ → List ℕ → List ℕ → ℕ → Transfer
resumed dir name content k = record { dir = dir; name = name; size = length content; offset = k }

-- What a put of the rest of the file does, once its parameters are read.
unfoldable pub send_parsed : List ℕ → List ℕ → List ℕ → Inbox → Option Reply × Inbox
send_parsed dir name content s =
    let off = resume_offset (staged_size dir name (length content) s) content in
    handle_put (resumed dir name content off) (drop off content) false s

length-prefix : (k : ℕ) (content : List ℕ) → k ≤ length content → length (take k content) ≡ k
length-prefix k content h = omega (arith, length-take k content, h)

resume_offset-staged :
    {dir name content : List ℕ} {s : Inbox} (v : IsStaged dir name content s)
    → resume_offset (staged_size dir name (length content) s) content ≡ v.k
unfolding resume_offset staged_size
resume_offset-staged {dir} {name} {content} {s} v =
    let size = length-prefix v.k content v.short in rw (v.staged, size) (ground (arith, v.short))

-- The staged file is open, and the transfer is reserved.
abbrev started : Transfer → Inbox → Inbox
started t s = record { files = create_part (part_of t) s.files; busy = part_of t ∷ s.busy }

begin_put-staged :
    {dir name content : List ℕ} {s : Inbox} (v : IsStaged dir name content s)
    → begin_put (resumed dir name content v.k) s ≡ (none, started (resumed dir name content v.k) s)
unfolding begin_put
begin_put-staged {dir} {name} {content} {s} v =
    let part = part_path dir name (length content) in
    let size : length (contents (lookup part (create_part part s.files))) ≡ v.k =
      ap length (create_part-contents part s.files ∙ v.staged)
      ∙ length-prefix v.k content v.short in
    let exact : nat_beq (length (contents (lookup part (create_part part s.files)))) v.k ≡ true =
      ground (arith, size) in
    let fits : ltb (length content) v.k ≡ false = ground (arith, v.short) in
    rw (fits, v.idle, exact) refl

take-take : (k : ℕ) (xs : List ℕ) → take k (take k xs) ≡ take k xs
take-take zero xs = refl
take-take (suc k) [] = refl
take-take (suc k) (x ∷ xs) = ap (◌∷◌ x) (take-take k xs)

take-nil : (n : ℕ) → ◌≡◌ {A = List ℕ} (take n []) []
take-nil zero = refl
take-nil (suc n) = refl

take-plus : (k m : ℕ) (xs : List ℕ) → take k xs ++ take m (drop k xs) ≡ take (k + m) xs
take-plus zero m xs = rw zero-add refl
take-plus (suc k) m [] = take-nil m ∙ sym (take-nil (suc k + m))
take-plus (suc k) m (x ∷ xs) =
    let e : suc k + m ≡ suc (k + m) = omega arith in rw e (ap (◌∷◌ x) (take-plus k m xs))

take-length-take : (n : ℕ) (xs : List ℕ) → take (length (take n xs)) xs ≡ take n xs
take-length-take zero xs = refl
take-length-take (suc n) [] = refl
take-length-take (suc n) (x ∷ xs) = ap (◌∷◌ x) (take-length-take n xs)

length-take-le : (n : ℕ) (xs : List ℕ) → length (take n xs) ≤ length xs
length-take-le n xs = omega (arith, length-take n xs)

-- With the body at the end of the staged file.
abbrev written : Transfer → List ℕ → Inbox → Inbox
written t body s = record s {
  files =
      insert (part_of t) (take t.offset (contents (lookup (part_of t) s.files)) ++ body) s.files;
}

receive-broken :
    (t : Transfer) (body : List ℕ) (s : Inbox)
    → ltb t.size (t.offset + length body) ≡ false
    → receive t body true s ≡ (some failed, free_part (part_of t) (written t body s))
unfolding receive
receive-broken t body s fits = rw fits refl

receive-whole :
    (t : Transfer) (body : List ℕ) (s : Inbox)
    → t.offset + length body ≡ t.size
    → receive t body false s ≡ (none, written t body s)
unfolding receive
receive-whole t body s full =
    let fits : ltb t.size (t.offset + length body) ≡ false = ground (arith, full) in
    let enough : ltb (t.offset + length body) t.size ≡ false = ground (arith, full) in
    rw (fits, enough) refl

-- The staged file after more of the content was written.
written-staged :
    {dir name content : List ℕ} {s : Inbox} (m : ℕ) (v : IsStaged dir name content s)
    → (let t = resumed dir name content v.k in
        take v.k (contents (lookup (part_of t) (started t s).files)) ++ take m (drop v.k content))
      ≡ take (v.k + m) content
written-staged {dir} {name} {content} {s} m v =
    let part = part_path dir name (length content) in
    rw (create_part-contents part s.files, v.staged, take-take) (take-plus v.k m content)

-- An attempt that breaks off after at most `m` bytes.
unfoldable pub parsed_interrupted : List ℕ → List ℕ → List ℕ → ℕ → Inbox → Inbox
parsed_interrupted dir name content m s =
    let k = resume_offset (staged_size dir name (length content) s) content in
    (handle_put (resumed dir name content k) (take m (drop k content)) true s).1

parsed_interrupted_lem :
    {dir name content : List ℕ} {s : Inbox} (m : ℕ) (v : IsStaged dir name content s)
    → parsed_interrupted dir name content m s ≡ (
        let t = resumed dir name content v.k in
        free_part (part_of t) (written t (take m (drop v.k content)) (started t s)))
unfolding parsed_interrupted handle_put
parsed_interrupted_lem {dir} {name} {content} {s} m v =
    let t = resumed dir name content v.k in
    let body = take m (drop v.k content) in
    let fits : ltb (length content) (v.k + length body) ≡ false =
      ground (arith, length-take-le m (drop v.k content), length-drop v.k content, v.short) in
    ap (λ (k : ℕ). (handle_put (resumed dir name content k) (take m (drop k content)) true s).1)
      (resume_offset-staged v)
    ∙ ap (λ (r : Option Reply × Inbox). (begun t body true r).1) (begin_put-staged v)
    ∙ ap (λ (r : Option Reply × Inbox). (received t r).1) (receive-broken t body (started t s) fits)

parsed_interrupted-IsStaged :
    {dir name content : List ℕ} {s : Inbox} (m : ℕ)
    → IsStaged dir name content s
    → IsStaged dir name content (parsed_interrupted dir name content m s)
parsed_interrupted-IsStaged {dir} {name} {content} {s} m v =
    let part = part_path dir name (length content) in
    rw (parsed_interrupted_lem m v) (record {
      k = length (take (v.k + m) content);
      short = length-take-le (v.k + m) content;
      staged = rw (beq_refl part) (written-staged m v ∙ sym (take-length-take (v.k + m) content));
      idle = rw (contains-remove (part ∷ s.busy) part part, beq_refl part) refl;
    })

-- The file is there under a path that was free, the staged file is gone, and nothing else changed.
abbrev pub Delivered : List ℕ → List ℕ → List ℕ → Inbox → Option Reply × Inbox → Type 0
Delivered dir name content s (r, s') =
    (r ≡ some no_content)
    × ((dst : List ℕ) × (exists_at dst s.files ≡ false)
        × (lookup dst s'.files ≡ some content)
        × (lookup (part_path dir name (length content)) s'.files ≡ none))

-- A path that no file has is not the staged file's.
free_beside :
    (part dst x : List ℕ) (files : Files)
    → exists_at dst (insert part x files) ≡ false
    → (bytes_beq part dst ≡ false) × (lookup dst files ≡ none)
free_beside part dst x files free = elim (Bool-cases (bytes_beq part dst)) [
  | inl same ↦ let taken : true ≡ false = rw (exists_at, same) at free in cc
  | inr other ↦ (other, absent dst files (rw (exists_at, other) at free))
]

missing : (path : List ℕ) (files : Files) → lookup path files ≡ none → exists_at path files ≡ false
missing path files e = rw (exists_at, e) refl

-- Renaming the staged file to a free path.
rename_lem :
    (part dst x : List ℕ) (files : Files)
    → exists_at dst (insert part x files) ≡ false
    → (lookup dst (rename part dst (insert part x files)) ≡ some x)
      × (lookup part (rename part dst (insert part x files)) ≡ none)
rename_lem part dst x files free =
    let (other, gone) = free_beside part dst x files free in
    let other' : bytes_beq dst part ≡ false =
      ground (arith, other, bytes_beq_iff dst part, bytes_beq_iff part dst) in
    (
      rw (beq_refl dst, beq_refl part) refl,
      rw (other', lookup-delete part part (insert part x files), beq_refl part) refl,
    )

send_parsed_lem :
    {dir name content dst : List ℕ} {s : Inbox} (v : IsStaged dir name content s)
    → (let t = resumed dir name content v.k in
        dedupe_path dir name (written t (drop v.k content) (started t s)).files ≡ some dst)
    → send_parsed dir name content s ≡ (
        let t = resumed dir name content v.k in
        let w = written t (drop v.k content) (started t s) in
        (
          some no_content,
          free_part (part_of t) (record w { files = rename (part_of t) dst w.files }),
        ))
unfolding send_parsed handle_put finish
send_parsed_lem {dir} {name} {content} {dst} {s} v found =
    let t = resumed dir name content v.k in
    let body = drop v.k content in
    let full : v.k + length body ≡ length content =
      omega (arith, length-drop v.k content, v.short) in
    ap (λ (k : ℕ). handle_put (resumed dir name content k) (drop k content) false s)
      (resume_offset-staged v)
    ∙ ap (λ (r : Option Reply × Inbox). begun t body false r) (begin_put-staged v)
    ∙ ap (λ (r : Option Reply × Inbox). received t r) (receive-whole t body (started t s) full)
    ∙ ap (λ (o : Option (List ℕ)). finish_at t o (written t body (started t s))) found

send_parsed-Delivered :
    {dir name content : List ℕ} {s : Inbox}
    → IsStaged dir name content s
    → Delivered dir name content s (send_parsed dir name content s)
send_parsed-Delivered {dir} {name} {content} {s} v =
    let t = resumed dir name content v.k in
    let part = part_of t in
    let opened = create_part part s.files in
    let w = written t (drop v.k content) (started t s) in
    let x = take v.k (contents (lookup part opened)) ++ drop v.k content in
    let is : x ≡ content =
      ap (λ (y : List ℕ). take v.k y ++ drop v.k content)
        (create_part-contents part s.files ∙ v.staged)
      ∙ ap (λ (y : List ℕ). y ++ drop v.k content) (take-take v.k content)
      ∙ take-append-drop v.k content in
    let (dst, found, free) = dedupe_path-free dir name w.files in
    let (other, gone) = free_beside part dst x opened free in
    let (there, moved) = rename_lem part dst x opened free in
    subst (Delivered dir name content s) (sym (send_parsed_lem v found)) (
      refl,
      (
        dst,
        missing dst s.files (sym (create_part-others part dst s.files other) ∙ gone),
        there ∙ ap some is,
        moved,
      ),
    )

-- Attempts that break off after at most these numbers of bytes.
unfoldable pub parsed_attempts : List ℕ → List ℕ → List ℕ → List ℕ → Inbox → Inbox
parsed_attempts dir name content [] s = s
parsed_attempts dir name content (m ∷ ms) s =
    parsed_attempts dir name content ms (parsed_interrupted dir name content m s)

parsed_attempts-IsStaged :
    {dir name content : List ℕ} (ms : List ℕ) {s : Inbox}
    → IsStaged dir name content s
    → IsStaged dir name content (parsed_attempts dir name content ms s)
unfolding parsed_attempts
parsed_attempts-IsStaged [] v = v
parsed_attempts-IsStaged (m ∷ ms) v = parsed_attempts-IsStaged ms (parsed_interrupted-IsStaged m v)

-- The last attempt delivers the file.
pub send_parsed-parsed_attempts :
    {dir name content : List ℕ} {s : Inbox} (ms : List ℕ)
    → IsStaged dir name content s
    → Delivered dir name content
        (parsed_attempts dir name content ms s)
        (send_parsed dir name content (parsed_attempts dir name content ms s))
send_parsed-parsed_attempts ms v = send_parsed-Delivered (parsed_attempts-IsStaged ms v)
