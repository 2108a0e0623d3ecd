-- ===== src/Relay/Frames.antt =====
-- internal/relay/frames.go: the framing of the relay's stream. A stream is the list of the bytes
-- that have not been read; it ends where the connection does.
use over_mesh.Common.{
  ℕ, ◌+◌, ◌*◌, ◌/◌, ◌%◌, ◌^◌, ◌≤◌, ◌<◌, ◌≡◌, refl, List, ◌∷◌, ◌++◌, arith, ltb, if◌then◌else◌,
  length, take, drop, take-append_length, take-append-drop, drop-append_length, length-append,
  length-take, Result, ok, err, All, Bool-cases, inl, inr,
}

pub data FrameError : Type 0 where
  too_large oversized closed : FrameError

abbrev pub frame_challenge : ℕ
frame_challenge = 0x01

abbrev pub frame_auth : ℕ
frame_auth = 0x02

abbrev pub frame_ok : ℕ
frame_ok = 0x03

abbrev pub frame_send : ℕ
frame_send = 0x04

abbrev pub frame_recv : ℕ
frame_recv = 0x05

abbrev pub frame_ping : ℕ
frame_ping = 0x06

abbrev pub frame_pong : ℕ
frame_pong = 0x07

abbrev pub max_frame_len : ℕ
max_frame_len = 4096

-- What is written on a connection that takes every write.
unfoldable pub write_frame : ℕ → List ℕ → Result FrameError (List ℕ)
write_frame typ body =
    if ltb max_frame_len (length body)
    then err too_large
    else let len = length body % 2 ^ 16 in ok (typ ∷ len / 256 ∷ len % 256 ∷ body)

-- A frame as it is read, and the stream behind it.
pub record Read : Type 0 where
  pub typ : ℕ
  pub body : List ℕ
  pub rest : List ℕ

-- `io.ReadFull` of `n` bytes fails if the stream has fewer.
abbrev read_body : ℕ → ℕ → List ℕ → Result FrameError Read
read_body typ n stream =
    if ltb max_frame_len n
    then err oversized
    else if ltb (length stream) n
    then err closed
    else ok (record { typ = typ; body = take n stream; rest = drop n stream })

unfoldable pub read_frame : List ℕ → Result FrameError Read
read_frame (typ ∷ hi ∷ lo ∷ stream) = read_body typ (hi * 256 + lo) stream
read_frame _ = err closed

read_body-append :
    (typ n : ℕ) (body rest : List ℕ)
    → n ≡ length body
    → n ≤ max_frame_len
    → read_body typ n (body ++ rest) ≡ ok (record { typ = typ; body = body; rest = rest })
read_body-append typ n body rest e short =
    rw (e, take-append_length, drop-append_length) (ground (arith, length-append body rest))

read_body-eq-ok :
    (typ n : ℕ) (stream : List ℕ) {f : Read}
    → read_body typ n stream ≡ ok f
    → (n ≤ max_frame_len)
      × (n ≤ length stream)
      × (f ≡ record { typ = typ; body = take n stream; rest = drop n stream })
read_body-eq-ok typ n stream e = ground arith

-- What was written is read back, with what follows it left in the stream.
pub read_frame-write_frame :
    (typ : ℕ) (body rest : List ℕ) {w : List ℕ}
    → write_frame typ body ≡ ok w
    → read_frame (w ++ rest) ≡ ok (record { typ = typ; body = body; rest = rest })
unfolding write_frame read_frame
read_frame-write_frame typ body rest {w} e =
    let split : length body % 2 ^ 16 / 256 * 256 + length body % 2 ^ 16 % 256
        ≡ length body % 2 ^ 16 =
      omega arith in
    elim (Bool-cases (ltb max_frame_len (length body))) [
      | inl long ↦ cc (rw long at e)
      | inr short ↦
          let w_is : w ≡ typ ∷ length body % 2 ^ 16 / 256 ∷ length body % 2 ^ 16 % 256 ∷ body =
            ground arith in
          rw w_is (read_body-append typ _ body rest (ground arith) (ground arith))
    ]

pub write_frame-fits :
    (typ : ℕ) (body : List ℕ)
    → length body ≤ max_frame_len
    → (w : List ℕ) × (write_frame typ body ≡ ok w)
unfolding write_frame
write_frame-fits typ body fits =
    (typ ∷ length body % 2 ^ 16 / 256 ∷ length body % 2 ^ 16 % 256 ∷ body, ground arith)

-- Whatever is read from a stream of bytes is what the writer would have put there.
write_frame-read_frame :
    (stream : List ℕ) {f : Read}
    → All (λ b. b < 256) stream
    → read_frame stream ≡ ok f
    → (w : List ℕ) × (write_frame f.typ f.body ≡ ok w) × (stream ≡ w ++ f.rest)
unfolding write_frame read_frame
write_frame-read_frame (typ ∷ hi ∷ lo ∷ stream) {f} bytes e =
    let (small, there, is) = read_body-eq-ok typ (hi * 256 + lo) stream e in
    let n_is : length (take (hi * 256 + lo) stream) ≡ hi * 256 + lo =
      omega (arith, length-take (hi * 256 + lo) stream) in
    let back : take (hi * 256 + lo) stream ++ drop (hi * 256 + lo) stream ≡ stream =
      take-append-drop (hi * 256 + lo) stream in
    (
      typ ∷ hi ∷ lo ∷ take (hi * 256 + lo) stream,
      rw is (ground (arith, bytes.1.0, bytes.1.1.0)),
      rw (is, back) refl,
    )
write_frame-read_frame _ bytes e = cc
