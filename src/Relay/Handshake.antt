-- ===== src/Relay/Handshake.antt =====
-- The handshake: `handshake` of internal/relay/server.go and `authenticate` of
-- internal/relay/client.go. nacl/box is a parameter, with what its documentation promises.
use over_mesh.Common.{
  ℕ, ◌+◌, ◌≡◌, refl, Bool, false, not, ◌&&◌, ◌||◌, List, [], ◌++◌, Option, none, some, ltb, nat_beq,
  nat_eq, bytes_eq, bytes_beq, bytes_beq_iff, if◌then◌else◌, length, length-append, take, drop,
  take-prefix, drop-prefix, arith, inl, inr, Result, ok, err, ◌>>=◌, Option-cases,
}
use over_mesh.Relay.Frames.{
  FrameError, Read, frame_challenge, frame_auth, frame_ok, write_frame, write_frame-fits,
  read_frame, read_frame-write_frame,
}

-- golang.org/x/crypto/nacl/box: keys, nonces and messages are byte strings.
pub record Box : Type 0 where
  pub public_of : List ℕ → List ℕ
  -- message, nonce, the peer's public key, one's own private key
  pub seal : List ℕ → List ℕ → List ℕ → List ℕ → List ℕ
  pub open_box : List ℕ → List ℕ → List ℕ → List ℕ → Option (List ℕ)
  -- A box sealed for a key pair opens with its private key and the sealer's public key.
  pub open_box-seal :
      (m n priv priv' : List ℕ)
      → open_box (seal m n (public_of priv') priv) n (public_of priv) priv' ≡ some m
  -- The overhead is 16 bytes.
  pub length-seal : (m n pub' priv : List ℕ) → length (seal m n pub' priv) ≡ length m + 16
  pub length-public_of : (priv : List ℕ) → length (public_of priv) ≡ 32

pub data AuthError : Type 0 where
  frame : FrameError → AuthError
  bad_auth bad_challenge rejected : AuthError

abbrev framed {ℓ} : {A : Type ℓ} → Result FrameError A → Result AuthError A
framed (ok a) = ok a
framed (err e) = err (frame e)

-- The client after the handshake: what it wrote, and what it has not read.
pub record Authenticated : Type 0 where
  pub sent : List ℕ
  pub rest : List ℕ

-- The server after the handshake: the client's key, what it wrote, and what it has not read.
pub record Accepted : Type 0 where
  pub key : List ℕ
  pub sent : List ℕ
  pub rest : List ℕ

finish : List ℕ → Read → Result AuthError Authenticated
finish auth last =
    if not (nat_beq last.typ frame_ok)
    then err rejected
    else ok (record { sent = auth; rest = last.rest })

module _ (box : Box) where
  opened_nonce : Option (List ℕ) → List ℕ → Bool
  opened_nonce none nonce = false
  opened_nonce (some opened) nonce = nat_beq (length opened) 24 && bytes_beq opened nonce

  -- The server's checks on the client's frame.
  unfoldable pub verify : List ℕ → List ℕ → ℕ → List ℕ → Result AuthError (List ℕ)
  unfolding opened_nonce
  verify eph_priv nonce typ body =
      if not (nat_beq typ frame_auth) || ltb (length body) (32 + 16)
      then err bad_auth
      else if opened_nonce (box.open_box (drop 32 body) nonce (take 32 body) eph_priv) nonce
      then ok (take 32 body)
      else err bad_auth

  -- `handshake`, from the server's ephemeral private key, its nonce and the client's bytes.
  unfoldable pub handshake : List ℕ → List ℕ → List ℕ → Result AuthError Accepted
  handshake eph_priv nonce stream = do
    challenge ← framed (write_frame frame_challenge (box.public_of eph_priv ++ nonce))
    r ← framed (read_frame stream)
    key ← verify eph_priv nonce r.typ r.body
    accepted ← framed (write_frame frame_ok [])
    ok (record { key = key; sent = challenge ++ accepted; rest = r.rest })

  -- The client's answer to the server's first frame.
  unfoldable pub answer : List ℕ → List ℕ → ℕ → List ℕ → Result AuthError (List ℕ)
  answer priv pub' typ body =
      if not (nat_beq typ frame_challenge) || not (nat_beq (length body) (32 + 24))
      then err bad_challenge
      else let sealed = box.seal (drop 32 body) (drop 32 body) (take 32 body) priv in
        framed (write_frame frame_auth (pub' ++ sealed))

  -- `authenticate`, from the client's keys and the server's bytes.
  unfoldable pub authenticate : List ℕ → List ℕ → List ℕ → Result AuthError Authenticated
  unfolding finish
  authenticate priv pub' stream = do
    r ← framed (read_frame stream)
    auth ← answer priv pub' r.typ r.body
    last ← framed (read_frame r.rest)
    finish auth last

  -- A key that the server accepts is the first 32 bytes of the client's frame, and the rest of the
  -- frame opens under that key to the nonce of this handshake.
  verify_sound :
      (eph_priv nonce : List ℕ) (typ : ℕ) (body : List ℕ) {key : List ℕ}
      → verify eph_priv nonce typ body ≡ ok key
      → (typ ≡ frame_auth)
        × (key ≡ take 32 body)
        × (box.open_box (drop 32 body) nonce key eph_priv ≡ some nonce)
  unfolding verify
  verify_sound eph_priv nonce typ body {key} e =
      elim (Option-cases (box.open_box (drop 32 body) nonce (take 32 body) eph_priv)) [
        | inl closed ↦ ground (arith, closed)
        | inr (m, opened) ↦ ground (arith, opened, bytes_beq_iff m nonce)
      ]

  verify-answer :
      (priv eph_priv nonce : List ℕ)
      → length nonce ≡ 24
      → verify eph_priv nonce frame_auth
          (box.public_of priv ++ box.seal nonce nonce (box.public_of eph_priv) priv)
        ≡ ok (box.public_of priv)
  unfolding verify
  verify-answer priv eph_priv nonce len =
      let sealed = box.seal nonce nonce (box.public_of eph_priv) priv in
      let pub' = box.public_of priv in
      let pub_len = box.length-public_of priv in
      let long = length-append pub' sealed in
      let seal_len = box.length-seal nonce nonce (box.public_of eph_priv) priv in
      rw
        (
          take-prefix 32 pub' sealed pub_len,
          drop-prefix 32 pub' sealed pub_len,
          box.open_box-seal nonce nonce priv eph_priv,
        )
        (ground (arith, long, seal_len, pub_len, (bytes_beq_iff nonce nonce).1 refl))

  authenticate_run :
      (priv eph_priv nonce later challenge auth accepted : List ℕ)
      → length nonce ≡ 24
      → write_frame frame_challenge (box.public_of eph_priv ++ nonce) ≡ ok challenge
      → write_frame frame_auth
          (box.public_of priv ++ box.seal nonce nonce (box.public_of eph_priv) priv)
        ≡ ok auth
      → write_frame frame_ok [] ≡ ok accepted
      → authenticate priv (box.public_of priv) (challenge ++ (accepted ++ later))
        ≡ ok (record { sent = auth; rest = later })
  unfolding authenticate answer
  authenticate_run priv eph_priv nonce later challenge auth accepted len w1 w2 w3 =
      let eph_pub = box.public_of eph_priv in
      let eph_len = box.length-public_of eph_priv in
      let hello_len = length-append eph_pub nonce in
      let hello_56 : length (eph_pub ++ nonce) ≡ 56 = omega (arith, hello_len, eph_len) in
      let r1 = read_frame-write_frame frame_challenge (eph_pub ++ nonce) (accepted ++ later) w1 in
      let r3 = read_frame-write_frame frame_ok [] later w3 in
      rw (
        r1,
        take-prefix 32 eph_pub nonce eph_len,
        drop-prefix 32 eph_pub nonce eph_len,
        w2,
        hello_56,
        r3,
      )

  handshake_run :
      (priv eph_priv nonce later challenge auth accepted : List ℕ)
      → length nonce ≡ 24
      → write_frame frame_challenge (box.public_of eph_priv ++ nonce) ≡ ok challenge
      → write_frame frame_auth
          (box.public_of priv ++ box.seal nonce nonce (box.public_of eph_priv) priv)
        ≡ ok auth
      → write_frame frame_ok [] ≡ ok accepted
      → handshake eph_priv nonce (auth ++ later)
        ≡ ok (record { key = box.public_of priv; sent = challenge ++ accepted; rest = later })
  unfolding handshake
  handshake_run priv eph_priv nonce later challenge auth accepted len w1 w2 w3 =
      rw (
        w1,
        read_frame-write_frame frame_auth _ later w2,
        verify-answer priv eph_priv nonce len,
        w3,
      )

  -- Both sides finish, on each other's bytes: the client that holds the private key of the public
  -- key that it claims is accepted under that key, and neither side reads past its last frame.
  pub handshake-authenticate :
      (priv eph_priv nonce later later' : List ℕ)
      → length nonce ≡ 24
      → (challenge : List ℕ) × (auth : List ℕ) × (accepted : List ℕ) × (authenticate priv
            (box.public_of priv)
            (challenge ++ (accepted ++ later))
          ≡ ok (record { sent = auth; rest = later }))
        × (handshake eph_priv nonce (auth ++ later')
            ≡ ok (record { key = box.public_of priv; sent = challenge ++ accepted; rest = later' }))
  handshake-authenticate priv eph_priv nonce later later' len =
      let eph_pub = box.public_of eph_priv in
      let pub' = box.public_of priv in
      let eph_len = box.length-public_of eph_priv in
      let pub_len = box.length-public_of priv in
      let hello_len = length-append eph_pub nonce in
      let sealed = box.seal nonce nonce eph_pub priv in
      let seal_len = box.length-seal nonce nonce eph_pub priv in
      let auth_len = length-append pub' sealed in
      let (w, w1) = write_frame-fits frame_challenge (eph_pub ++ nonce) (omega arith) in
      let (w', w2) = write_frame-fits frame_auth (pub' ++ sealed) (omega arith) in
      let (w'', w3) = write_frame-fits frame_ok [] (omega arith) in
      (
        w,
        w',
        w'',
        authenticate_run priv eph_priv nonce later w w' w'' len w1 w2 w3,
        handshake_run priv eph_priv nonce later' w w' w'' len w1 w2 w3,
      )
