-- ===== src/Tests/Frames.antt =====
-- The relay with two connected keys, and the handshake over a box that keeps its message in clear.
use over_mesh.Common.{
  false, ℕ, zero, suc, ◌≡◌, refl, true, arith, some, List, [], ◌∷◌, ◌++◌, ok, length, length-append,
  drop, lookup, bytes_eq, nat_eq,
}
use over_mesh.Relay.Frames.{write_frame, read_frame, read_frame-write_frame}
use over_mesh.Relay.Server.{Server, ServerConn, new_server, register}
use over_mesh.Relay.Server.Registry.{IsValid, Reach, start, next, registers, Reach-IsValid}
use over_mesh.Relay.Server.Forwarding.{Passes, handle_frame-Passes}
use over_mesh.Relay.Handshake.{Box, handshake, authenticate, verify, handshake-authenticate}

abbrev repeat : ℕ → ℕ → List ℕ
repeat zero x = []
repeat (suc n) x = x ∷ repeat n x

hello_write : write_frame 6 (1 ∷ 2 ∷ []) ≡ ok (6 ∷ 0 ∷ 2 ∷ 1 ∷ 2 ∷ [])
unfolding write_frame
hello_write = refl

read_frame-write_frame_example :
    read_frame ((6 ∷ 0 ∷ 2 ∷ 1 ∷ 2 ∷ []) ++ 9 ∷ [])
    ≡ ok (record { typ = 6; body = 1 ∷ 2 ∷ []; rest = 9 ∷ [] })
read_frame-write_frame_example = read_frame-write_frame 6 (1 ∷ 2 ∷ []) (9 ∷ []) hello_write

abbrev key_a : List ℕ
key_a = repeat 32 1

abbrev key_b : List ℕ
key_b = repeat 32 2

abbrev two : Server
two = register key_b (register key_a new_server)

abbrev idle : List ℕ → ServerConn
idle key = record { key = key; sendq = []; live = true; leaving = false }

two-Reach : Reach two
two-Reach = next (next start (registers key_a)) (registers key_b)

two_route : lookup key_b two.conns ≡ some 1
unfolding register
two_route = refl

two_conn : lookup 1 two.objs ≡ some (idle key_b)
unfolding register
two_conn = refl

Reach-IsValid_example : IsValid two
Reach-IsValid_example = Reach-IsValid two-Reach

handle_frame-Passes_example : Passes key_a key_b (5 ∷ 6 ∷ []) 0 1 two
handle_frame-Passes_example =
    handle_frame-Passes 0 1 key_a key_b (5 ∷ 6 ∷ []) two two_route two_conn refl refl refl refl
      (omega arith)

abbrev pad : ℕ → List ℕ → List ℕ
pad zero xs = []
pad (suc n) [] = 0 ∷ pad n []
pad (suc n) (x ∷ xs) = x ∷ pad n xs

length-pad : (n : ℕ) (xs : List ℕ) → length (pad n xs) ≡ n
length-pad zero xs = refl
length-pad (suc n) [] = omega (arith, length-pad n [])
length-pad (suc n) (x ∷ xs) = omega (arith, length-pad n xs)

-- A box that hides nothing: sixteen bytes in front of the message.
abbrev clear_box : Box
clear_box = record {
  public_of = pad 32;
  seal = λ m n pub' priv. repeat 16 0 ++ m;
  open_box = λ c n pub' priv. some (drop 16 c);
  open_box-seal = λ m n priv priv'. refl;
  length-seal = λ m n pub' priv. omega (arith, length-append (repeat 16 0) m);
  length-public_of = λ priv. length-pad 32 priv;
}

abbrev nonce : List ℕ
nonce = repeat 24 7

abbrev claim : List ℕ
claim = pad 32 (3 ∷ []) ++ (repeat 16 0 ++ nonce)

claim_run : verify clear_box (4 ∷ []) nonce 2 claim ≡ ok (pad 32 (3 ∷ []))
unfolding verify
claim_run = refl

handshake-authenticate_example :
    (challenge : List ℕ) × (auth : List ℕ) × (accepted : List ℕ) × (authenticate clear_box
        (3 ∷ [])
        (pad 32 (3 ∷ []))
        (challenge ++ (accepted ++ 5 ∷ []))
      ≡ ok (record { sent = auth; rest = 5 ∷ [] }))
    × (handshake clear_box (4 ∷ []) nonce (auth ++ 6 ∷ [])
        ≡ ok (record { key = pad 32 (3 ∷ []); sent = challenge ++ accepted; rest = 6 ∷ [] }))
handshake-authenticate_example =
    handshake-authenticate clear_box (3 ∷ []) (4 ∷ []) nonce (5 ∷ []) (6 ∷ []) refl
