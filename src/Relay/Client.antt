-- ===== src/Relay/Client.antt =====
-- internal/relay/client.go: what the client sends, what it delivers, and its waits between sessions.
pub mod Backoff
use over_mesh.Common.{
  ℕ, ◌+◌, Bool, true, false, not, List, ◌++◌, Option, none, some, Result, ok, err, ltb, nat_beq,
  if◌then◌else◌, length, take, drop,
}
use over_mesh.Relay.Frames.{FrameError, frame_send, frame_recv, write_frame}

pub data SendError : Type 0 where
  not_connected : SendError
  frame : FrameError → SendError

abbrev written : Result FrameError (List ℕ) → Result SendError (List ℕ)
written (ok w) = ok w
written (err e) = err (frame e)

-- `Send`: the bytes that go on the connection. `up` and `conn` are read under one lock, and `conn`
-- again under a second one, before the write.
unfoldable pub send : Bool → Bool → Bool → List ℕ → List ℕ → Result SendError (List ℕ)
send up conn conn_later dst payload =
    if not up
    then err not_connected
    else if not conn
    then err not_connected
    else if not conn_later
    then err not_connected
    else written (write_frame frame_send (dst ++ payload))

-- The `switch` of the session's read loop: what is handed to `onPacket`.
unfoldable pub deliver : ℕ → List ℕ → Option (List ℕ × List ℕ)
deliver typ body =
    if nat_beq typ frame_recv
    then (if ltb (length body) 32 then none else some (take 32 body, drop 32 body))
    else none
