-- ===== src/Relay.antt =====
-- internal/relay: the OMR relay. Frames are in Frames, the server's registry and forwarding in
-- Server, the handshake of both sides in Handshake, and the client in Client.
pub mod Frames
pub mod Server
pub mod Handshake
pub mod Client
