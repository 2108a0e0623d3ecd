-- ===== src/Magicsock.antt =====
-- internal/magicsock: the socket that WireGuard, the relay and ICE share (Bind), and the negotiations
-- of direct paths (Manager).
pub mod Bind
pub mod Manager
