-- ===== src/Coord.antt =====
-- internal/coord: the coordination engine. AclCompile is aclcompile.go, Signals is
-- signal.go, and Names is about the hostnames of coord.go.
pub mod AclCompile
pub mod Names
pub mod Signals
pub mod Engine
