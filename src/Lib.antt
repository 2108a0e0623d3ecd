-- ===== src/Lib.antt =====
-- OverMesh: the control plane, the relay, the packet filter and the file transfer of a mesh VPN.
--
-- A coordination server registers devices, gives them overlay addresses and sends each device the
-- access rules that it has to apply to inbound packets. Devices that cannot reach each other send
-- their packets through a relay. The modules follow the packages of the repository:
--
--   Ipam       internal/ipam/ipam.go: the address allocator.
--   Filter     internal/filter/filter.go and internal/wgengine/filtertun.go: the packet filter and
--              the device that applies it.
--   Relay      internal/relay: frames, the server's registry and forwarding, the handshake and the
--              client.
--   Store      internal/store: accounts, devices, routes, setup keys and access rules.
--   Coord      internal/coord: the coordinator's registrations, deletions and netmaps (Engine),
--              hostnames (Names), the access rules compiled for one device (AclCompile), and signals
--              between devices (Signals).
--   Key        internal/key/key.go: the texts of keys.
--   Magicsock  internal/magicsock: the socket that WireGuard, the relay and ICE share (Bind), and the
--              negotiations of direct paths (Manager).
--   Overdrop   internal/overdrop/overdrop.go: the receiver of files and what the sender puts.
--   AdminApi   internal/adminapi/adminapi.go: the handlers of accounts and setup keys, and the
--              sessions.
--   Net        the parts of Go's net/netip that these compute with.
--   Common     tests, lists, maps, tables and texts that the modules share.
--   Tests      the theorems at concrete inputs.
--
-- A struct is a record, and a method that changes it is a function from the old state to the new
-- one. A mutex or a SQL statement makes what it covers one step. Where goroutines run together, as
-- in the relay, the steps are the constructors of a relation (Relay.Server.Registry.Step,
-- Coord.Signals.Channels.Step, Coord.Engine.Reachable.Step, Magicsock.Bind.Lifecycle.Step,
-- Magicsock.Manager.Reachable.Step). A map is an association list, an SQL table the list of its rows
-- with the number of the next row, and an error a value of a data type. Random bytes,
-- clocks and request bodies are arguments, and so are golang.org/x/crypto/bcrypt (Store.Users.Bcrypt),
-- nacl/box (Relay.Handshake.Box) and the text form of net/netip's addresses
-- (Coord.AclCompile.AddrText) and of its prefixes and endpoints (Coord.Engine.Setup). That a datagram
-- is a STUN message, that a text is an address with a port and that a candidate can be used are also
-- tests that the definitions take.
--
-- Three loops are on fuel: that of `AllocateV4`, as much as the prefix has addresses, that of
-- `dedupeHostname`, one turn more than the table has rows, and that of `dedupePath`, one turn more than
-- there are files. Theorems say that this is enough. All other loops go through a list.
--
-- Numbers are natural numbers; where the source has a 16-bit field the remainder is written out.
-- Counters and row numbers are 64-bit in the source and do not wrap in the model.
--
-- Not modelled: sockets, HTTP and gRPC, SQL failures, logging, the engine of the tunnel, the daemon
-- and its command line, ICE and the path that it selects, DNS and the mobile core.
pub mod Common
pub mod Net
pub mod Ipam
pub mod Key
pub mod Filter
pub mod Relay
pub mod Store
pub mod Coord
pub mod Overdrop
pub mod Magicsock
pub mod AdminApi
pub mod Tests
