-- ===== src/Tests.antt =====
-- The theorems at concrete inputs.
mod Addresses
mod Packets
mod Frames
mod Accounts
mod Access
mod Signals
mod Coordination
mod Keys
mod Transfers
mod Sockets
mod Negotiations
