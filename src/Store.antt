-- ===== src/Store.antt =====
-- internal/store: the tables of the control plane's database, one module for each group of them. A
-- method that writes returns the new table; the one connection of the pool makes each statement one
-- step. The driver's own failures, such as a full disk, are not modelled.
pub mod Users
pub mod Nodes
pub mod Acl
pub mod SetupKeys
pub mod Routes
