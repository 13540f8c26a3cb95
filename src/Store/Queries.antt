-- ===== src/Store/Queries.antt =====
-- The queries, a module for each file of db/queries. The locks (`pg_advisory_xact_lock`) make the
-- transactions that take them run one after another, which is how the model runs all of them.
pub mod Admins
pub mod Pairing
pub mod Events
pub mod Operations
pub mod Users
pub mod Vpn
