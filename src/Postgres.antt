-- ===== src/Postgres.antt =====
-- adapters/postgres: the repositories. Each method takes the answers of the world to it: whether the
-- database link holds (`Link`), the time, and the UUIDs that `id.NewUUID` gives it, `none` where the
-- source of randomness fails.
pub mod Users
pub mod Vpn
pub mod Access
pub mod Admins
