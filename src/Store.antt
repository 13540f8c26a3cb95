-- ===== src/Store.antt =====
-- The database: its rows, and the queries of db/queries as internal/dbgen runs them.
pub mod Table
pub mod Rows
pub mod Tx
pub mod Queries
