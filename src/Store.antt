-- ===== src/Store.antt =====
-- internal/server/store.go: the tables of the server, and the statements that write them.
pub mod Keys
pub mod Rollup
pub mod Usage
pub mod Edits
pub mod Prices
pub mod Repair
pub mod Queries
