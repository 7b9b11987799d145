-- ===== src/Server.antt =====
-- internal/server beside the tables of store.go: keys, the handlers of the API, and the prices that are
-- fetched.
pub mod Auth
pub mod Ingest
pub mod Dashboard
pub mod Admin
pub mod PriceSync
pub mod Pricer
pub mod Worker
pub mod System
