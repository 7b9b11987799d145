-- ===== src/Examples.antt =====
-- Runs of the models on small inputs: tests, and the theorems at concrete arguments.
pub mod Ingest
pub mod Transcripts
pub mod Claude
pub mod Pi
pub mod Prices
pub mod Ticks
pub mod Uploads
pub mod Scans
pub mod Watching
pub mod Serving
pub mod Requests
pub mod Repairs
pub mod Queries
pub mod Sync
pub mod Opencode
pub mod Dsh
pub mod Pages
