-- ===== src/Watcher.antt =====
-- internal/watcher and cmd/watcher/cli/run.go: the uploader with its spool, the checkpoint, one tick.
pub mod Upload
pub mod Run
pub mod Scan
pub mod Detect
pub mod Sources
pub mod Start
