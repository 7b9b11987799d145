-- ===== src/Parsers/Codex.antt =====
-- internal/watcher/parsers/codex.go, a file for each part of it.
pub mod Patch
pub mod Script
pub mod Output
pub mod State
pub mod Emit
pub mod Tokens
pub mod Session
pub mod Literals
pub mod Envelope
