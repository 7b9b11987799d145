-- ===== src/Parsers.antt =====
-- internal/watcher/parsers: one transcript file to usage records and edit records.
pub mod Std
pub mod Numbers
pub mod Lines
pub mod Lang
pub mod Tail
pub mod Claude
pub mod Pi
pub mod Codex
pub mod Opencode
pub mod DeepseekHarness
