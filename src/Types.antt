-- ===== src/Types.antt =====
-- internal/types/types.go: what travels from a watcher to the server. A string is a list of bytes; a
-- time is a number of nanoseconds since Go's zero time, so that 0 is the time for which `IsZero`
-- holds; a token count is the integer that an `int64` stands for.
use token_usage.Prelude.{ℕ, Bool, List, Text}
use token_usage.Prelude.Int.{ℤ}

pub record UsageRecord : Type 0 where
  pub message_id : Text
  pub request_id : Text
  pub session_id : Text
  pub tool : Text
  pub model : Text
  pub timestamp : ℕ
  pub input_tokens : ℤ
  pub output_tokens : ℤ
  pub cache_creation_tokens : ℤ
  pub cache_creation_1h_tokens : ℤ
  pub cache_read_tokens : ℤ
  pub project_path : Text
  pub backfill : Bool

pub record EditRecord : Type 0 where
  pub event_id : Text
  pub session_id : Text
  pub tool : Text
  pub timestamp : ℕ
  pub lang : Text
  pub lines_added : ℤ
  pub lines_removed : ℤ
  pub project_path : Text
  pub backfill : Bool

pub record IngestRequest : Type 0 where
  pub machine_id : Text
  pub records : List UsageRecord
  pub edits : List EditRecord

pub record IngestResponse : Type 0 where
  pub accepted : ℕ
  pub duplicates : ℕ
  pub edits_accepted : ℕ
  pub edits_duplicates : ℕ
