-- ===== src/Parsers/Opencode.antt =====
-- internal/watcher/parsers/opencode.go: the usage and the edits in opencode's SQLite database, read behind a
-- watermark. The tables are lists of rows; what encoding/json makes of a row's data is the argument
-- `OpencodeJson`. The times of rows are milliseconds from 1970 on.
pub mod Watermark
pub mod Covered
use Prim.Native.Nat.{max}
use token_usage.Sort.{order_by, text_leb}
use token_usage.Prelude.{
  ℕ, ◌+◌, ◌*◌, ◌≡◌, Bool, true, false, not, ◌&&◌, ◌||◌, Option, none, some, List, [], ◌∷◌, Text,
  text_eq, codes, ◌==◌, keep, take, length, split, trim_suffix, ltb, nat_beq, if◌then◌else◌,
}
use token_usage.Prelude.Int.{ℤ, pos, add64}
use token_usage.Types.{UsageRecord, EditRecord}
use token_usage.Parsers.Std.{unix_milli, ScanResult, FileState, is_backfill}
use token_usage.Parsers.Lang.{lang_from_path, diff_line_counts}

-- A row of `message` or `part` with the directory of its session.
pub record Row : Type 0 where
  pub id : Text
  pub session_id : Text
  pub time_created : ℕ
  pub time_updated : ℕ
  pub blob : Text
  pub directory : Text

pub record OpencodeTokens : Type 0 where
  pub input : ℤ
  pub output : ℤ
  pub reasoning : ℤ
  pub cache_read : ℤ
  pub cache_write : ℤ

pub record OpencodeMessageData : Type 0 where
  pub role : Text
  pub model_id : Text
  pub tokens : Option OpencodeTokens

pub record OpencodePartState : Type 0 where
  pub status : Text
  pub file_path : Text
  pub content : Text
  pub diff : Text

pub record OpencodePartData : Type 0 where
  pub kind : Text
  pub tool : Text
  pub state : Option OpencodePartState

pub record OpencodeJson : Type 0 where
  pub message : Text → Option OpencodeMessageData
  pub part : Text → Option OpencodePartData

-- The database as a scan finds it: `parts` is missing in old versions, `rows_before_error` is how many
-- message rows are read before an error, if there is one.
pub record OpencodeDb : Type 0 where
  pub inode : ℕ
  pub messages : List Row
  pub parts : Option (List Row)
  pub query_fails : Bool
  pub rows_before_error : Option ℕ
  pub parts_fail : Bool

abbrev pub is_zero : ℤ → Bool
is_zero (pos n) = nat_beq n 0
is_zero _ = false

-- the lines added and removed that a tool's state tells of; another tool is no edit
abbrev part_counts : Text → OpencodePartState → Option (ℕ × ℕ)
part_counts name state =
    if name == codes "edit"
    then some (diff_line_counts (split state.diff b'\n'))
    else if name == codes "write"
    then some (
      (if state.content == []
          then 0
          else length (split (trim_suffix state.content (codes "\n")) b'\n')),
      0,
    )
    else none

-- ORDER BY time_updated, id
abbrev is_earlier : Row → Row → Bool
is_earlier a b =
    ltb a.time_updated b.time_updated
    || (nat_beq a.time_updated b.time_updated && text_leb a.id b.id)

-- WHERE time_updated > ?
unfoldable rows_after : ℕ → List Row → List Row
unfolding order_by text_leb
rows_after cursor rows = order_by is_earlier (keep (λ r. ltb cursor r.time_updated) rows)

-- if timeUpdated > maxSeen { maxSeen = timeUpdated }
abbrev max_seen : ℕ → List Row → ℕ
max_seen seen [] = seen
max_seen seen (r ∷ rows) = max_seen (max seen r.time_updated) rows

-- the records of the rows that have one
unfoldable pub collect : {A : Type 0} → (Row → Option A) → List Row → List A
collect convert [] = []
collect convert (r ∷ rows) =
    let rest = collect convert rows in elim (convert r) [ none ↦ rest | some a ↦ a ∷ rest ]

-- where the last scan of this file ended
abbrev cursor_of : FileState → OpencodeDb → ℕ
cursor_of prev db = if nat_beq prev.inode db.inode then prev.offset else 0

module _ (json : OpencodeJson) (tool : Text) (cutoff : ℤ) (now : ℕ) where
  -- `opencodeMessageToRecord`
  unfoldable pub opencode_message_to_record : Row → Option UsageRecord
  opencode_message_to_record row = elim (json.message row.blob) [
    | none ↦ none
    | some d ↦ elim d.tokens [
      | none ↦ none
      | some t ↦
          let total_out = add64 t.output t.reasoning in
          if not (d.role == codes "assistant")
            || (is_zero t.input
                && (is_zero total_out && (is_zero t.cache_read && is_zero t.cache_write)))
          then none
          else some (record {
            message_id = row.id;
            request_id = [];
            session_id = row.session_id;
            tool = tool;
            model = d.model_id;
            timestamp = unix_milli row.time_created;
            input_tokens = t.input;
            output_tokens = total_out;
            cache_creation_tokens = t.cache_write;
            cache_creation_1h_tokens = pos 0;
            cache_read_tokens = t.cache_read;
            project_path = row.directory;
            backfill = is_backfill cutoff now (unix_milli row.time_created);
          })
    ]
  ]

  abbrev pub edit_of : Row → OpencodePartState → ℕ × ℕ → EditRecord
  edit_of row state counts = record {
    event_id = row.id;
    session_id = row.session_id;
    tool = tool;
    timestamp = unix_milli row.time_created;
    lang = lang_from_path state.file_path;
    lines_added = pos counts.0;
    lines_removed = pos counts.1;
    project_path = row.directory;
    backfill = is_backfill cutoff now (unix_milli row.time_created);
  }

  -- `opencodePartToEdit`
  unfoldable pub opencode_part_to_edit : Row → Option EditRecord
  opencode_part_to_edit row = elim (json.part row.blob) [
    | none ↦ none
    | some d ↦ elim d.state [
      | none ↦ none
      | some state ↦
          if not (d.kind == codes "tool")
            || (not (state.status == codes "completed") || state.file_path == [])
          then none
          else elim (part_counts d.tool state) [
            | none ↦ none
            | some counts ↦ some (edit_of row state counts)
          ]
    ]
  ]

  -- `scanOpencodeParts`, if it does not fail
  unfoldable scan_opencode_parts : ℕ → Option (List Row) → List EditRecord × ℕ
  unfolding opencode_part_to_edit rows_after collect
  scan_opencode_parts cursor none = ([], cursor)
  scan_opencode_parts cursor (some rows) = (
    collect opencode_part_to_edit (rows_after cursor rows),
    max_seen cursor (rows_after cursor rows),
  )

  -- Scan of a file that is there: what it found, the new state, and whether it returned without an error.
  -- The two queries are not in one transaction: `db` is the database at the query of message, `later` at
  -- that of part.
  unfoldable pub opencode_scan : FileState → OpencodeDb → OpencodeDb → ScanResult × FileState × Bool
  unfolding opencode_message_to_record scan_opencode_parts
  opencode_scan prev db later =
      let cursor = cursor_of prev db in
      let found = rows_after cursor db.messages in
      let state : ℕ → FileState = λ offset. record { inode = db.inode; offset = offset } in
      let usage = collect opencode_message_to_record found in
      let seen = max_seen cursor found in
      let parts = scan_opencode_parts cursor later.parts in
      if db.query_fails
      then (record { usage = []; edits = [] }, state cursor, false)
      else elim db.rows_before_error [
        | some n ↦ (
          record { usage = collect opencode_message_to_record (take n found); edits = [] },
          state (max_seen cursor (take n found)),
          false,
        )
        | none ↦
            if later.parts_fail
            then (record { usage = usage; edits = [] }, state seen, false)
            else (record { usage = usage; edits = parts.0 }, state (max seen parts.1), true)
      ]
