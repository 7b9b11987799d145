-- ===== src/Parsers/Claude.antt =====
-- internal/watcher/parsers/claudecode.go: what one line of a Claude Code transcript yields, and its Scan.
-- What encoding/json and `time.Parse` make of a text is the argument `ClaudeJson`.
pub mod Emit
pub mod Ids
use token_usage.Prelude.{
  ℕ, suc, ◌+◌, Bool, true, false, not, ◌&&◌, ◌||◌, Option, none, some, List, [], ◌∷◌, ◌++◌, Text,
  codes, nat_beq, ◌==◌, text_eq, if◌then◌else◌,
}
use token_usage.Prelude.Int.{ℤ, pos, negsuc, ltb_ℤ}
use token_usage.Types.{UsageRecord, EditRecord}
use token_usage.Parsers.Std.{ScanResult, FileState, File, is_backfill, time_or, itoa, content_lines}
use token_usage.Parsers.Lang.{lang_from_path, diff_line_counts}
use token_usage.Parsers.Tail.{tail_scan}

pub record RawUsage : Type 0 where
  pub input : ℤ
  pub output : ℤ
  pub cache_creation : ℤ
  pub cache_read : ℤ
  pub ephemeral_1h : ℤ

pub record RawMessage : Type 0 where
  pub id : Text
  pub model : Text
  pub usage : Option RawUsage

-- rawLine; `tool_use_result` is the raw JSON text
pub record RawLine : Type 0 where
  pub kind : Text
  pub session_id : Text
  pub timestamp : Text
  pub request_id : Text
  pub uuid : Text
  pub message : Option RawMessage
  pub tool_use_result : Text

-- a file of bashEditDiff; a hunk is its lines
pub record BashFile : Type 0 where
  pub file_path : Text
  pub hunks : List (List Text)

pub record RawToolResult : Type 0 where
  pub kind : Text
  pub file_path : Text
  pub content : Text
  pub structured_patch : List (List Text)
  pub bash_edit_diff : Option (List BashFile)

pub record ClaudeJson : Type 0 where
  pub line : Text → Option RawLine
  pub tool_result : Text → Option RawToolResult
  pub parse_time : Text → ℕ

-- clampTo
unfoldable pub clamp_to : ℤ → ℤ → ℤ
clamp_to v max = if ltb_ℤ v (pos 0) then pos 0 else if ltb_ℤ max v then max else v

-- the counts of the hunks, added up
unfoldable pub hunk_counts : List (List Text) → ℕ × ℕ
hunk_counts [] = (0, 0)
hunk_counts (h ∷ hs) =
    let n = diff_line_counts h in let rest = hunk_counts hs in (n.0 + rest.0, n.1 + rest.1)

-- raw.ToolUseResult[0] == '{'
abbrev pub is_object : Text → Bool
is_object [] = false
is_object (a ∷ s) = nat_beq a b'{'

module _ (json : ClaudeJson) (project tool : Text) (cutoff : ℤ) (now : ℕ) where
  abbrev usage_of : RawLine → RawMessage → RawUsage → UsageRecord
  usage_of raw message u =
      let ts = time_or (json.parse_time raw.timestamp) now in
      record {
        message_id = message.id;
        request_id = raw.request_id;
        session_id = raw.session_id;
        tool = tool;
        model = message.model;
        timestamp = ts;
        input_tokens = u.input;
        output_tokens = u.output;
        cache_creation_tokens = u.cache_creation;
        cache_creation_1h_tokens = clamp_to u.ephemeral_1h u.cache_creation;
        cache_read_tokens = u.cache_read;
        project_path = project;
        backfill = is_backfill cutoff now ts;
      }

  -- parseClaudeCodeLine behind the decoded message
  unfoldable pub message_usage : RawLine → Option RawMessage → Option UsageRecord
  message_usage raw none = none
  message_usage raw (some message) = elim message.usage [
    | none ↦ none
    | some u ↦
        if message.id == [] || message.model == codes "<synthetic>"
        then none
        else some (usage_of raw message u)
  ]

  -- parseClaudeCodeLine
  unfoldable pub parse_claude_code_line : Text → Option UsageRecord
  parse_claude_code_line line = elim (json.line line) [
    | none ↦ none
    | some raw ↦ if raw.kind == codes "assistant" then message_usage raw raw.message else none
  ]

  -- the function `rec` of parseClaudeCodeEditLines
  abbrev pub edit_of : RawLine → Text → Text → ℕ → ℕ → EditRecord
  edit_of raw event_id path added removed =
      let ts = time_or (json.parse_time raw.timestamp) now in
      record {
        event_id = event_id;
        session_id = raw.session_id;
        tool = tool;
        timestamp = ts;
        lang = lang_from_path path;
        lines_added = pos added;
        lines_removed = pos removed;
        project_path = project;
        backfill = is_backfill cutoff now ts;
      }

  -- the switch for a result with a file path
  unfoldable pub file_edit : RawLine → RawToolResult → List EditRecord
  file_edit raw tr = elim tr.structured_patch [
    | h ∷ hs ↦ let n = hunk_counts (h ∷ hs) in edit_of raw raw.uuid tr.file_path n.0 n.1 ∷ []
    | [] ↦
        if (tr.kind == codes "create" || tr.kind == codes "update") && not (tr.content == [])
        then edit_of raw raw.uuid tr.file_path (content_lines tr.content) 0 ∷ []
        else []
  ]

  -- the loop over the files of a bash edit, from the file `i` on
  unfoldable pub bash_edits : RawLine → ℕ → List BashFile → List EditRecord
  bash_edits raw i [] = []
  bash_edits raw i (f ∷ fs) =
      let rest = bash_edits raw (suc i) fs in
      let n = hunk_counts f.hunks in
      if f.file_path == []
      then rest
      else if nat_beq n.0 0 && nat_beq n.1 0
      then rest
      else edit_of raw (raw.uuid ++ (codes "#" ++ itoa i)) f.file_path n.0 n.1 ∷ rest

  unfoldable pub result_edits : RawLine → RawToolResult → List EditRecord
  result_edits raw tr =
      if not (tr.file_path == [])
      then file_edit raw tr
      else elim tr.bash_edit_diff [ none ↦ [] | some fs ↦ bash_edits raw 0 fs ]

  -- parseClaudeCodeEditLines
  unfoldable pub parse_claude_code_edit_lines : Text → List EditRecord
  parse_claude_code_edit_lines line = elim (json.line line) [
    | none ↦ []
    | some raw ↦
        if not (raw.kind == codes "user") || (raw.uuid == [] || not (is_object raw.tool_use_result))
        then []
        else elim (json.tool_result raw.tool_use_result) [
          | none ↦ []
          | some tr ↦ result_edits raw tr
        ]
  ]

  -- the body of the loop of Scan: a usage record, or else the edits of the line
  unfoldable pub claude_emit : Text → ScanResult
  claude_emit line = elim (parse_claude_code_line line) [
    | some r ↦ record { usage = r ∷ []; edits = [] }
    | none ↦ record { usage = []; edits = parse_claude_code_edit_lines line }
  ]

  -- claudeCodeParser.Scan of a file that is there and opens
  unfoldable pub claude_scan : File → FileState → ScanResult × FileState × Bool
  claude_scan f prev = tail_scan claude_emit f prev
