-- ===== src/Parsers/Pi.antt =====
-- internal/watcher/parsers/pi.go: what one line of a pi transcript yields, and its Scan. What
-- encoding/json and `time.Parse` make of a text is the argument `PiJson`.
pub mod Ids
use token_usage.Prelude.{
  ℕ, suc, ◌+◌, Bool, true, false, not, ◌&&◌, ◌||◌, Option, none, some, List, [], ◌∷◌, ◌++◌, Text,
  codes, nat_beq, ◌==◌, text_eq, trim_suffix, if◌then◌else◌,
}
use token_usage.Prelude.Int.{ℤ, pos}
use token_usage.Types.{UsageRecord, EditRecord}
use token_usage.Parsers.Std.{ScanResult, FileState, File, is_backfill, time_or, content_lines}
use token_usage.Parsers.Lang.{lang_from_path, after_last}
use token_usage.Parsers.Tail.{tail_scan}

pub record PiUsage : Type 0 where
  pub input : ℤ
  pub output : ℤ
  pub cache_read : ℤ
  pub cache_write : ℤ

-- piBlock; `arguments` is the raw JSON text
pub record PiBlock : Type 0 where
  pub kind : Text
  pub id : Text
  pub name : Text
  pub arguments : Text

pub record PiMessage : Type 0 where
  pub role : Text
  pub model : Text
  pub response_id : Text
  pub usage : Option PiUsage
  pub content : List PiBlock

pub record PiLine : Type 0 where
  pub kind : Text
  pub id : Text
  pub timestamp : Text
  pub message : Option PiMessage

pub record PiReplacement : Type 0 where
  pub old_text : Text
  pub new_text : Text

pub record PiEditArgs : Type 0 where
  pub path : Text
  pub content : Text
  pub edits : List PiReplacement

pub record PiJson : Type 0 where
  pub line : Text → Option PiLine
  pub edit_args : Text → Option PiEditArgs
  pub parse_time : Text → ℕ

-- countLines
unfoldable pub count_lines : Text → ℕ
count_lines s = if s == [] then 0 else content_lines s

-- piSessionIDFromFilename
unfoldable pub pi_session_id_from_filename : Text → Text
pi_session_id_from_filename name = after_last b'_' (trim_suffix name (codes ".jsonl")) []

abbrev pub pi_message_id : Text → Text → Text
pi_message_id session_id id = codes "pi_" ++ (session_id ++ (codes "_" ++ id))

-- the counts of an edit call: lines added and removed
unfoldable pub replacement_counts : List PiReplacement → ℕ × ℕ
replacement_counts [] = (0, 0)
replacement_counts (e ∷ es) =
    let rest = replacement_counts es in
    (count_lines e.new_text + rest.0, count_lines e.old_text + rest.1)

-- the switch over the name of a tool
unfoldable pub block_counts : Text → PiEditArgs → ℕ × ℕ
block_counts name args =
    if name == codes "write" then (count_lines args.content, 0) else replacement_counts args.edits

module _ (json : PiJson) (project tool session_id : Text) (cutoff : ℤ) (now : ℕ) where
  -- the message of an assistant's line
  unfoldable pub assistant_message : PiLine → Option PiMessage
  assistant_message raw = elim raw.message [
    | none ↦ none
    | some message ↦
        if raw.kind == codes "message" && message.role == codes "assistant"
        then some message
        else none
  ]

  unfoldable pub message_record : PiLine → PiMessage → Option UsageRecord
  message_record raw message =
      let ts = time_or (json.parse_time raw.timestamp) now in
      elim message.usage [
        | none ↦ none
        | some u ↦
            if raw.id == [] || message.model == []
            then none
            else some (record {
              message_id = pi_message_id session_id raw.id;
              request_id = message.response_id;
              session_id = session_id;
              tool = tool;
              model = message.model;
              timestamp = ts;
              input_tokens = u.input;
              output_tokens = u.output;
              cache_creation_tokens = u.cache_write;
              cache_creation_1h_tokens = pos 0;
              cache_read_tokens = u.cache_read;
              project_path = project;
              backfill = is_backfill cutoff now ts;
            })
      ]

  -- parsePiUsageLine
  unfoldable pub parse_pi_usage_line : Text → Option UsageRecord
  parse_pi_usage_line line = elim (json.line line) [
    | none ↦ none
    | some raw ↦ elim (assistant_message raw) [
      | none ↦ none
      | some message ↦ message_record raw message
    ]
  ]

  abbrev pub pi_edit : PiLine → PiBlock → PiEditArgs → ℕ × ℕ → EditRecord
  pi_edit raw b args n =
      let ts = time_or (json.parse_time raw.timestamp) now in
      record {
        event_id = b.id;
        session_id = session_id;
        tool = tool;
        timestamp = ts;
        lang = lang_from_path args.path;
        lines_added = pos n.0;
        lines_removed = pos n.1;
        project_path = project;
        backfill = is_backfill cutoff now ts;
      }

  -- the body of the loop over the blocks
  unfoldable pub block_edit : PiLine → PiBlock → List EditRecord
  block_edit raw b =
      if not (b.kind == codes "toolCall") || b.id == []
      then []
      else if not (b.name == codes "write") && not (b.name == codes "edit")
      then []
      else elim (json.edit_args b.arguments) [
        | none ↦ []
        | some args ↦
            let n = block_counts b.name args in
            if args.path == []
            then []
            else if nat_beq n.0 0 && nat_beq n.1 0
            then []
            else pi_edit raw b args n ∷ []
      ]

  unfoldable pub block_edits : PiLine → List PiBlock → List EditRecord
  block_edits raw [] = []
  block_edits raw (b ∷ bs) = block_edit raw b ++ block_edits raw bs

  -- parsePiEditLines
  unfoldable pub parse_pi_edit_lines : Text → List EditRecord
  parse_pi_edit_lines line = elim (json.line line) [
    | none ↦ []
    | some raw ↦ elim (assistant_message raw) [
      | none ↦ []
      | some message ↦ block_edits raw message.content
    ]
  ]

  -- the body of the loop of Scan
  unfoldable pub pi_emit : Text → ScanResult
  pi_emit line = record {
    usage = elim (parse_pi_usage_line line) [ some r ↦ r ∷ [] | none ↦ [] ];
    edits = parse_pi_edit_lines line;
  }

-- piParser.Scan of a file that is there and opens, by its base name
unfoldable pub pi_scan :
    PiJson → Text → Text → Text → ℤ → ℕ → File → FileState → ScanResult × FileState × Bool
pi_scan json name project tool cutoff now f prev =
    tail_scan (pi_emit json project tool (pi_session_id_from_filename name) cutoff now) f prev
