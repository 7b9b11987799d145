-- ===== src/Parsers/DeepseekHarness.antt =====
-- internal/watcher/parsers/deepseekharness.go: the event log of a session. What encoding/json makes of a text
-- is the argument `DshJson`, and the decompression of a file is `zstd`: the bytes up to the end or to an
-- error, and whether it was the end. The times of events are milliseconds from 1970 on.
pub mod Pending
use token_usage.Prelude.{
  ℕ, ◌≡◌, Bool, true, false, not, ◌&&◌, ◌||◌, Option, none, some, List, [], ◌∷◌, ◌++◌, keep, Text,
  text_eq, codes, ◌==◌, nat_beq, ltb, if◌then◌else◌,
}
use token_usage.Prelude.Int.{ℤ, pos}
use token_usage.Table.{lookup, alter}
use token_usage.Types.{UsageRecord, EditRecord}
use token_usage.Parsers.Std.{ScanResult, FileState, File, lines_of, is_backfill, unix_milli}
use token_usage.Parsers.Lang.{lang_from_path}
use token_usage.Parsers.Pi.{count_lines}

-- `payload` is the raw JSON of the field `data`.
pub record DshEvent : Type 0 where
  pub kind : Text
  pub time : ℕ
  pub payload : Text

pub record DshSession : Type 0 where
  pub id : Text
  pub cwd : Text

pub record DshUsage : Type 0 where
  pub input_tokens : ℤ
  pub output_tokens : ℤ
  pub cache_read_tokens : ℤ
  pub cache_write_tokens : ℤ

pub record DshAssistantMessage : Type 0 where
  pub id : Text
  pub model : Text
  pub usage : Option DshUsage

pub record DshToolCall : Type 0 where
  pub call_id : Text
  pub name : Text
  pub arguments : Text

-- `failed` is isError, or that there is an error.
pub record DshToolResult : Type 0 where
  pub tool_call_id : Text
  pub failed : Bool

pub record DshEditArgs : Type 0 where
  pub file_path : Text
  pub content : Text
  pub old_string : Text
  pub new_string : Text

-- `session` reads into a value that is there, and may leave fields of it as they are.
pub record DshJson : Type 0 where
  pub event : Text → Option DshEvent
  pub session : Text → DshSession → DshSession
  pub assistant_message : Text → Option DshAssistantMessage
  pub tool_call : Text → Option DshToolCall
  pub tool_result : Text → Option DshToolResult
  pub edit_args : Text → Option DshEditArgs

pub record DshPendingEdit : Type 0 where
  pub ts : ℕ
  pub path : Text
  pub added : ℕ
  pub removed : ℕ

-- What the loop of `parseDeepseekHarnessFile` keeps.
pub record DshState : Type 0 where
  pub session : DshSession
  pub pending : List (Text × DshPendingEdit)
  pub usage : List UsageRecord
  pub edits : List EditRecord

-- delete(pending, id)
abbrev delete_pending : Text → List (Text × DshPendingEdit) → List (Text × DshPendingEdit)
delete_pending id pending = keep (λ row. not (row.0 == id)) pending

abbrev pending_edit : ℕ → Text → DshEditArgs → DshPendingEdit
pending_edit ts name args =
    if name == codes "write"
    then record { ts = ts; path = args.file_path; added = count_lines args.content; removed = 0 }
    else record {
      ts = ts;
      path = args.file_path;
      added = count_lines args.new_string;
      removed = count_lines args.old_string;
    }

module _ (json : DshJson) where
  -- the edit that a call asks for, and its id
  unfoldable call_edit : ℕ → Text → Option (Text × DshPendingEdit)
  unfolding count_lines
  call_edit ts payload = elim (json.tool_call payload) [
    | none ↦ none
    | some c ↦
        if c.call_id == [] || not (c.name == codes "write" || c.name == codes "edit")
        then none
        else elim (json.edit_args c.arguments) [
          | none ↦ none
          | some args ↦
              let p = pending_edit ts c.name args in
              if args.file_path == [] || not (ltb 0 p.added || ltb 0 p.removed)
              then none
              else some (c.call_id, p)
        ]
  ]

  module _ (tool : Text) (cutoff : ℤ) (now : ℕ) where
    abbrev pub message_record : DshSession → ℕ → DshAssistantMessage → DshUsage → UsageRecord
    message_record session ts m u = record {
      message_id = codes "dsh_" ++ (session.id ++ (codes "_" ++ m.id));
      request_id = [];
      session_id = session.id;
      tool = tool;
      model = m.model;
      timestamp = ts;
      input_tokens = u.input_tokens;
      output_tokens = u.output_tokens;
      cache_creation_tokens = u.cache_write_tokens;
      cache_creation_1h_tokens = pos 0;
      cache_read_tokens = u.cache_read_tokens;
      project_path = session.cwd;
      backfill = is_backfill cutoff now ts;
    }

    abbrev pub edit_record : DshSession → Text → DshPendingEdit → EditRecord
    edit_record session id p = record {
      event_id = id;
      session_id = session.id;
      tool = tool;
      timestamp = p.ts;
      lang = lang_from_path p.path;
      lines_added = pos p.added;
      lines_removed = pos p.removed;
      project_path = session.cwd;
      backfill = is_backfill cutoff now p.ts;
    }

    -- case "assistant/message"
    unfoldable on_message : ℕ → Text → DshState → DshState
    on_message ts payload st = elim (json.assistant_message payload) [
      | none ↦ st
      | some m ↦ elim m.usage [
        | none ↦ st
        | some u ↦
            if m.id == [] || m.model == []
            then st
            else record st { usage = st.usage ++ message_record st.session ts m u ∷ [] }
      ]
    ]

    -- case "tool/call"
    unfoldable on_call : ℕ → Text → DshState → DshState
    unfolding call_edit
    on_call ts payload st = elim (call_edit ts payload) [
      | none ↦ st
      | some (id, p) ↦ record st { pending = alter id (λ _. p) st.pending }
    ]

    -- case "tool/result"
    unfoldable on_result : Text → DshState → DshState
    on_result payload st = elim (json.tool_result payload) [
      | none ↦ st
      | some r ↦ elim (lookup r.tool_call_id st.pending) [
        | none ↦ st
        | some p ↦
            let settled = record st { pending = delete_pending r.tool_call_id st.pending } in
            if r.failed
            then settled
            else record settled { edits = st.edits ++ edit_record st.session r.tool_call_id p ∷ [] }
      ]
    ]

    abbrev event_time : DshEvent → ℕ
    event_time ev = if nat_beq ev.time 0 then now else unix_milli ev.time

    -- one line of the log
    unfoldable pub dsh_line : Text → DshState → DshState
    unfolding on_message on_call on_result
    dsh_line line st = elim (json.event line) [
      | none ↦ st
      | some ev ↦
          if ev.kind == codes "session"
          then record st { session = json.session line st.session }
          else if ev.kind == codes "assistant/message"
          then on_message (event_time ev) ev.payload st
          else if ev.kind == codes "tool/call"
          then on_call (event_time ev) ev.payload st
          else if ev.kind == codes "tool/result"
          then on_result ev.payload st
          else st
    ]

    unfoldable pub dsh_lines : List Text → DshState → DshState
    unfolding dsh_line
    dsh_lines [] st = st
    dsh_lines (line ∷ lines) st = dsh_lines lines (dsh_line line st)

    abbrev dsh_start : DshState
    dsh_start = record {
      session = record { id = []; cwd = [] };
      pending = [];
      usage = [];
      edits = [];
    }

    -- `parseDeepseekHarnessFile`, and whether it returned without an error
    unfoldable parse_deepseek_harness_file : Text × Bool → ScanResult × Bool
    unfolding dsh_lines lines_of
    parse_deepseek_harness_file (content, complete) =
        let st = dsh_lines (lines_of content) dsh_start in
        (record { usage = st.usage; edits = st.edits }, complete)

    -- Scan of a file that is there
    unfoldable dsh_scan : (Text → Text × Bool) → FileState → File → ScanResult × FileState × Bool
    unfolding parse_deepseek_harness_file
    dsh_scan zstd prev f =
        let state : FileState = record { inode = f.inode; offset = f.size } in
        if nat_beq prev.inode f.inode && nat_beq prev.offset f.size
        then (record { usage = []; edits = [] }, state, true)
        else let parsed = parse_deepseek_harness_file (zstd f.content) in
          (parsed.0, state, parsed.1)
