-- ===== src/Parsers/Codex/Emit.antt =====
-- internal/watcher/parsers/codex.go: `emitCodexLine`, `addPatchApplyEnd`, `result`, `parseCodexFile` and
-- `Scan`.
use token_usage.Prelude.{
  ℕ, suc, ◌-◌, Bool, true, false, not, ◌&&◌, ◌||◌, Option, none, some, List, [], ◌∷◌, ◌++◌, Text,
  codes, leb, nat_beq, ◌==◌, text_eq, length, drop, split, trim_suffix, if◌then◌else◌,
}
use token_usage.Prelude.Int.{ℤ, pos}
use token_usage.Types.{UsageRecord, EditRecord}
use token_usage.Parsers.Std.{
  ScanResult, FileState, File, is_backfill, time_or, itoa, join, content_lines, lines_of,
}
use token_usage.Parsers.Lang.{lang_from_path, diff_line_counts}
use token_usage.Parsers.Codex.Patch.{FilePatch, parse_apply_patch}
use token_usage.Parsers.Codex.Script.{codex_patch_envelopes}
use token_usage.Parsers.Codex.Output.{codex_output_text, codex_output_succeeded}
use token_usage.Parsers.Codex.State.{
  CodexLine, CodexTokens, CodexChange, Json, PatchCall, CodexScanState, Delta, member, token_delta,
}

-- `sessionIDFromFilename`
unfoldable pub session_id_from_filename : Text → Text
unfolding trim_suffix split join
session_id_from_filename name =
    let parts = split (trim_suffix name (codes ".jsonl")) b'-' in
    if leb 5 (length parts)
    then join (drop (length parts - 5) parts) (codes "-")
    else trim_suffix name (codes ".jsonl")

-- the files of all envelopes of a call
unfoldable pub envelope_files : List Text → List FilePatch
unfolding parse_apply_patch
envelope_files [] = []
envelope_files (env ∷ envs) = parse_apply_patch env ++ envelope_files envs

unfoldable pub has_call : Text → List PatchCall → Bool
has_call id [] = false
has_call id (p ∷ ps) = if p.call_id == id then true else has_call id ps

-- the path under which an update is counted
abbrev pub moved_path : Text → Option Text → Text
moved_path path none = path
moved_path path (some new) = if new == [] then path else new

-- the switch of `addPatchApplyEnd`; `none` is its `continue`
unfoldable pub change_files : CodexChange → Option FilePatch
unfolding content_lines diff_line_counts split
change_files c =
    if c.kind == codes "add"
    then some (record { path = c.path; added = content_lines c.content; removed = 0 })
    else if c.kind == codes "update"
    then some (record {
      path = moved_path c.path c.move_path;
      added = (diff_line_counts (split c.unified_diff b'\n')).0;
      removed = (diff_line_counts (split c.unified_diff b'\n')).1;
    })
    else none

unfoldable pub changes_files : List CodexChange → List FilePatch
unfolding change_files
changes_files [] = []
changes_files (c ∷ cs) =
    let rest = changes_files cs in elim (change_files c) [ some f ↦ f ∷ rest | none ↦ rest ]

-- if len(files) > 0 { st.patches = append(...) }
abbrev pub add_patch : Text → Text → List FilePatch → CodexScanState → CodexScanState
add_patch id ts [] st = st
add_patch id ts (f ∷ fs) st = record st {
  patches = st.patches ++ record { call_id = id; ts = ts; files = f ∷ fs } ∷ [];
}

abbrev pub confirm : Text → CodexScanState → CodexScanState
confirm id st = record st { patch_ok = id ∷ st.patch_ok }

abbrev pub no_tokens : CodexTokens
no_tokens = record {
  input_tokens = pos 0;
  cached_input_tokens = pos 0;
  output_tokens = pos 0;
  reasoning_output_tokens = pos 0;
}

-- the state at the start of a file
abbrev pub start : Text → Text → CodexScanState
start session project = record {
  session_id = session;
  model = [];
  project = project;
  prev = no_tokens;
  usage = [];
  patches = [];
  patch_ok = [];
}

module _ (json : Json) (tool : Text) (cutoff : ℤ) (now : ℕ) where
  -- `addPatchApplyEnd`
  unfoldable pub add_patch_apply_end : CodexLine → CodexScanState → CodexScanState
  add_patch_apply_end l st = elim (json.patch_apply_end l.payload) [
    | none ↦ st
    | some ev ↦
        if not ev.success || ev.call_id == []
        then st
        else if has_call ev.call_id st.patches
        then st
        else (elim (changes_files ev.changes) [
          | [] ↦ st
          | f ∷ fs ↦ confirm ev.call_id (add_patch ev.call_id l.timestamp (f ∷ fs) st)
        ])
  ]

  -- the record that a token_count event appends
  unfoldable pub usage_record : CodexLine → CodexScanState → Delta → UsageRecord
  usage_record l st d =
      let ts = time_or (json.parse_time l.timestamp) now in
      record {
        message_id = codes "cdx_" ++ (st.session_id ++ (codes "_" ++ l.timestamp));
        request_id = [];
        session_id = st.session_id;
        tool = tool;
        model = st.model;
        timestamp = ts;
        input_tokens = d.uncached;
        output_tokens = d.output;
        cache_creation_tokens = pos 0;
        cache_creation_1h_tokens = pos 0;
        cache_read_tokens = d.cached;
        project_path = st.project;
        backfill = is_backfill cutoff now ts;
      }

  -- the token_count branch: the totals of the event over those of the last one
  unfoldable pub emit_tokens : CodexLine → CodexTokens → CodexScanState → CodexScanState
  emit_tokens l t st = elim (token_delta st.prev t) [
    | none ↦ st
    | some d ↦ record st { prev = t; usage = st.usage ++ usage_record l st d ∷ [] }
  ]

  unfoldable pub emit_event_msg : CodexLine → CodexScanState → CodexScanState
  emit_event_msg l st = elim (json.token_count l.payload) [
    | none ↦ st
    | some tc ↦
        if tc.kind == codes "patch_apply_end"
        then add_patch_apply_end l st
        else if tc.kind == codes "token_count"
        then (elim tc.total [ none ↦ st | some t ↦ emit_tokens l t st ])
        else st
  ]

  unfoldable pub emit_response_item : CodexLine → CodexScanState → CodexScanState
  emit_response_item l st = elim (json.tool_call l.payload) [
    | none ↦ st
    | some call ↦
        if call.kind == codes "custom_tool_call"
        then (if call.call_id == []
            then st
            else add_patch call.call_id l.timestamp
                (envelope_files (codex_patch_envelopes call.name call.input)) st)
        else if call.kind == codes "custom_tool_call_output"
        then (if not (call.call_id == [])
              && codex_output_succeeded json.documents
                  (codex_output_text json.documents call.output)
            then confirm call.call_id st
            else st)
        else st
  ]

  -- `emitCodexLine`
  unfoldable pub emit_codex_line : Text → CodexScanState → CodexScanState
  emit_codex_line line st = elim (json.line line) [
    | none ↦ st
    | some l ↦
        if l.kind == codes "session_meta"
        then (if st.session_id == []
            then (elim (json.session_meta_id l.payload) [
              | some id ↦ record st { session_id = id }
              | none ↦ st
            ])
            else st)
        else if l.kind == codes "turn_context"
        then (elim (json.turn_context_model l.payload) [
          | some model ↦ if model == [] then st else record st { model = model }
          | none ↦ st
        ])
        else if l.kind == codes "response_item"
        then emit_response_item l st
        else if l.kind == codes "event_msg"
        then emit_event_msg l st
        else st
  ]

  unfoldable pub emit_lines : List Text → CodexScanState → CodexScanState
  emit_lines [] st = st
  emit_lines (l ∷ ls) st = emit_lines ls (emit_codex_line l st)

  -- the edit records of one patch, from its file `i` on
  unfoldable pub patch_edits : CodexScanState → PatchCall → ℕ → List FilePatch → List EditRecord
  patch_edits st p i [] = []
  patch_edits st p i (fp ∷ fps) =
      let ts = time_or (json.parse_time p.ts) now in
      record {
        event_id = p.call_id ++ (codes "#" ++ itoa i);
        session_id = st.session_id;
        tool = tool;
        timestamp = ts;
        lang = lang_from_path fp.path;
        lines_added = pos fp.added;
        lines_removed = pos fp.removed;
        project_path = st.project;
        backfill = is_backfill cutoff now ts;
      }
      ∷ patch_edits st p (suc i) fps

  unfoldable pub confirmed_edits : CodexScanState → List PatchCall → List EditRecord
  confirmed_edits st [] = []
  confirmed_edits st (p ∷ ps) =
      let rest = confirmed_edits st ps in
      if member p.call_id st.patch_ok then patch_edits st p 0 p.files ++ rest else rest

  -- `result`
  unfoldable pub scan_result : CodexScanState → ScanResult
  scan_result st = record { usage = st.usage; edits = confirmed_edits st st.patches }

  -- `parseCodexFile` of a file that opens, given its base name and its project: the result, and
  -- whether reading failed
  unfoldable pub parse_codex_file : Text → Text → File → ScanResult × Bool
  parse_codex_file name project f = (
    scan_result (emit_lines (lines_of f.content) (start (session_id_from_filename name) project)),
    f.read_fails,
  )

  -- `Scan` of a file that is there: the result, the state to keep, and whether reading failed
  unfoldable pub codex_scan : Text → Text → File → FileState → ScanResult × FileState × Bool
  codex_scan name project f prev =
      let state : FileState = record { inode = f.inode; offset = f.size } in
      if nat_beq prev.inode f.inode && nat_beq prev.offset f.size
      then (record { usage = []; edits = [] }, state, false)
      else ((parse_codex_file name project f).0, state, (parse_codex_file name project f).1)
