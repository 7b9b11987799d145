-- ===== src/Parsers/Codex/State.antt =====
-- internal/watcher/parsers/codex.go: the state of a scan and what one line does to it. What
-- encoding/json and `time.Parse` make of a text is the argument `Json`.
use token_usage.Prelude.{
  ℕ, Bool, true, false, ◌&&◌, Option, none, some, List, [], ◌∷◌, Text, nat_beq, ◌==◌, text_eq,
  if◌then◌else◌,
}
use token_usage.Prelude.Int.{ℤ, pos, negsuc, sub64}
use token_usage.Types.{UsageRecord}
use token_usage.Parsers.Codex.Patch.{FilePatch}
use token_usage.Parsers.Codex.Output.{Documents}

pub record CodexLine : Type 0 where
  pub timestamp : Text
  pub kind : Text
  pub payload : Text

pub record CodexTokens : Type 0 where
  pub input_tokens : ℤ
  pub cached_input_tokens : ℤ
  pub output_tokens : ℤ
  pub reasoning_output_tokens : ℤ

-- codexTokenCount; a missing `info` or `total_token_usage` is `none`
pub record CodexTokenCount : Type 0 where
  pub kind : Text
  pub total : Option CodexTokens

pub record CodexToolCall : Type 0 where
  pub kind : Text
  pub call_id : Text
  pub name : Text
  pub input : Text
  pub output : Text

pub record CodexChange : Type 0 where
  pub path : Text
  pub kind : Text
  pub content : Text
  pub unified_diff : Text
  pub move_path : Option Text

-- codexPatchApplyEnd; the changes stand in the order of their paths, in which the source sorts them
pub record CodexPatchApplyEnd : Type 0 where
  pub call_id : Text
  pub success : Bool
  pub changes : List CodexChange

pub record Json : Type 0 where
  pub line : Text → Option CodexLine
  pub session_meta_id : Text → Option Text
  pub turn_context_model : Text → Option Text
  pub token_count : Text → Option CodexTokenCount
  pub tool_call : Text → Option CodexToolCall
  pub patch_apply_end : Text → Option CodexPatchApplyEnd
  pub parse_time : Text → ℕ
  pub documents : Documents

-- codexPatchCall
pub record PatchCall : Type 0 where
  pub call_id : Text
  pub ts : Text
  pub files : List FilePatch

-- codexScanState; `patch_ok` lists the calls that the map holds
pub record CodexScanState : Type 0 where
  pub session_id : Text
  pub model : Text
  pub project : Text
  pub prev : CodexTokens
  pub usage : List UsageRecord
  pub patches : List PatchCall
  pub patch_ok : List Text

unfoldable pub member : Text → List Text → Bool
member x [] = false
member x (y ∷ ys) = if x == y then true else member x ys

-- if d < 0 { d = 0 }
abbrev pub clamp0 : ℤ → ℤ
clamp0 (pos n) = pos n
clamp0 (negsuc n) = pos 0

abbrev pub le_zero : ℤ → Bool
le_zero (pos n) = nat_beq n 0
le_zero (negsuc n) = true

-- The counts of one event over the totals of the last one: uncached input, output and cached input.
pub record Delta : Type 0 where
  pub uncached : ℤ
  pub output : ℤ
  pub cached : ℤ

unfoldable pub token_delta : CodexTokens → CodexTokens → Option Delta
token_delta prev t =
    let d_in = sub64 t.input_tokens prev.input_tokens in
    let d_out = sub64 t.output_tokens prev.output_tokens in
    let d_cache = sub64 t.cached_input_tokens prev.cached_input_tokens in
    let d_reason = sub64 t.reasoning_output_tokens prev.reasoning_output_tokens in
    if le_zero d_in && (le_zero d_out && (le_zero d_cache && le_zero d_reason))
    then none
    else some (record {
      uncached = clamp0 (sub64 (clamp0 d_in) (clamp0 d_cache));
      output = clamp0 d_out;
      cached = clamp0 d_cache;
    })
