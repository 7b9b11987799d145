-- ===== src/Examples/Claude.antt =====
-- internal/watcher/parsers/claudecode.go on an assistant line and on the result of a bash edit.
use token_usage.Prelude.{
  ◌⊎◌, ◌≡◌, refl, false, none, some, [], codes, ◌==◌, text_eq, text_beq, arith,
}
use token_usage.Prelude.Int.{pos, ◌≤ℤ◌}
use token_usage.Types.{UsageRecord}
use token_usage.Parsers.Std.{time_or, is_backfill}
use token_usage.Parsers.Claude.{
  RawLine, ClaudeJson, parse_claude_code_line, parse_claude_code_edit_lines, claude_emit,
  message_usage, clamp_to,
}
use token_usage.Parsers.Claude.Emit.{usage_list, claude_emit-both, parse_claude_code_line_bounds}

abbrev reply : RawLine
reply = record {
  kind = codes "assistant";
  session_id = codes "s";
  timestamp = codes "t";
  request_id = codes "r";
  uuid = codes "u";
  message = some (record {
    id = codes "msg";
    model = codes "opus";
    usage = some (record {
      input = pos 10;
      output = pos 20;
      cache_creation = pos 30;
      cache_read = pos 40;
      ephemeral_1h = pos 99;
    });
  });
  tool_use_result = [];
}

abbrev json : ClaudeJson
json = record { line = λ s. some reply; tool_result = λ s. none; parse_time = λ s. 7 }

abbrev parsed : UsageRecord
parsed = record {
  message_id = codes "msg";
  request_id = codes "r";
  session_id = codes "s";
  tool = codes "claude-code";
  model = codes "opus";
  timestamp = 7;
  input_tokens = pos 10;
  output_tokens = pos 20;
  cache_creation_tokens = pos 30;
  cache_creation_1h_tokens = pos 30;
  cache_read_tokens = pos 40;
  project_path = codes "p";
  backfill = false;
}

-- The one-hour share is cut to the cache writes.
reply_parsed :
    parse_claude_code_line json (codes "p") (codes "claude-code") (pos 0) 9 (codes "x")
    ≡ some parsed
unfolding parse_claude_code_line message_usage text_beq clamp_to time_or is_backfill
reply_parsed = refl

parse_claude_code_line_bounds_example :
    ((parsed.message_id == []) ≡ false)
    × (pos 0 ≤ℤ parsed.cache_creation_1h_tokens)
    × (parsed.cache_creation_1h_tokens ≤ℤ parsed.cache_creation_tokens)
parse_claude_code_line_bounds_example =
    parse_claude_code_line_bounds json (codes "p") (codes "claude-code") (pos 0) 9 (codes "x")
      parsed reply_parsed (omega arith)

claude_emit-both_example :
    (claude_emit json (codes "p") (codes "claude-code") (pos 0) 9 (codes "x") ≡ record {
      usage =
          usage_list
            (parse_claude_code_line json (codes "p") (codes "claude-code") (pos 0) 9 (codes "x"));
      edits =
          parse_claude_code_edit_lines json (codes "p") (codes "claude-code") (pos 0) 9 (codes "x");
    })
    × ((parse_claude_code_line json (codes "p") (codes "claude-code") (pos 0) 9 (codes "x") ≡ none)
        ⊎ (parse_claude_code_edit_lines json (codes "p") (codes "claude-code") (pos 0) 9 (codes "x")
            ≡ []))
claude_emit-both_example =
    claude_emit-both json (codes "p") (codes "claude-code") (pos 0) 9 (codes "x")
