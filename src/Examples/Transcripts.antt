-- ===== src/Examples/Transcripts.antt =====
-- internal/watcher/parsers/codex.go and lang.go on small texts.
use token_usage.Prelude.{
  ℕ, ◌+◌, ◌*◌, ◌≡◌, ◌≤◌, refl, none, some, List, [], ◌∷◌, ◌++◌, Text, codes, length, All, arith,
  text_beq, text_eq, Lacks, has_prefix,
}
use token_usage.Prelude.Int.{pos, ◌-ℤ◌}
use token_usage.Parsers.Std.{join, trim_space, trim_left_from, trim_right_space, space_width}
use token_usage.Parsers.Codex.Patch.{parse_apply_patch}
use token_usage.Parsers.Codex.Script.{js_string_literal}
use token_usage.Parsers.Codex.State.{Json, CodexTokens}
use token_usage.Parsers.Codex.Emit.{emit_lines, start, no_tokens}
use token_usage.Parsers.Codex.Tokens.{AreRising, IsRise}
use token_usage.Parsers.Codex.Session.{
  AllRising, totals_of, line_totals, last_total, SumsTo, session_sums,
}
use token_usage.Parsers.Codex.Literals.{escape, js_string_literal-escape}
use token_usage.Parsers.Codex.Envelope.{
  Section, updates, adds, moves, deletes, IsSection, envelope_lines, section_lines, all_files,
  parse_apply_patch-envelope,
}

js_string_literal-escape_example :
    js_string_literal (b'"' ∷ (escape (codes "a\"b\\\n") ++ b'"' ∷ codes ");"))
    ≡ (codes "a\"b\\\n", length (escape (codes "a\"b\\\n")) + 2)
js_string_literal-escape_example = js_string_literal-escape (codes "a\"b\\\n") (codes ");")

-- A line separator before, a space and a no-break space after.
wide_trimmed :
    trim_space (226 ∷ 128 ∷ 168 ∷ b'a' ∷ b' ' ∷ b'b' ∷ b' ' ∷ 194 ∷ 160 ∷ []) ≡ codes "a b"
unfolding trim_space trim_left_from trim_right_space space_width
wide_trimmed = refl

abbrev sections : List Section
sections =
    updates (codes "a/x.go") (codes "+one" ∷ codes "-two" ∷ codes "+three" ∷ [])
    ∷ adds (codes "y.py") (codes "+four" ∷ [])
    ∷ moves (codes "b.c") (codes "c.c") (codes "@@" ∷ codes "-five" ∷ [])
    ∷ deletes (codes "old.rs")
    ∷ []

sections-IsSection : All IsSection sections
unfolding trim_space trim_left_from trim_right_space space_width has_prefix
sections-IsSection = (
  (refl, (refl, (refl, (refl, tt)))),
  ((refl, (refl, tt)), ((refl, (refl, (refl, tt))), (tt, tt))),
)

sections-Lacks : All (Lacks b'\n') (envelope_lines sections)
unfolding envelope_lines section_lines
sections-Lacks = ground arith

parse_apply_patch-envelope_example :
    parse_apply_patch (join (envelope_lines sections) (codes "\n")) ≡ all_files sections
parse_apply_patch-envelope_example =
    parse_apply_patch-envelope sections sections-IsSection sections-Lacks

-- A reading of lines in which the length of a line says its totals.
abbrev totals : ℕ → CodexTokens
totals n = record {
  input_tokens = pos (10 * n);
  cached_input_tokens = pos (3 * n);
  output_tokens = pos (2 * n);
  reasoning_output_tokens = pos 0;
}

abbrev json : Json
json = record {
  line = λ s. some (record { timestamp = []; kind = codes "event_msg"; payload = s });
  session_meta_id = λ s. none;
  turn_context_model = λ s. none;
  token_count = λ s. some (record { kind = codes "token_count"; total = some (totals (length s)) });
  tool_call = λ s. none;
  patch_apply_end = λ s. none;
  parse_time = λ s. 0;
  documents = record { as_string = λ s. none; as_parts = λ s. none; as_document = λ s. none };
}

abbrev session : List Text
session = codes "x" ∷ codes "xxx" ∷ codes "xxx" ∷ codes "xxxx" ∷ []

rise : (a b : ℕ) → a ≤ b → b ≤ 1000 → IsRise (pos a) (pos b)
rise a b h k = record { nonneg = omega arith; rises = omega arith; fits = omega arith }

rising : (m n : ℕ) → m ≤ n → n ≤ 100 → AreRising (totals m) (totals n)
unfolding ◌-ℤ◌
rising m n h k = record {
  input = rise (10 * m) (10 * n) (omega arith) (omega arith);
  cached = rise (3 * m) (3 * n) (omega arith) (omega arith);
  output = rise (2 * m) (2 * n) (omega arith) (omega arith);
  reasoning = rise 0 0 (omega arith) (omega arith);
  part = ground arith;
}

session-AllRising : AllRising no_tokens (totals_of json session)
unfolding totals_of line_totals text_beq
session-AllRising = (
  rising 0 1 (omega arith) (omega arith),
  (
    rising 1 3 (omega arith) (omega arith),
    (rising 3 3 (omega arith) (omega arith), (rising 3 4 (omega arith) (omega arith), tt)),
  ),
)

session_sums_example :
    SumsTo
      (emit_lines json (codes "codex") (pos 0) 50 session (start (codes "s") (codes "/p"))).usage
      (last_total no_tokens (totals_of json session))
session_sums_example =
    session_sums json (codes "codex") (pos 0) 50 session (codes "s") (codes "/p") session-AllRising

session_total : last_total no_tokens (totals_of json session) ≡ totals 4
unfolding totals_of line_totals text_beq
session_total = refl
