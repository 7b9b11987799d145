-- ===== src/Examples/Dsh.antt =====
-- internal/watcher/parsers/deepseekharness.go on a call whose result comes two lines later.
use token_usage.Prelude.{
  ◌≡◌, refl, false, none, some, List, [], ◌∷◌, ◌++◌, Text, text_eq, codes, ◌==◌, if◌then◌else◌,
  text_beq,
}
use token_usage.Prelude.Int.{pos}
use token_usage.Table.{lookup}
use token_usage.Parsers.DeepseekHarness.{
  DshJson, DshEvent, DshState, DshToolResult, DshPendingEdit, edit_record, dsh_line, dsh_lines,
}
use token_usage.Parsers.DeepseekHarness.Pending.{dsh_line-settles}

abbrev result_event : DshEvent
result_event = record { kind = codes "tool/result"; time = 7; payload = codes "r" }

abbrev success : DshToolResult
success = record { tool_call_id = codes "c"; failed = false }

-- The text "r" is the result, any other the start of a turn.
abbrev documents : DshJson
documents = record {
  event = λ t.
      if t == codes "r"
      then some result_event
      else some (record { kind = codes "turn"; time = 5; payload = [] });
  session = λ t s. s;
  assistant_message = λ t. none;
  tool_call = λ t. none;
  tool_result = λ t. some success;
  edit_args = λ t. none;
}

abbrev waiting : DshPendingEdit
waiting = record { ts = 4; path = codes "/p/a.go"; added = 3; removed = 0 }

abbrev state : DshState
state = record {
  session = record { id = codes "s"; cwd = codes "/p" };
  pending = (codes "c", waiting) ∷ [];
  usage = [];
  edits = [];
}

abbrev between : List Text
between = codes "t" ∷ codes "t" ∷ []

is_waiting : lookup (codes "c") state.pending ≡ some waiting
unfolding lookup text_beq
is_waiting = refl

reads_result : documents.event (codes "r") ≡ some result_event
unfolding text_beq
reads_result = refl

dsh_line-settles_example :
    ((dsh_line documents
        (codes "dsh")
        (pos 0)
        9
        (codes "r")
        (dsh_lines documents (codes "dsh") (pos 0) 9 between state)).edits
      ≡ (if false
          then (dsh_lines documents (codes "dsh") (pos 0) 9 between state).edits
          else (dsh_lines documents (codes "dsh") (pos 0) 9 between state).edits
            ++ edit_record documents
                (codes "dsh")
                (pos 0)
                9
                (dsh_lines documents (codes "dsh") (pos 0) 9 between state).session
                (codes "c")
                waiting
              ∷ []))
    × (lookup
          (codes "c")
          (dsh_line documents
            (codes "dsh")
            (pos 0)
            9
            (codes "r")
            (dsh_lines documents (codes "dsh") (pos 0) 9 between state)).pending
        ≡ none)
unfolding text_beq
dsh_line-settles_example =
    dsh_line-settles documents (codes "dsh") (pos 0) 9 (codes "c") waiting between (codes "r")
      result_event success state is_waiting (refl, (refl, tt)) reads_result refl refl refl
