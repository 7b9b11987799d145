-- ===== src/Examples/Opencode.antt =====
-- internal/watcher/parsers/opencode.go on a database with one answer and one edit.
use token_usage.Types.{UsageRecord}
use token_usage.Prelude.{List, ℕ, Bool, false, none, some, [], ◌∷◌, Text, codes}
use token_usage.Prelude.Int.{pos}
use token_usage.Parsers.Std.{ScanResult, FileState}
use token_usage.Parsers.Opencode.{
  Row, collect, OpencodeJson, OpencodeDb, opencode_message_to_record,
}
use token_usage.Parsers.Opencode.Covered.{scan_of}

abbrev documents : OpencodeJson
documents = record {
  message = λ t. some (record {
    role = codes "assistant";
    model_id = codes "claude-sonnet-4-6";
    tokens = some (record {
      input = pos 10;
      output = pos 5;
      reasoning = pos 2;
      cache_read = pos 0;
      cache_write = pos 0;
    });
  });
  part = λ t. some (record {
    kind = codes "tool";
    tool = codes "write";
    state = some (record {
      status = codes "completed";
      file_path = codes "/p/a.go";
      content = codes "x";
      diff = [];
    });
  });
}

abbrev row_at : Text → ℕ → Row
row_at id updated = record {
  id = id;
  session_id = codes "s";
  time_created = 1;
  time_updated = updated;
  blob = codes "{}";
  directory = codes "/p";
}

abbrev seen_before : OpencodeDb
seen_before = record {
  inode = 3;
  messages = row_at (codes "old") 4 ∷ row_at (codes "msg") 5 ∷ [];
  parts = some (row_at (codes "prt") 4 ∷ []);
  query_fails = false;
  rows_before_error = none;
  parts_fail = false;
}

-- between the two queries a part was changed
abbrev changed_since : OpencodeDb
changed_since = record seen_before { parts = some (row_at (codes "prt") 6 ∷ []) }

-- the last scan got as far as 4
abbrev state : FileState
state = record { inode = 3; offset = 4 }

abbrev scanned : ScanResult × FileState × Bool
scanned = scan_of documents (codes "opencode") (pos 0) 9 state seen_before changed_since

-- what the last scan sent
abbrev sent_before : List UsageRecord
sent_before =
    collect (opencode_message_to_record documents (codes "opencode") (pos 0) 9)
      (row_at (codes "old") 4 ∷ [])
