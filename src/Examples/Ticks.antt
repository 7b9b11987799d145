-- ===== src/Examples/Ticks.antt =====
-- The tail scans of internal/watcher/parsers on a file that grows in the middle of a line.
use token_usage.Prelude.{◌≡◌, refl, false, List, [], ◌∷◌, ◌++◌, Text, codes, length}
use token_usage.Prelude.Int.{pos}
use token_usage.Parsers.Std.{ScanResult, lines_of, ends_line}
use token_usage.Parsers.Tail.{tail_scan, tail_lines, start_offset}
use token_usage.Parsers.Tail.Resume.{
  file, new_file, Scan, concat, collect, ticks, IsYield, ticks-concat,
}
use token_usage.Parsers.Tail.Lined.{complete}

-- One record for a line, which says the line's length.
abbrev pub one : Text → ScanResult
one l = record {
  usage =
      record {
        message_id = l;
        request_id = [];
        session_id = [];
        tool = [];
        model = [];
        timestamp = 0;
        input_tokens = pos (length l);
        output_tokens = pos 0;
        cache_creation_tokens = pos 0;
        cache_creation_1h_tokens = pos 0;
        cache_read_tokens = pos 0;
        project_path = [];
        backfill = false;
      }
      ∷ [];
  edits = [];
}

-- a later scan says so in the record
abbrev two : Text → ScanResult
two l = one (b'2' ∷ l)

abbrev scans : List Scan
scans = (two, codes "e\nfour") ∷ (two, codes "\nfi") ∷ []

abbrev text : Text
text = codes "one\nthre" ++ concat scans

ticks-concat_example :
    IsYield
      ((one, codes "one\nthre") ∷ scans)
      (ticks 8 [] ((one, codes "one\nthre") ∷ scans) new_file).0
      (complete text)
    × ((tail_scan two (file 8 text) new_file).0 ≡ collect two (complete text))
    × ((ticks 8 [] ((one, codes "one\nthre") ∷ scans) new_file).1
        ≡ (tail_scan two (file 8 text) new_file).1)
ticks-concat_example = ticks-concat one two 8 (codes "one\nthre") scans

-- The rest `fi` waits for its newline.
ticks_end : (tail_scan one (file 8 text) new_file).1 ≡ record { inode = 8; offset = 15 }
unfolding tail_scan tail_lines start_offset lines_of ends_line concat
ticks_end = refl
