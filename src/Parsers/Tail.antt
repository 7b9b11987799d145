-- ===== src/Parsers/Tail.antt =====
-- The tail loop that `claudeCodeParser.Scan` and `piParser.Scan` (internal/watcher/parsers) share line for
-- line: where to start reading, and what a scan returns. `emit` is what one complete line yields.
pub mod Lined
pub mod Resume
use token_usage.Prelude.{
  ℕ, ◌+◌, Bool, true, false, not, ◌&&◌, List, [], ◌∷◌, ◌++◌, Text, ltb, nat_beq, length, drop,
  if◌then◌else◌,
}
use token_usage.Parsers.Std.{ScanResult, FileState, File, lines_of, ends_line}

abbrev pub empty : ScanResult
empty = record { usage = []; edits = [] }

abbrev pub append : ScanResult → ScanResult → ScanResult
append a b = record { usage = a.usage ++ b.usage; edits = a.edits ++ b.edits }

-- the switch over `prev`: a new file, a replaced one, a truncated one, or the old offset
unfoldable pub start_offset : FileState → ℕ → ℕ → ℕ
start_offset prev inode size =
    if nat_beq prev.inode 0 && nat_beq prev.offset 0
    then 0
    else if not (nat_beq prev.inode 0) && (not (nat_beq inode 0) && not (nat_beq prev.inode inode))
    then 0
    else if ltb size prev.offset
    then 0
    else prev.offset

module _ (emit : Text → ScanResult) where
  -- The loop over the lines; a last line with no newline stays for the next scan.
  unfoldable pub tail_lines : List Text → ℕ → ScanResult → ScanResult × ℕ
  tail_lines [] cur res = (res, cur)
  tail_lines (l ∷ ls) cur res =
      tail_lines ls (if ends_line l then cur + length l else cur)
        (if ends_line l then append res (emit l) else res)

  -- `Scan` of a file that is there and opens: the result, the state to keep, and whether reading failed
  unfoldable pub tail_scan : File → FileState → ScanResult × FileState × Bool
  tail_scan f prev =
      let offset = start_offset prev f.inode f.size in
      let read = tail_lines (lines_of (drop offset f.content)) offset empty in
      if nat_beq f.size offset
      then (empty, record { inode = f.inode; offset = offset }, false)
      else (read.0, record { inode = f.inode; offset = read.1 }, f.read_fails)
