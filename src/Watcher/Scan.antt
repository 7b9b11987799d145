-- ===== src/Watcher/Scan.antt =====
-- internal/watcher/scanner.go, and the registry of internal/watcher/parsers/parser.go. The directory tree
-- and the parsers are arguments; a parser's backfill cutoff and clock are fixed for the scan. Each source
-- has a goroutine of its own that only reads the checkpoint and writes its own result, so the results are
-- taken one by one.
pub mod Pass
pub mod Order
pub mod Coverage
pub mod Ticks
use token_usage.Prelude.{
  Bool, true, false, not, ◌||◌, Option, none, some, List, [], ◌∷◌, map, Text, text_eq, codes,
  has_suffix, if◌then◌else◌,
}
use token_usage.Table.{lookup, alter}
use token_usage.Parsers.Std.{ScanResult, FileState}
use token_usage.Parsers.Tail.{empty, append}
use token_usage.Watcher.Run.{Checkpoint, get}

pub record Source : Type 0 where
  pub tool : Text
  pub root : Text

-- `Parser.Scan` of a path, a tool and the state before: what it found, the state after, and whether it
-- returned an error
abbrev pub Parser : Type 0
Parser = Text → Text → FileState → ScanResult × FileState × Bool

-- `For`: an unknown tool has the parser of claude-code
unfoldable pub for_tool : List (Text × Parser) → Text → Option Parser
unfolding lookup
for_tool registry tool = elim (lookup tool registry) [
  | some p ↦ some p
  | none ↦ lookup (codes "claude-code") registry
]

-- What `filepath.WalkDir` calls its function with.
pub record WalkEntry : Type 0 where
  pub path : Text
  pub failed : Bool
  pub is_dir : Bool

-- `stat` says whether a path is a directory, or fails.
pub record Tree : Type 0 where
  pub stat : Text → Option Bool
  pub walk : Text → List WalkEntry

pub data ScanError : Type 0 where
  unknown_parser source_root : Text → ScanError

abbrev pub Pending : Type 0
Pending = List (Text × FileState)

pub record SourceResult : Type 0 where
  pub res : ScanResult
  pub pending : Pending
  pub err : Option ScanError

-- `isTranscript`
unfoldable pub is_transcript : Text → Bool
unfolding has_suffix
is_transcript path = has_suffix path (codes ".jsonl") || has_suffix path (codes ".jsonl.zstd")

-- prev, _ := s.Checkpoint.Get(path)
unfoldable pub prev_state : Checkpoint → Text → FileState
unfolding get
prev_state c path = elim (get c path) [ some s ↦ s | none ↦ record { inode = 0; offset = 0 } ]

-- One file: its records are appended and its state is pending, unless the parser fails.
unfoldable pub scan_file :
    Checkpoint → Parser → Text → Text → ScanResult × Pending → ScanResult × Pending
scan_file c parser tool path acc =
    let out = parser path tool (prev_state c path) in
    if out.2 then acc else (append acc.0 out.0, alter path (λ _. out.1) acc.1)

-- The walk: an entry that fails, a directory and another file are skipped.
unfoldable scan_entries :
    Checkpoint → Parser → Text → List WalkEntry → ScanResult × Pending → ScanResult × Pending
unfolding is_transcript scan_file
scan_entries c parser tool [] acc = acc
scan_entries c parser tool (e ∷ entries) acc = scan_entries c parser tool entries (
    if e.failed || (e.is_dir || not (is_transcript e.path))
    then acc
    else scan_file c parser tool e.path acc)

abbrev failed_source : ScanError → SourceResult
failed_source e = record { res = empty; pending = []; err = some e }

abbrev scanned : ScanResult × Pending → SourceResult
scanned acc = record { res = acc.0; pending = acc.1; err = none }

-- maps.Copy
unfoldable copy : Pending → Pending → Pending
copy dst [] = dst
copy dst ((path, s) ∷ src) = copy (alter path (λ _. s) dst) src

-- if r.err != nil && firstErr == nil
abbrev first_err : Option ScanError → Option ScanError → Option ScanError
first_err none e = e
first_err (some e) _ = some e

-- The merge of the results of the sources, in their order.
unfoldable merge_results :
    List SourceResult
    → ScanResult
    → Pending
    → Option ScanError
    → ScanResult × Pending × Option ScanError
unfolding copy
merge_results [] all pending err = (all, pending, err)
merge_results (r ∷ results) all pending err =
    merge_results results (append all r.res) (copy pending r.pending) (first_err err r.err)

module _ (registry : List (Text × Parser)) (tree : Tree) (c : Checkpoint) where
  -- the goroutine of one source
  unfoldable scan_source : Source → SourceResult
  unfolding for_tool scan_entries scan_file
  scan_source src = elim (for_tool registry src.tool) [
    | none ↦ failed_source (unknown_parser src.tool)
    | some parser ↦ elim (tree.stat src.root) [
      | none ↦ failed_source (source_root src.tool)
      | some false ↦ scanned (scan_file c parser src.tool src.root (empty, []))
      | some true ↦ scanned (scan_entries c parser src.tool (tree.walk src.root) (empty, []))
    ]
  ]

  -- `Scanner.Scan`
  unfoldable pub scan : List Source → ScanResult × Pending × Option ScanError
  unfolding scan_source merge_results
  scan sources = merge_results (map scan_source sources) empty [] none
