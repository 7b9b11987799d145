-- ===== src/Parsers/Opencode/Covered.antt =====
-- A scan of opencode's database passes over no row behind its watermark.
use token_usage.Prelude.{ℕ, Bool, Option, none, some, List, [], keep, Text, leb}
use token_usage.Prelude.Int.{ℤ}
use token_usage.Parsers.Std.{ScanResult, FileState}
use token_usage.Parsers.Opencode.{Row, OpencodeJson, OpencodeDb, opencode_scan}

abbrev part_rows : Option (List Row) → List Row
part_rows none = []
part_rows (some rows) = rows

-- The rows up to a watermark.
abbrev pub rows_to : ℕ → List Row → List Row
rows_to cursor rows = keep (λ r. leb r.time_updated cursor) rows

module _ (json : OpencodeJson) (tool : Text) (cutoff : ℤ) (now : ℕ) where
  abbrev pub scan_of : FileState → OpencodeDb → OpencodeDb → ScanResult × FileState × Bool
  scan_of = opencode_scan json tool cutoff now
