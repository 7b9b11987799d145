-- ===== src/Parsers/Std.antt =====
-- What the transcript parsers of internal/watcher/parsers share: reading a file by lines, decimal
-- numbers, and the test of a record's age.
use Prim.Native.Nat.{min}
use token_usage.Prelude.{
  ℕ, zero, suc, ◌+◌, ◌-◌, ◌*◌, ◌/◌, ◌%◌, ◌^◌, Bool, false, ◌&&◌, ◌||◌, List, [], ◌∷◌, ◌++◌, Text,
  ltb, leb, nat_beq, trim_suffix, has_suffix, has_prefix, count_byte, codes, if◌then◌else◌,
}
use token_usage.Prelude.Int.{ℤ, pos, negsuc}
use token_usage.Types.{UsageRecord, EditRecord}

-- ScanResult of internal/watcher/parsers/parser.go
pub record ScanResult : Type 0 where
  pub usage : List UsageRecord
  pub edits : List EditRecord

-- FileState
pub record FileState : Type 0 where
  pub inode : ℕ
  pub offset : ℕ

-- A file as a scan finds it: `stat` gives its inode and size, and a read gives its bytes up to the end
-- or to an error.
pub record File : Type 0 where
  pub inode : ℕ
  pub size : ℕ
  pub content : Text
  pub read_fails : Bool

-- The lines that `ReadBytes('\n')` returns, each with its newline, the last perhaps without.
unfoldable pub lines_of : Text → List Text
lines_of [] = []
lines_of (a ∷ s) =
    let rest = lines_of s in
    if nat_beq a b'\n'
    then (a ∷ []) ∷ rest
    else elim rest [ [] ↦ (a ∷ []) ∷ [] | l ∷ ls ↦ (a ∷ l) ∷ ls ]

-- line[len(line)-1] == '\n'
unfoldable pub ends_line : Text → Bool
ends_line [] = false
ends_line (a ∷ []) = nat_beq a b'\n'
ends_line (a ∷ b ∷ s) = ends_line (b ∷ s)

abbrev pub is_space : ℕ → Bool
is_space c = nat_beq c b' ' || (leb b'\t' c && leb c b'\r')

-- how many bytes the white space of Unicode takes up that a text begins with; 0 if it begins with none
unfoldable pub space_width : Text → ℕ
space_width [] = 0
space_width (a ∷ []) = if is_space a then 1 else 0
space_width (a ∷ b ∷ []) =
    if is_space a then 1 else if nat_beq a 194 && (nat_beq b 133 || nat_beq b 160) then 2 else 0
space_width (a ∷ b ∷ c ∷ s) =
    if is_space a
    then 1
    else if nat_beq a 194 && (nat_beq b 133 || nat_beq b 160)
    then 2
    else if (nat_beq a 225 && (nat_beq b 154 && nat_beq c 128))
        || ((nat_beq a 226 && (nat_beq b 128 && (leb 128 c && leb c 138)))
            || ((nat_beq a 226
                  && (nat_beq b 128 && (nat_beq c 168 || (nat_beq c 169 || nat_beq c 175))))
                || ((nat_beq a 226 && (nat_beq b 129 && nat_beq c 159))
                    || (nat_beq a 227 && (nat_beq b 128 && nat_beq c 128)))))
    then 3
    else 0

-- behind a number of bytes
unfoldable pub trim_left_from : ℕ → Text → Text
unfolding space_width
trim_left_from k [] = []
trim_left_from (suc k) (a ∷ s) = trim_left_from k s
trim_left_from zero (a ∷ s) = elim (space_width (a ∷ s)) [
  | zero ↦ a ∷ s
  | suc w ↦ trim_left_from w s
]

-- the text up to where white space is all that is left
unfoldable pub trim_right_space : Text → Text
unfolding trim_left_from
trim_right_space [] = []
trim_right_space (a ∷ s) =
    let rest = trim_right_space s in elim (trim_left_from 0 (a ∷ s)) [ [] ↦ [] | b ∷ r ↦ a ∷ rest ]

-- strings.TrimSpace
unfoldable pub trim_space : Text → Text
unfolding trim_left_from trim_right_space
trim_space s = trim_right_space (trim_left_from 0 s)

-- strings.Join
unfoldable pub join : List Text → Text → Text
join [] sep = []
join (p ∷ []) sep = p
join (p ∷ q ∷ ps) sep = p ++ (sep ++ join (q ∷ ps) sep)

unfoldable pub itoa_from : ℕ → ℕ → Text → Text
itoa_from zero n acc = acc
itoa_from (suc fuel) n acc =
    let rest = itoa_from fuel (n / 10) ((b'0' + n % 10) ∷ acc) in
    if ltb n 10 then (b'0' + n) ∷ acc else rest

-- strconv.Itoa
unfoldable pub itoa : ℕ → Text
unfolding itoa_from
itoa n = itoa_from (suc n) n []

-- the number that digits spell behind `n`
unfoldable pub digits_value : ℕ → Text → ℕ
digits_value n [] = n
digits_value n (a ∷ s) = digits_value (n * 10 + (a - b'0')) s

-- the longest duration, in nanoseconds: `Time.Sub` stops there
abbrev pub max_duration : ℕ
max_duration = 2 ^ 63 - 1

-- backfillCutoff > 0 && now.Sub(ts) > backfillCutoff
unfoldable pub is_backfill : ℤ → ℕ → ℕ → Bool
is_backfill (pos cutoff) now ts = ltb 0 cutoff && ltb cutoff (min (now - ts) max_duration)
is_backfill (negsuc n) now ts = false

-- time.UnixMilli, in nanoseconds since Go's zero time
abbrev pub unix_milli : ℕ → ℕ
unix_milli ms = (62_135_596_800_000 + ms) * 1_000_000

-- if ts.IsZero() { ts = now }
unfoldable pub time_or : ℕ → ℕ → ℕ
time_or ts now = if nat_beq ts 0 then now else ts

-- strings.Count(strings.TrimSuffix(s, "\n"), "\n") + 1
unfoldable pub content_lines : Text → ℕ
unfolding trim_suffix has_suffix has_prefix count_byte
content_lines s = suc (count_byte (trim_suffix s (codes "\n")) b'\n')
