-- ===== src/Parsers/Codex/Output.antt =====
-- internal/watcher/parsers/codex.go: whether the output of a tool call confirms its patch. What
-- encoding/json makes of an output is the argument `Documents`.
use token_usage.Prelude.{
  ℕ, zero, suc, ◌+◌, ◌-◌, ◌^◌, Bool, false, ◌&&◌, ◌||◌, Option, none, some, List, [], ◌∷◌, ◌++◌,
  Text, codes, leb, nat_beq, ◌==◌, text_eq, length, drop, has_prefix, if◌then◌else◌,
}
use token_usage.Prelude.Int.{ℤ, pos, negsuc}
use token_usage.Parsers.Std.{digits_value}

abbrev is_digit : ℕ → Bool
is_digit c = leb b'0' c && leb c b'9'

unfoldable pub take_digits : Text → Text
take_digits [] = []
take_digits (a ∷ s) = let rest = take_digits s in if is_digit a then a ∷ rest else []

-- how many blanks and colons stand first
unfoldable pub count_gap : Text → ℕ
count_gap [] = 0
count_gap (a ∷ s) = let n = count_gap s in if nat_beq a b' ' || nat_beq a b':' then suc n else 0

-- strconv.Atoi of a text of digits: an error on overflow
unfoldable pub atoi_digits : Text → Option ℕ
unfolding digits_value
atoi_digits s = if leb (digits_value 0 s) (2 ^ 63 - 1) then some (digits_value 0 s) else none

abbrev pub exit_code_key : Text
exit_code_key = codes "\"exit_code\""

-- What follows one key, given what was found before it.
unfoldable pub code_after : Text → Option ℕ → Option ℕ
unfolding take_digits atoi_digits
code_after s found =
    if take_digits s == []
    then found
    else elim (atoi_digits (take_digits s)) [ some v ↦ some v | none ↦ found ]

-- The loop of `lastExitCode`: every position is tried for the key, and after a key the search goes on
-- behind its blanks and colons.
unfoldable pub exit_code_from : Text → ℕ → Option ℕ → Option ℕ
unfolding has_prefix count_gap code_after
exit_code_from [] skip found = found
exit_code_from (a ∷ s) (suc skip) found = exit_code_from s skip found
exit_code_from (a ∷ s) zero found =
    let gap = count_gap (drop (length exit_code_key) (a ∷ s)) in
    let hit =
      exit_code_from s (length exit_code_key - 1 + gap)
        (code_after (drop (length exit_code_key + gap) (a ∷ s)) found) in
    let next = exit_code_from s 0 found in if has_prefix (a ∷ s) exit_code_key then hit else next

unfoldable pub last_exit_code : Text → Option ℕ
unfolding exit_code_from
last_exit_code s = exit_code_from s 0 none

-- The document that older versions wrap the result in.
pub record OutputDocument : Type 0 where
  pub output : Text
  pub exit_code : Option ℤ

-- What json.Unmarshal gives for a raw value: a string, content parts, or the document of an output.
pub record Documents : Type 0 where
  pub as_string : Text → Option Text
  pub as_parts : Text → Option (List Text)
  pub as_document : Text → Option OutputDocument

abbrev pub is_zero : ℤ → Bool
is_zero (pos n) = nat_beq n 0
is_zero (negsuc n) = false

unfoldable pub join_parts : List Text → Text
join_parts [] = []
join_parts (p ∷ ps) = p ++ (b'\n' ∷ join_parts ps)

module _ (docs : Documents) where
  -- `codexOutputText`
  unfoldable pub codex_output_text : Text → Text
  unfolding join_parts
  codex_output_text raw = if raw == [] then [] else elim (docs.as_string raw) [
    | some str ↦ str
    | none ↦ elim (docs.as_parts raw) [ some parts ↦ join_parts parts | none ↦ raw ]
  ]

  -- the end of `codexOutputSucceeded`
  unfoldable pub succeeded_by_text : Text → Bool
  unfolding last_exit_code has_prefix
  succeeded_by_text output = elim (last_exit_code output) [
    | some code ↦ nat_beq code 0
    | none ↦ has_prefix output (codes "Success")
  ]

  -- `codexOutputSucceeded`
  unfoldable pub codex_output_succeeded : Text → Bool
  unfolding succeeded_by_text
  codex_output_succeeded output = elim (docs.as_document output) [
    | none ↦ succeeded_by_text output
    | some parsed ↦ elim parsed.exit_code [
      | some code ↦ is_zero code
      | none ↦
          if parsed.output == []
          then succeeded_by_text output
          else has_prefix parsed.output (codes "Success")
    ]
  ]
