-- ===== src/Parsers/Lang.antt =====
-- internal/watcher/parsers/lang.go: the language tag of an edited file, and the lines that a diff adds
-- and removes. Paths are Unix paths of ASCII characters.
pub mod Tables
pub mod Paths
pub mod Diff
use token_usage.Prelude.{
  ℕ, suc, ◌+◌, Bool, true, false, ◌&&◌, ◌||◌, Option, none, some, List, [], ◌∷◌, ◌++◌, Text, codes,
  ◌==◌, text_eq, nat_eq, nat_beq, leb, map, has_prefix, if◌then◌else◌,
}
use token_usage.Table.{lookup}
use token_usage.Parsers.Lang.Tables.{ext_lang, base_lang}

-- strings.ToLower
unfoldable pub to_lower : Text → Text
to_lower = map (λ c. if leb b'A' c && leb c b'Z' then c + 32 else c)

-- strings.TrimRight of one byte
unfoldable pub trim_right : ℕ → Text → Text
trim_right b [] = []
trim_right b (a ∷ s) =
    let rest = trim_right b s in if nat_beq a b && rest == [] then [] else a ∷ rest

-- what stands behind the last `b`, or all of it behind `acc`
unfoldable pub after_last : ℕ → Text → Text → Text
after_last b [] acc = acc
after_last b (a ∷ s) acc = after_last b s (if nat_beq a b then [] else acc ++ a ∷ [])

-- filepath.Base
unfoldable pub base : Text → Text
unfolding trim_right after_last
base path =
    let last = after_last b'/' (trim_right b'/' path) [] in
    if path == [] then codes "." else if last == [] then codes "/" else last

-- the last dot of a file name and what follows it
unfoldable pub from_last_dot : Text → Text → Text
from_last_dot [] acc = acc
from_last_dot (a ∷ s) acc =
    from_last_dot s (if nat_beq a b'.' then a ∷ [] else if acc == [] then [] else acc ++ a ∷ [])

-- filepath.Ext
unfoldable pub ext : Text → Text
unfolding after_last from_last_dot
ext path = from_last_dot (after_last b'/' path []) []

-- strings.TrimPrefix(s, ".")
unfoldable pub trim_dot : Text → Text
trim_dot [] = []
trim_dot (a ∷ s) = if nat_beq a b'.' then s else a ∷ s

-- the lookup by extension at the end of `langFromPath`
unfoldable pub lang_of_ext : Text → Text
unfolding lookup
lang_of_ext e =
    if e == []
    then codes "other"
    else elim (lookup e ext_lang) [ some lang ↦ lang | none ↦ codes "other" ]

unfoldable pub lang_from_path : Text → Text
unfolding to_lower base ext trim_dot lookup lang_of_ext
lang_from_path path =
    if path == [] then codes "other" else elim (lookup (to_lower (base path)) base_lang) [
      | some lang ↦ lang
      | none ↦ lang_of_ext (trim_dot (to_lower (ext path)))
    ]

-- the switch of `diffLineCounts`, over (added, removed)
unfoldable pub count_line : Text → ℕ × ℕ → ℕ × ℕ
unfolding has_prefix
count_line l (added, removed) =
    if has_prefix l (codes "+++") || has_prefix l (codes "---")
    then (added, removed)
    else if has_prefix l (codes "+")
    then (suc added, removed)
    else if has_prefix l (codes "-")
    then (added, suc removed)
    else (added, removed)

-- the loop of `diffLineCounts`
unfoldable pub count_lines_from : List Text → ℕ × ℕ → ℕ × ℕ
unfolding count_line
count_lines_from [] n = n
count_lines_from (l ∷ ls) n = count_lines_from ls (count_line l n)

unfoldable pub diff_line_counts : List Text → ℕ × ℕ
unfolding count_lines_from
diff_line_counts lines = count_lines_from lines (0, 0)
