-- ===== src/Parsers/Codex/Patch.antt =====
-- `parseApplyPatch` of internal/watcher/parsers/codex.go.
use token_usage.Prelude.{
  ℕ, zero, suc, ◌+◌, Bool, true, false, ◌||◌, Option, none, some, List, [], ◌∷◌, ◌++◌, Text, codes,
  length, drop, has_prefix, index, split, if◌then◌else◌,
}
use token_usage.Parsers.Std.{trim_space}

-- codexFilePatch; the counts are int64 in the source, and a text has fewer lines than that.
pub record FilePatch : Type 0 where
  pub path : Text
  pub added : ℕ
  pub removed : ℕ

-- out[cur].added++ and out[cur].removed++
unfoldable pub bump_at : List FilePatch → ℕ → Bool → List FilePatch
bump_at [] i adds = []
bump_at (p ∷ out) zero adds =
    (if adds then record p { added = suc p.added } else record p { removed = suc p.removed }) ∷ out
bump_at (p ∷ out) (suc i) adds = p ∷ bump_at out i adds

-- l[strings.Index(l, ": ")+2:]
unfoldable pub after_colon : Text → Text
unfolding index
after_colon l = elim (index l (codes ": ")) [ some i ↦ drop (i + 2) l | none ↦ drop 1 l ]

-- the switch of the loop, over `out` and `cur`; `none` is -1
unfoldable pub patch_line : Text → List FilePatch × Option ℕ → List FilePatch × Option ℕ
patch_line l (out, cur) =
    if has_prefix l (codes "*** Update File: ") || has_prefix l (codes "*** Add File: ")
    then (
      out ++ record { path = trim_space (after_colon l); added = 0; removed = 0 } ∷ [],
      some (length out),
    )
    else if has_prefix l (codes "*** ")
    then (out, none)
    else elim cur [
      | none ↦ (out, none)
      | some i ↦
          if has_prefix l (codes "+")
          then (bump_at out i true, some i)
          else if has_prefix l (codes "-")
          then (bump_at out i false, some i)
          else (out, some i)
    ]

unfoldable pub patch_lines : List Text → List FilePatch × Option ℕ → List FilePatch × Option ℕ
patch_lines [] s = s
patch_lines (l ∷ ls) s = patch_lines ls (patch_line l s)

unfoldable pub parse_apply_patch : Text → List FilePatch
parse_apply_patch input = (patch_lines (split input b'\n') ([], none)).0
