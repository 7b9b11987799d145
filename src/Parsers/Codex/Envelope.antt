-- ===== src/Parsers/Codex/Envelope.antt =====
-- `parseApplyPatch` against the envelope format: what a patch of several files is counted as.
use token_usage.Prelude.{
  ℕ, suc, ◌+◌, ◌≡◌, refl, ap, ◌∙◌, sym, Bool, true, false, Option, none, some, List, [], ◌∷◌, ◌++◌,
  append_assoc, append-nil, Text, codes, arith, length, All, has_prefix, index, if◌then◌else◌,
  Lacks,
}
use mathlib.Core.Path.{ap₂}
use token_usage.Parsers.Std.{trim_space, join}
use token_usage.Parsers.Lines.{split-join}
use token_usage.Parsers.Codex.Patch.{
  FilePatch, bump_at, after_colon, patch_line, patch_lines, parse_apply_patch,
}

-- A section of an envelope, with the lines below its head: a file that is updated, added, or updated and
-- moved, or one that is deleted.
pub data Section : Type 0 where
  updates : (path : Text) (body : List Text) → Section
  adds : (path : Text) (body : List Text) → Section
  moves : (path target : Text) (body : List Text) → Section
  deletes : (path : Text) → Section

abbrev AreInside : List Text → Type 0
AreInside = All (λ l. has_prefix l (codes "*** ") ≡ false)

-- Paths without white space around them, and lines that are not those of a head.
abbrev pub IsSection : Section → Type 0
IsSection (updates path body) = (trim_space path ≡ path) × AreInside body
IsSection (adds path body) = (trim_space path ≡ path) × AreInside body
IsSection (moves path target body) = (trim_space path ≡ path) × AreInside body
IsSection (deletes path) = Unit

abbrev lines_of_section : Section → List Text
lines_of_section (updates path body) = (codes "*** Update File: " ++ path) ∷ body
lines_of_section (adds path body) = (codes "*** Add File: " ++ path) ∷ body
lines_of_section (moves path target body) =
    (codes "*** Update File: " ++ path) ∷ (codes "*** Move to: " ++ target) ∷ body
lines_of_section (deletes path) = (codes "*** Delete File: " ++ path) ∷ []

unfoldable pub section_lines : List Section → List Text
section_lines [] = codes "*** End Patch" ∷ []
section_lines (s ∷ ss) = lines_of_section s ++ section_lines ss

unfoldable pub envelope_lines : List Section → List Text
envelope_lines ss = codes "*** Begin Patch" ∷ section_lines ss

-- how many lines begin with a byte
unfoldable pub count_prefix : ℕ → List Text → ℕ
count_prefix c [] = 0
count_prefix c (l ∷ ls) = let n = count_prefix c ls in if has_prefix l (c ∷ []) then suc n else n

abbrev new_patch : Text → FilePatch
new_patch path = record { path = path; added = 0; removed = 0 }

abbrev counted : FilePatch → ℕ → ℕ → FilePatch
counted p a r = record p { added = p.added + a; removed = p.removed + r }

-- The files of a section. The lines of a file that is moved are not counted.
unfoldable pub files_of : Section → List FilePatch
files_of (updates path body) =
    record { path = path; added = count_prefix b'+' body; removed = count_prefix b'-' body } ∷ []
files_of (adds path body) =
    record { path = path; added = count_prefix b'+' body; removed = count_prefix b'-' body } ∷ []
files_of (moves path target body) = record { path = path; added = 0; removed = 0 } ∷ []
files_of (deletes path) = []

unfoldable pub all_files : List Section → List FilePatch
all_files [] = []
all_files (s ∷ ss) = files_of s ++ all_files ss

-- the current file is the last
bump_at-last :
    (out : List FilePatch) (p : FilePatch)
    → (bump_at (out ++ p ∷ []) (length out) true ≡ out ++ record p { added = suc p.added } ∷ [])
      × (bump_at (out ++ p ∷ []) (length out) false
          ≡ out ++ record p { removed = suc p.removed } ∷ [])
unfolding bump_at
bump_at-last [] p = (refl, refl)
bump_at-last (x ∷ out) p = ground (arith, bump_at-last out p)

has_prefix-append : (l p q : Text) → has_prefix l p ≡ false → has_prefix l (p ++ q) ≡ false
unfolding has_prefix
has_prefix-append l [] q h = cc
has_prefix-append [] (a ∷ p) q h = refl
has_prefix-append (b ∷ l) (a ∷ p) q h = ground (arith, has_prefix-append l p q)

plus_or_minus : (l : Text) → has_prefix l (codes "+") ≡ true → has_prefix l (codes "-") ≡ false
unfolding has_prefix
plus_or_minus [] h = refl
plus_or_minus (a ∷ l) h = ground arith

-- 1 for a line with the prefix
abbrev one_if : Bool → ℕ
one_if true = 1
one_if false = 0

patch_line-body :
    (l : Text) (out : List FilePatch) (p : FilePatch)
    → has_prefix l (codes "*** ") ≡ false
    → patch_line l (out ++ p ∷ [], some (length out)) ≡ (
      out ++ counted p (one_if (has_prefix l (codes "+"))) (one_if (has_prefix l (codes "-"))) ∷ [],
      some (length out),
    )
unfolding patch_line
patch_line-body l out p h = ground (
  arith,
  has_prefix-append l (codes "*** ") (codes "Update File: ") h,
  has_prefix-append l (codes "*** ") (codes "Add File: ") h,
  bump_at-last out p,
  plus_or_minus l,
)

counted-zero : (p : FilePatch) → counted p 0 0 ≡ p
counted-zero p = ground arith

counted-counted :
    (p : FilePatch) (a b c d : ℕ) → counted (counted p a b) c d ≡ counted p (a + c) (b + d)
counted-counted p a b c d = ground arith

count_prefix-cons :
    (c : ℕ) (l : Text) (ls : List Text)
    → count_prefix c (l ∷ ls) ≡ one_if (has_prefix l (c ∷ [])) + count_prefix c ls
unfolding count_prefix
count_prefix-cons c l ls = ground arith

patch_lines-body :
    (body rest : List Text) (out : List FilePatch) (p : FilePatch)
    → All (λ l. has_prefix l (codes "*** ") ≡ false) body
    → patch_lines (body ++ rest) (out ++ p ∷ [], some (length out))
      ≡ patch_lines rest (
        out ++ counted p (count_prefix b'+' body) (count_prefix b'-' body) ∷ [],
        some (length out),
      )
unfolding patch_lines count_prefix
patch_lines-body [] rest out p h =
    ap (λ q. patch_lines rest (out ++ q ∷ [], some (length out))) (sym (counted-zero p))
patch_lines-body (l ∷ ls) rest out p (hl, hls) =
    ap (patch_lines (ls ++ rest)) (patch_line-body l out p hl)
    ∙ patch_lines-body ls rest out _ hls
    ∙ ap (λ q. patch_lines rest (out ++ q ∷ [], some (length out)))
        (counted-counted p _ _ _ _
          ∙ ap₂ (counted p) (sym (count_prefix-cons b'+' l ls)) (sym (count_prefix-cons b'-' l ls)))

-- Below a head that names no file, nothing is counted.
patch_lines-idle :
    (body rest : List Text) (out : List FilePatch)
    → AreInside body
    → patch_lines (body ++ rest) (out, none) ≡ patch_lines rest (out, none)
unfolding patch_lines patch_line
patch_lines-idle [] rest out h = refl
patch_lines-idle (l ∷ ls) rest out (hl, hls) =
    let idle : patch_line l (out, none) ≡ (out, none) = ground (
      arith,
      has_prefix-append l (codes "*** ") (codes "Update File: ") hl,
      has_prefix-append l (codes "*** ") (codes "Add File: ") hl,
    ) in
    ap (patch_lines (ls ++ rest)) idle ∙ patch_lines-idle ls rest out hls

patch_line-update :
    (path : Text) (s : List FilePatch × Option ℕ)
    → trim_space path ≡ path
    → patch_line (codes "*** Update File: " ++ path) s
      ≡ (s.0 ++ new_patch path ∷ [], some (length s.0))
unfolding patch_line has_prefix after_colon index
patch_line-update path s h = rw h refl

patch_line-add :
    (path : Text) (s : List FilePatch × Option ℕ)
    → trim_space path ≡ path
    → patch_line (codes "*** Add File: " ++ path) s
      ≡ (s.0 ++ new_patch path ∷ [], some (length s.0))
unfolding patch_line has_prefix after_colon index
patch_line-add path s h = rw h refl

patch_line-move :
    (target : Text) (s : List FilePatch × Option ℕ)
    → patch_line (codes "*** Move to: " ++ target) s ≡ (s.0, none)
unfolding patch_line has_prefix
patch_line-move target s = refl

patch_line-delete :
    (path : Text) (s : List FilePatch × Option ℕ)
    → patch_line (codes "*** Delete File: " ++ path) s ≡ (s.0, none)
unfolding patch_line has_prefix
patch_line-delete path s = refl

counted-new :
    (path : Text) (a r : ℕ)
    → counted (new_patch path) a r ≡ record { path = path; added = a; removed = r }
counted-new path a r = ground arith

-- A file with its lines.
patch_lines-file :
    (path : Text) (body rest : List Text) (out : List FilePatch)
    → AreInside body
    → patch_lines (body ++ rest) (out ++ new_patch path ∷ [], some (length out))
      ≡ patch_lines rest (
        out
            ++ record {
              path = path;
              added = count_prefix b'+' body;
              removed = count_prefix b'-' body;
            }
              ∷ [],
        some (length out),
      )
patch_lines-file path body rest out h =
    patch_lines-body body rest out (new_patch path) h
    ∙ ap (λ f. patch_lines rest (out ++ f ∷ [], some (length out))) (counted-new path _ _)

-- A section adds its files, and what comes after it is read apart from the file it ends with.
patch_lines-section :
    (x : Section) (rest : List Text) (s : List FilePatch × Option ℕ)
    → IsSection x
    → (cur : Option ℕ) × (patch_lines (lines_of_section x ++ rest) s
        ≡ patch_lines rest (s.0 ++ files_of x, cur))
unfolding patch_lines files_of
patch_lines-section (updates path body) rest s (trimmed, inside) = (
  _,
  ap (patch_lines (body ++ rest)) (patch_line-update path s trimmed)
      ∙ patch_lines-file path body rest s.0 inside,
)
patch_lines-section (adds path body) rest s (trimmed, inside) = (
  _,
  ap (patch_lines (body ++ rest)) (patch_line-add path s trimmed)
      ∙ patch_lines-file path body rest s.0 inside,
)
patch_lines-section (moves path target body) rest s (trimmed, inside) = (
  none,
  ap (λ z. patch_lines (body ++ rest) (patch_line (codes "*** Move to: " ++ target) z))
        (patch_line-update path s trimmed)
      ∙ ap (patch_lines (body ++ rest)) (patch_line-move target _)
      ∙ patch_lines-idle body rest _ inside,
)
patch_lines-section (deletes path) rest s h = (
  none,
  ap (patch_lines rest)
      (patch_line-delete path s ∙ ap (λ (f : List FilePatch). (f, none)) (sym (append-nil s.0))),
)

patch_lines-sections :
    (ss : List Section) (s : List FilePatch × Option ℕ)
    → All IsSection ss
    → (patch_lines (section_lines ss) s).0 ≡ s.0 ++ all_files ss
unfolding patch_lines section_lines all_files
patch_lines-sections [] s h = rw append-nil (unfold patch_line has_prefix in refl)
patch_lines-sections (x ∷ xs) s (hx, hxs) =
    let (cur, one) = patch_lines-section x (section_lines xs) s hx in
    ap (λ (z : List FilePatch × Option ℕ). z.0) one
    ∙ patch_lines-sections xs (s.0 ++ files_of x, cur) hxs
    ∙ append_assoc s.0 (files_of x) (all_files xs)

patch_lines-begin :
    (ls : List Text)
    → (patch_lines (codes "*** Begin Patch" ∷ ls) ([], none)).0 ≡ (patch_lines ls ([], none)).0
unfolding patch_lines patch_line has_prefix
patch_lines-begin ls = refl

-- An envelope of several sections, written line by line, is read as its files: each that is updated or added
-- with the number of its lines that begin with `+` and with `-`, one that is moved with none, and none that
-- is deleted. No line below a head begins with `*** `, no line breaks, and the paths are trimmed.
pub parse_apply_patch-envelope :
    (ss : List Section)
    → All IsSection ss
    → All (Lacks b'\n') (envelope_lines ss)
    → parse_apply_patch (join (envelope_lines ss) (codes "\n")) ≡ all_files ss
unfolding parse_apply_patch envelope_lines
parse_apply_patch-envelope ss h lacks =
    ap (λ ls. (patch_lines ls ([], none)).0)
      (split-join b'\n' (codes "*** Begin Patch") (section_lines ss) lacks)
    ∙ patch_lines-begin (section_lines ss)
    ∙ patch_lines-sections ss ([], none) h
