-- ===== src/Parsers/Tail/Resume.antt =====
-- Scans of a growing file, tick by tick, against one scan of the whole file.
use token_usage.Prelude.{
  ℕ, zero, suc, ◌+◌, ◌≤◌, ◌≡◌, refl, ap, ◌∙◌, sym, false, List, [], ◌∷◌, ◌++◌, append_assoc,
  append-nil, Text, arith, length, length-append, drop, keep, nat_beq, nat_beq_iff, Bool-cases, inl,
  inr,
}
use mathlib.Core.Path.{ap₂}
use token_usage.Parsers.Std.{ScanResult, FileState, File, lines_of, ends_line}
use token_usage.Parsers.Tail.{empty, append, start_offset, tail_lines, tail_scan}
use token_usage.Parsers.Tail.Lined.{complete, total_length, consumed, complete-append, consumed-le}

abbrev pub new_file : FileState
new_file = record { inode = 0; offset = 0 }

-- A file that can be read and does not grow under the scan.
abbrev pub file : ℕ → Text → File
file inode s = record { inode = inode; size = length s; content = s; read_fails = false }

pub append_assoc_results : (a b c : ScanResult) → append (append a b) c ≡ append a (append b c)
append_assoc_results a b c = λ i. record {
  usage = append_assoc a.usage b.usage c.usage i;
  edits = append_assoc a.edits b.edits c.edits i;
}

pub append-empty : (a : ScanResult) → append a empty ≡ a
append-empty a = λ i. record { usage = append-nil a.usage i; edits = append-nil a.edits i }

length-drop_all : {A : Type 0} (s : List A) → drop (length s) s ≡ []
length-drop_all [] = refl
length-drop_all (a ∷ s) = length-drop_all s

drop-append_le :
    {A : Type 0} (n : ℕ) (s t : List A) → n ≤ length s → drop n (s ++ t) ≡ drop n s ++ t
drop-append_le zero s t h = refl
drop-append_le (suc n) [] t h = absurd (omega arith)
drop-append_le (suc n) (a ∷ s) t h = drop-append_le n s t (omega arith)

total_length-append :
    (ls ms : List Text) → total_length (ls ++ ms) ≡ total_length ls + total_length ms
unfolding total_length
total_length-append [] ms = omega arith
total_length-append (l ∷ ls) ms = omega (arith, total_length-append ls ms)

consumed-append :
    (s t : Text) → consumed (s ++ t) ≡ consumed s + consumed (drop (consumed s) s ++ t)
consumed-append s t = ap total_length (complete-append s t) ∙ total_length-append (complete s) _

start_new : (inode n : ℕ) → start_offset new_file inode n ≡ 0
unfolding start_offset
start_new inode n = refl

module _ (emit : Text → ScanResult) where
  -- What the lines yield, in order.
  unfoldable pub collect : List Text → ScanResult
  collect [] = empty
  collect (l ∷ ls) = append (emit l) (collect ls)

  collect-append : (ls ms : List Text) → collect (ls ++ ms) ≡ append (collect ls) (collect ms)
  unfolding collect
  collect-append [] ms = refl
  collect-append (l ∷ ls) ms =
      ap (append (emit l)) (collect-append ls ms)
      ∙ sym (append_assoc_results (emit l) (collect ls) (collect ms))

  tail_lines-collect :
      (ls : List Text) (cur : ℕ) (res : ScanResult)
      → tail_lines emit ls cur res
        ≡ (append res (collect (keep ends_line ls)), cur + total_length (keep ends_line ls))
  unfolding tail_lines collect total_length
  tail_lines-collect [] cur res = ap₂ (λ r n. (r, n)) (sym (append-empty res)) (omega arith)
  tail_lines-collect (l ∷ ls) cur res = elim (Bool-cases (ends_line l)) [
    | inl e ↦
        rw (e, keep)
          (tail_lines-collect ls (cur + length l) (append res (emit l))
            ∙ ap₂ (λ r n. (r, n)) (append_assoc_results res (emit l) _) (omega arith))
    | inr e ↦ rw (e, keep) (tail_lines-collect ls cur res)
  ]

  -- A scan from an offset takes the complete lines behind it.
  scan_from :
      (inode : ℕ) (s : Text) (prev : FileState) (offset : ℕ)
      → start_offset prev inode (length s) ≡ offset
      → tail_scan emit (file inode s) prev ≡ (
        collect (complete (drop offset s)),
        record { inode = inode; offset = offset + consumed (drop offset s) },
        false,
      )
  unfolding tail_scan complete
  scan_from inode s prev offset e = elim (Bool-cases (nat_beq (length s) offset)) [
    | inl h ↦
        let at_end : drop offset s ≡ [] =
          ap (λ n. drop n s) (sym ((nat_beq_iff (length s) offset).0 h)) ∙ length-drop_all s in
        rw (e, h, at_end)
          (unfold lines_of collect total_length in
            ap (λ n. (empty, record { inode = inode; offset = n }, false)) (omega arith))
    | inr h ↦
        rw (e, h)
          (ap (λ r. (r.0, record { inode = inode; offset = r.1 }, false))
            (tail_lines-collect (lines_of (drop offset s)) offset empty))
  ]

  resume_offset :
      (inode : ℕ) (s t : Text)
      → start_offset (record { inode = inode; offset = consumed s }) inode (length (s ++ t))
        ≡ consumed s
  unfolding start_offset
  resume_offset inode s t = ground (arith, consumed-le s, length-append {0} s t)

  pub resume :
      (inode : ℕ) (s t : Text)
      → tail_scan emit (file inode (s ++ t)) (record { inode = inode; offset = consumed s }) ≡ (
        collect (complete (drop (consumed s) s ++ t)),
        record { inode = inode; offset = consumed (s ++ t) },
        false,
      )
  resume inode s t =
      scan_from inode (s ++ t) (record { inode = inode; offset = consumed s }) (consumed s)
        (resume_offset inode s t)
      ∙ rw (drop-append_le (consumed s) s t (consumed-le s)) (
          ap
            (λ n. (
              collect (complete (drop (consumed s) s ++ t)),
              record { inode = inode; offset = n },
              false,
            ))
            (sym (consumed-append s t)))

  pub first_scan :
      (inode : ℕ) (s : Text)
      → tail_scan emit (file inode s) new_file
        ≡ (collect (complete s), record { inode = inode; offset = consumed s }, false)
  first_scan inode s =
      scan_from inode s new_file 0 (start_new _ _)
      ∙ ap (λ n. (collect (complete s), record { inode = inode; offset = n }, false)) (omega arith)

-- What a scan makes of a line, and the chunk that the file has grown by before it.
abbrev pub Scan : Type 0
Scan = (Text → ScanResult) × Text

-- The whole text in the end.
unfoldable pub concat : List Scan → Text
concat [] = []
concat ((emit, t) ∷ scans) = t ++ concat scans

-- The scans of a file that grows by one chunk before each of them: what they yield and the last state.
unfoldable pub ticks : ℕ → Text → List Scan → FileState → ScanResult × FileState
ticks inode s [] prev = (empty, prev)
ticks inode s ((emit, t) ∷ scans) prev =
    let scanned = tail_scan emit (file inode (s ++ t)) prev in
    let rest = ticks inode (s ++ t) scans scanned.1 in (append scanned.0 rest.0, rest.1)

-- The lines fall into one run for each scan, in order, and the result is what each scan makes of its run.
abbrev pub IsYield : List Scan → ScanResult → List Text → Type 0
IsYield [] res lines = (res ≡ empty) × (lines ≡ [])
IsYield ((emit, t) ∷ scans) res lines =
    (run : List Text) × (rest : List Text) × (more : ScanResult) × (lines ≡ run ++ rest)
    × (res ≡ append (collect emit run) more)
    × IsYield scans more rest

ticks-resume :
    (inode : ℕ) (s : Text) (scans : List Scan)
    → let rest = ticks inode s scans (record { inode = inode; offset = consumed s }) in
      (lines : List Text) × (complete (s ++ concat scans) ≡ complete s ++ lines)
      × IsYield scans rest.0 lines
      × (rest.1 ≡ record { inode = inode; offset = consumed (s ++ concat scans) })
unfolding ticks concat
ticks-resume inode s [] = (
  [],
  ap complete (append-nil s) ∙ sym (append-nil (complete s)),
  (refl, refl),
  ap (λ x. record { inode = inode; offset = consumed x }) (sym (append-nil s)),
)
ticks-resume inode s ((emit, t) ∷ scans) =
    let (lines, split, yields, state) = ticks-resume inode (s ++ t) scans in
    let run = complete (drop (consumed s) s ++ t) in
    let whole = append_assoc s t (concat scans) in
    rw (resume emit inode s t) (
      run ++ lines,
      ap complete (sym whole)
          ∙ split
          ∙ ap (λ ls. ls ++ lines) (complete-append s t)
          ∙ append_assoc (complete s) run lines,
      (run, lines, _, refl, refl, yields),
      state ∙ ap (λ x. record { inode = inode; offset = consumed x }) whole,
    )

-- A file that grows chunk by chunk, scanned after each chunk, wherever the chunks break, yields each of its
-- complete lines once and in order, as the scan reads it that comes first; one scan of the whole file
-- reads the same lines, and keeps the state that the last of the scans keeps. What a scan makes of a line
-- may differ from scan to scan, as with the time. The file keeps its inode, is read without an error and
-- does not grow during a scan.
pub ticks-concat :
    (emit whole_emit : Text → ScanResult) (inode : ℕ) (t : Text) (scans : List Scan)
    → let text = t ++ concat scans in
      let whole = tail_scan whole_emit (file inode text) new_file in
      let out = ticks inode [] ((emit, t) ∷ scans) new_file in
      IsYield ((emit, t) ∷ scans) out.0 (complete text)
      × (whole.0 ≡ collect whole_emit (complete text))
      × (out.1 ≡ whole.1)
unfolding ticks
ticks-concat emit whole_emit inode t scans =
    let (lines, split, yields, state) = ticks-resume inode t scans in
    rw (first_scan emit inode t, first_scan whole_emit inode (t ++ concat scans))
      ((complete t, lines, _, split, refl, yields), refl, state)
