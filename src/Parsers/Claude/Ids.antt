-- ===== src/Parsers/Claude/Ids.antt =====
-- The event ids of one tool result are different.
use token_usage.Prelude.{
  inl, inr, ℕ, suc, ◌<◌, ◌≡◌, ◌≢◌, sym, ap, ◌∙◌, ◌&&◌, List, [], ◌∷◌, ◌++◌, Text, codes, nat_beq,
  arith, All, ◌==◌, text_eq, Bool-cases, map,
}
use token_usage.Prelude.Int.{ℤ}
use token_usage.Types.{EditRecord}
use token_usage.Parsers.Std.{itoa, digits_value}
use token_usage.Parsers.Numbers.{digits_value-itoa}
use token_usage.Parsers.Claude.{RawLine, BashFile, ClaudeJson, hunk_counts, bash_edits}

append-cancel : {A : Type 0} (s x y : List A) → s ++ x ≡ s ++ y → x ≡ y
append-cancel [] x y h = h
append-cancel (a ∷ s) x y h = append-cancel s x y (cc)

itoa-injective : (m n : ℕ) → itoa m ≡ itoa n → m ≡ n
itoa-injective m n h = sym (digits_value-itoa m) ∙ ap (digits_value 0) h ∙ digits_value-itoa n

numbered :
    (uuid : Text) (m n : ℕ) → uuid ++ (codes "#" ++ itoa m) ≡ uuid ++ (codes "#" ++ itoa n) → m ≡ n
numbered uuid m n h =
    itoa-injective m n (append-cancel (codes "#") (itoa m) (itoa n) (append-cancel uuid _ _ h))

-- No two of the texts are equal.
abbrev AllDifferent : List Text → Type 0
AllDifferent [] = Unit
AllDifferent (x ∷ xs) = All (λ y. x ≢ y) xs × AllDifferent xs

abbrev event_ids : List EditRecord → List Text
event_ids es = map (λ (e : EditRecord). e.event_id) es

module _ (json : ClaudeJson) (project tool : Text) (cutoff : ℤ) (now : ℕ) where
  later_ids :
      (raw : RawLine) (m i : ℕ) (fs : List BashFile)
      → m < i
      → All
          (λ id. raw.uuid ++ (codes "#" ++ itoa m) ≢ id)
          (event_ids (bash_edits json project tool cutoff now raw i fs))
  unfolding bash_edits
  later_ids raw m i [] h = tt
  later_ids raw m i (f ∷ fs) h =
      let rest = later_ids raw m (suc i) fs (omega arith) in
      let other : raw.uuid ++ (codes "#" ++ itoa m) ≢ raw.uuid ++ (codes "#" ++ itoa i) =
        λ e. let same = numbered raw.uuid m i e in absurd (omega arith) in
      elim (Bool-cases (f.file_path == [])) [
        | inl e ↦ rw e rest
        | inr e ↦
            elim (Bool-cases
              (nat_beq (hunk_counts f.hunks).0 0 && nat_beq (hunk_counts f.hunks).1 0)) [
                | inl k ↦ rw (e, k) rest
                | inr k ↦ rw (e, k) (other, rest)
              ]
      ]

  -- The edits of one bash result have different event ids.
  bash_edits-AllDifferent :
      (raw : RawLine) (i : ℕ) (fs : List BashFile)
      → AllDifferent (event_ids (bash_edits json project tool cutoff now raw i fs))
  unfolding bash_edits
  bash_edits-AllDifferent raw i [] = tt
  bash_edits-AllDifferent raw i (f ∷ fs) =
      let rest = bash_edits-AllDifferent raw (suc i) fs in
      let first = later_ids raw i (suc i) fs (omega arith) in
      elim (Bool-cases (f.file_path == [])) [
        | inl e ↦ rw e rest
        | inr e ↦
            elim (Bool-cases
              (nat_beq (hunk_counts f.hunks).0 0 && nat_beq (hunk_counts f.hunks).1 0)) [
                | inl k ↦ rw (e, k) rest
                | inr k ↦ rw (e, k) (first, rest)
              ]
      ]
