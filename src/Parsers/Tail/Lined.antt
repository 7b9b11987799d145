-- ===== src/Parsers/Tail/Lined.antt =====
-- A text as complete lines and a rest, and how more text continues it.
use token_usage.Prelude.{
  ℕ, zero, suc, ◌+◌, ◌≤◌, ◌≡◌, ◌≢◌, refl, ap, ◌∙◌, sym, true, false, List, [], ◌∷◌, ◌++◌,
  append_assoc, Text, arith, Lacks, length, length-append, drop, keep, nat_beq, nat_beq_iff,
  Bool-cases, inl, inr,
}
use mathlib.Core.Path.{subst}
use token_usage.Parsers.Std.{lines_of, ends_line}

-- Either no newline, or a first line and what follows it.
data Lined : Text → Type 0 where
  partial : (p : Text) → Lacks b'\n' p → Lined p
  line : (s p r : Text) → s ≡ p ++ b'\n' ∷ r → Lacks b'\n' p → Lined r → Lined s

Lined-cons : (a : ℕ) (s : Text) → Lined s → Lined (a ∷ s)
Lined-cons a s l = elim (Bool-cases (nat_beq a b'\n')) [
  | inl e ↦ line (a ∷ s) [] s (ap (λ c. c ∷ s) ((nat_beq_iff a b'\n').0 e)) tt l
  | inr e ↦ longer (ground arith) l
]
  where
    longer : a ≢ b'\n' → Lined s → Lined (a ∷ s)
    longer h (partial p lacks) = partial (a ∷ p) (h, lacks)
    longer h (line s' p r e lacks rest) =
        line (a ∷ s') (a ∷ p) r (ap (λ t. a ∷ t) e) (h, lacks) rest

lined : (s : Text) → Lined s
lined [] = partial [] tt
lined (a ∷ s) = Lined-cons a s (lined s)

-- the lines that a tail scan takes, and their bytes
unfoldable pub complete : Text → List Text
complete s = keep ends_line (lines_of s)

unfoldable pub total_length : List Text → ℕ
total_length [] = 0
total_length (l ∷ ls) = length l + total_length ls

abbrev pub consumed : Text → ℕ
consumed s = total_length (complete s)

lines_of-line :
    (p r : Text) → Lacks b'\n' p → lines_of (p ++ b'\n' ∷ r) ≡ (p ++ b'\n' ∷ []) ∷ lines_of r
unfolding lines_of
lines_of-line [] r h = refl
lines_of-line (a ∷ p) r (ha, hp) = ground (arith, lines_of-line p r hp)

ends_line-append : (p : Text) → ends_line (p ++ b'\n' ∷ []) ≡ true
unfolding ends_line
ends_line-append [] = refl
ends_line-append (a ∷ []) = refl
ends_line-append (a ∷ b ∷ p) = ends_line-append (b ∷ p)

complete-line :
    (p r : Text) → Lacks b'\n' p → complete (p ++ b'\n' ∷ r) ≡ (p ++ b'\n' ∷ []) ∷ complete r
unfolding complete
complete-line p r h = rw (lines_of-line p r h, keep, ends_line-append p)

lines_of-Lacks : (a : ℕ) (p : Text) → Lacks b'\n' (a ∷ p) → lines_of (a ∷ p) ≡ (a ∷ p) ∷ []
unfolding lines_of
lines_of-Lacks a [] (ha, _) = ground arith
lines_of-Lacks a (b ∷ p) (ha, hp) = ground (arith, lines_of-Lacks b p hp)

ends_line-Lacks : (p : Text) → Lacks b'\n' p → ends_line p ≡ false
unfolding ends_line
ends_line-Lacks [] h = refl
ends_line-Lacks (a ∷ []) (ha, _) = ground arith
ends_line-Lacks (a ∷ b ∷ p) (ha, h) = ends_line-Lacks (b ∷ p) h

complete-Lacks : (p : Text) → Lacks b'\n' p → complete p ≡ []
unfolding complete
complete-Lacks [] h = unfold lines_of in refl
complete-Lacks (a ∷ p) h = rw (lines_of-Lacks a p h, keep, ends_line-Lacks (a ∷ p) h)

drop-append : {A : Type 0} (p r : List A) (k n : ℕ) → k ≡ length p + n → drop k (p ++ r) ≡ drop n r
drop-append [] r k n e = let same : k ≡ n = omega arith in rw same
drop-append (a ∷ p) r zero n e = absurd (omega arith)
drop-append (a ∷ p) r (suc k) n e = drop-append p r k n (omega arith)

consumed-line : (p r : Text) → Lacks b'\n' p → consumed (p ++ b'\n' ∷ r) ≡ length p + 1 + consumed r
unfolding total_length
consumed-line p r h =
    ap total_length (complete-line p r h) ∙ omega (arith, length-append {0} p (b'\n' ∷ []))

drop-consumed-line :
    (p r : Text)
    → Lacks b'\n' p
    → drop (consumed (p ++ b'\n' ∷ r)) (p ++ b'\n' ∷ r) ≡ drop (consumed r) r
drop-consumed-line p r h = rw (← append_assoc p (b'\n' ∷ []) r) (
    drop-append (p ++ b'\n' ∷ []) r _ (consumed r)
      (rw append_assoc (consumed-line p r h ∙ omega (arith, length-append {0} p (b'\n' ∷ [])))))

-- More text behind a text: the lines that were complete, and those of the rest continued.
abbrev Continues : Text → Text → Type 0
Continues t s =
    (complete (s ++ t) ≡ complete s ++ complete (drop (consumed s) s ++ t))
    × (consumed s ≤ length s)

continue_line : (t p r : Text) → Lacks b'\n' p → Continues t r → Continues t (p ++ b'\n' ∷ r)
continue_line t p r h (lines, bound) = (
  rw (append_assoc, drop-consumed-line p r h, complete-line p r h)
      (complete-line p (r ++ t) h ∙ ap (λ ls. (p ++ b'\n' ∷ []) ∷ ls) lines),
  omega (arith, consumed-line p r h, length-append {0} p (b'\n' ∷ r)),
)

continue-Lined : (t s : Text) → Lined s → Continues t s
unfolding total_length
continue-Lined t s (partial p h) = rw (complete-Lacks s h) (refl, omega arith)
continue-Lined t s (line s' p r e h rest) =
    subst (Continues t) (sym e) (continue_line t p r h (continue-Lined t r rest))

pub complete-append :
    (s t : Text) → complete (s ++ t) ≡ complete s ++ complete (drop (consumed s) s ++ t)
complete-append s t = (continue-Lined t s (lined s)).0

pub consumed-le : (s : Text) → consumed s ≤ length s
consumed-le s = (continue-Lined [] s (lined s)).1
