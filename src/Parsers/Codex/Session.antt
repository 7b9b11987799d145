-- ===== src/Parsers/Codex/Session.antt =====
-- A whole session: what its records sum up to.
use token_usage.Prelude.{
  ℕ, ◌≡◌, refl, ap, ◌∙◌, sym, Option, none, some, List, [], ◌∷◌, ◌++◌, Text, codes, ◌==◌, text_eq,
  text_beq_iff, arith, if◌then◌else◌, Option-cases, inl, inr, ◌>>=◌,
}
use token_usage.Prelude.Int.{ℤ, pos, ◌+ℤ◌, int_laws, pos_part, neg_part, +ℤ_assoc, zero-+ℤ}
use mathlib.Core.Path.{ap₂, subst}
use token_usage.Types.{UsageRecord}
use token_usage.Parsers.Codex.State.{
  CodexLine, CodexTokens, CodexTokenCount, Json, CodexScanState, token_delta,
}
use token_usage.Parsers.Codex.Emit.{
  emit_tokens, emit_codex_line, emit_lines, usage_record, emit_event_msg, emit_response_item,
  add_patch_apply_end, no_tokens, start,
}
use token_usage.Parsers.Codex.Tokens.{AreRising, exact, token_delta-none, token_delta-some}

abbrev token_totals : Option CodexTokenCount → Option CodexTokens
token_totals none = none
token_totals (some tc) =
    if tc.kind == codes "patch_apply_end"
    then none
    else if tc.kind == codes "token_count"
    then tc.total
    else none

-- The cumulative totals that a line reports, if it is a token_count event.
unfoldable pub line_totals : Json → Text → Option CodexTokens
line_totals json line = do
  l ← json.line line
  if l.kind == codes "event_msg" then token_totals (json.token_count l.payload) else none

unfoldable pub totals_of : Json → List Text → List CodexTokens
totals_of json [] = []
totals_of json (l ∷ ls) =
    let rest = totals_of json ls in elim (line_totals json l) [ some t ↦ t ∷ rest | none ↦ rest ]

abbrev pub AllRising : CodexTokens → List CodexTokens → Type 0
AllRising p [] = Unit
AllRising p (t ∷ ts) = AreRising p t × AllRising t ts

abbrev pub last_total : CodexTokens → List CodexTokens → CodexTokens
last_total p [] = p
last_total p (t ∷ ts) = last_total t ts

unfoldable pub sum_of : (UsageRecord → ℤ) → List UsageRecord → ℤ
sum_of f [] = pos 0
sum_of f (r ∷ rs) = f r +ℤ sum_of f rs

sum_of-append :
    (f : UsageRecord → ℤ) (rs : List UsageRecord) (r : UsageRecord)
    → sum_of f (rs ++ r ∷ []) ≡ sum_of f rs +ℤ f r
unfolding sum_of
sum_of-append f [] r = omega int_laws
sum_of-append f (x ∷ xs) r = ap (λ n. f x +ℤ n) (sum_of-append f xs r) ∙ sym (+ℤ_assoc _ _ _)

-- The records say what the totals `p` say.
pub record SumsTo (usage : List UsageRecord) (p : CodexTokens) : Type 0 where
  pub output : sum_of (λ r. r.output_tokens) usage ≡ p.output_tokens
  pub cached : sum_of (λ r. r.cache_read_tokens) usage ≡ p.cached_input_tokens
  pub input :
      sum_of (λ r. r.input_tokens) usage +ℤ sum_of (λ r. r.cache_read_tokens) usage ≡ p.input_tokens

module _ (json : Json) (tool : Text) (cutoff : ℤ) (now : ℕ) where
  add_patch_apply_end_keeps :
      (l : CodexLine) (st : CodexScanState)
      → ((add_patch_apply_end json tool cutoff now l st).usage ≡ st.usage)
        × ((add_patch_apply_end json tool cutoff now l st).prev ≡ st.prev)
  unfolding add_patch_apply_end
  add_patch_apply_end_keeps l st = ground arith

  emit_response_item_keeps :
      (l : CodexLine) (st : CodexScanState)
      → ((emit_response_item json tool cutoff now l st).usage ≡ st.usage)
        × ((emit_response_item json tool cutoff now l st).prev ≡ st.prev)
  unfolding emit_response_item
  emit_response_item_keeps l st = ground arith

  -- A line that reports no totals adds no record.
  emit_codex_line-none :
      (line : Text) (st : CodexScanState)
      → line_totals json line ≡ none
      → ((emit_codex_line json tool cutoff now line st).usage ≡ st.usage)
        × ((emit_codex_line json tool cutoff now line st).prev ≡ st.prev)
  unfolding emit_codex_line emit_event_msg line_totals
  emit_codex_line-none line st h = elim (Option-cases (json.line line)) [
    | inl e ↦ ground arith
    | inr (l, e) ↦ ground (
      arith,
      add_patch_apply_end_keeps l st,
      emit_response_item_keeps l st,
      json.token_count l.payload,
    )
  ]

  -- A line that reports totals is a token_count event.
  emit_codex_line-some :
      (line : Text) (st : CodexScanState) {t : CodexTokens}
      → line_totals json line ≡ some t
      → (l : CodexLine) × (emit_codex_line json tool cutoff now line st
          ≡ emit_tokens json tool cutoff now l t st)
  unfolding emit_codex_line emit_event_msg line_totals
  emit_codex_line-some line st h = elim (Option-cases (json.line line)) [
    | inl e ↦ ground arith
    | inr (l, e) ↦ (
      l,
      ground (
        arith,
        text_beq_iff l.kind (codes "session_meta"),
        text_beq_iff l.kind (codes "turn_context"),
        text_beq_iff l.kind (codes "response_item"),
        text_beq_iff l.kind (codes "event_msg"),
      ),
    )
  ]

  sums_grow :
      (l : CodexLine) (t : CodexTokens) (st : CodexScanState)
      → SumsTo st.usage st.prev
      → SumsTo (st.usage ++ usage_record json tool cutoff now l st (exact st.prev t) ∷ []) t
  unfolding usage_record exact
  sums_grow l t st sums =
      let r = usage_record json tool cutoff now l st (exact st.prev t) in
      let o = sum_of-append (λ r. r.output_tokens) st.usage r in
      let c = sum_of-append (λ r. r.cache_read_tokens) st.usage r in
      let i = sum_of-append (λ r. r.input_tokens) st.usage r in
      record {
        output = o ∙ omega (int_laws, ap pos_part sums.output, ap neg_part sums.output);
        cached = c ∙ omega (int_laws, ap pos_part sums.cached, ap neg_part sums.cached);
        input = ap₂ ◌+ℤ◌ i c ∙ omega (int_laws, ap pos_part sums.input, ap neg_part sums.input);
      }

  emit_tokens-SumsTo :
      (l : CodexLine) (t : CodexTokens) (st : CodexScanState)
      → AreRising st.prev t
      → SumsTo st.usage st.prev
      → SumsTo (emit_tokens json tool cutoff now l t st).usage t
        × ((emit_tokens json tool cutoff now l t st).prev ≡ t)
  unfolding emit_tokens
  emit_tokens-SumsTo l t st rise sums = elim (Option-cases (token_delta st.prev t)) [
    | inl e ↦
        let same = token_delta-none st.prev t rise e in
        rw (e, emit_tokens) (subst (SumsTo st.usage) same sums, same)
    | inr (d, e) ↦
        rw (e, emit_tokens, token_delta-some st.prev t rise e) (sums_grow l t st sums, refl)
  ]

  totals_none :
      (line : Text) (lines : List Text)
      → line_totals json line ≡ none
      → totals_of json (line ∷ lines) ≡ totals_of json lines
  unfolding totals_of
  totals_none line lines e = rw (e, totals_of)

  totals_some :
      (line : Text) (lines : List Text) {t : CodexTokens}
      → line_totals json line ≡ some t
      → totals_of json (line ∷ lines) ≡ t ∷ totals_of json lines
  unfolding totals_of
  totals_some line lines e = rw (e, totals_of)

  emit_lines-SumsTo :
      (lines : List Text) (st : CodexScanState) (p : CodexTokens)
      → st.prev ≡ p
      → AllRising p (totals_of json lines)
      → SumsTo st.usage p
      → SumsTo
          (emit_lines json tool cutoff now lines st).usage
          (last_total p (totals_of json lines))
  unfolding emit_lines totals_of
  emit_lines-SumsTo [] st p same rise sums = sums
  emit_lines-SumsTo (line ∷ lines) st p same rise sums =
      elim (Option-cases (line_totals json line)) [
        | inl e ↦
            let (usage, prev) = emit_codex_line-none line st e in
            let skip = totals_none line lines e in
            subst
              (λ ts.
                SumsTo
                  (emit_lines json tool cutoff now lines
                    (emit_codex_line json tool cutoff now line st)).usage
                  (last_total p ts))
              (sym skip)
              (emit_lines-SumsTo lines (emit_codex_line json tool cutoff now line st) p
                (prev ∙ same) (subst (AllRising p) skip rise)
                (subst (λ u. SumsTo u p) (sym usage) sums))
        | inr (t, e) ↦
            let (l, step) = emit_codex_line-some line st e in
            let more = totals_some line lines e in
            let (rise_t, rise_ts) = subst (AllRising p) more rise in
            let (sums_t, prev) =
              emit_tokens-SumsTo l t st (subst (λ q. AreRising q t) (sym same) rise_t)
                (subst (SumsTo st.usage) (sym same) sums) in
            subst
              (λ ts.
                SumsTo
                  (emit_lines json tool cutoff now lines
                    (emit_codex_line json tool cutoff now line st)).usage
                  (last_total p ts))
              (sym more)
              (rw step (
                emit_lines-SumsTo lines (emit_tokens json tool cutoff now l t st) t prev rise_ts
                  sums_t))
      ]

  -- When the cumulative totals of a session's lines never fall, and the cached input never grows by more
  -- than the input does, its records sum up to the last totals: all its output, all its cached input, and
  -- the rest of its input as uncached input.
  pub session_sums :
      (lines : List Text) (session project : Text)
      → AllRising no_tokens (totals_of json lines)
      → SumsTo
          (emit_lines json tool cutoff now lines (start session project)).usage
          (last_total no_tokens (totals_of json lines))
  unfolding sum_of
  session_sums lines session project rise =
      emit_lines-SumsTo lines (start session project) no_tokens refl rise
        (record { output = refl; cached = refl; input = zero-+ℤ (pos 0) })
