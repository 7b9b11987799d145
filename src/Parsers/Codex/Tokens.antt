-- ===== src/Parsers/Codex/Tokens.antt =====
-- The token counts of a Codex session against its cumulative totals.
use token_usage.Prelude.{◌-◌, ◌^◌, ◌≡◌, true, none, some, text_eq, arith}
use token_usage.Prelude.Int.{ℤ, pos, ◌-ℤ◌, ◌≤ℤ◌, sub64, wrap64_lem, IsInt64}
use token_usage.Parsers.Codex.State.{CodexTokens, Delta, token_delta, clamp0, le_zero}

abbrev max_int64 : ℤ
max_int64 = pos (2 ^ 63 - 1)

-- A total that did not fall, within the range of an int64.
pub record IsRise (a b : ℤ) : Type 0 where
  pub nonneg : pos 0 ≤ℤ a
  pub rises : a ≤ℤ b
  pub fits : b ≤ℤ max_int64

diff_rise : (a b : ℤ) → IsRise a b → IsInt64 (b -ℤ a) × (pos 0 ≤ℤ b -ℤ a) × (b -ℤ a ≤ℤ max_int64)
unfolding ◌-ℤ◌
diff_rise a b h = ground arith

sub64_rise : (a b : ℤ) → IsRise a b → sub64 b a ≡ b -ℤ a
unfolding sub64
sub64_rise a b h = wrap64_lem (b -ℤ a) (diff_rise a b h).0

clamp0_nonneg : (a : ℤ) → pos 0 ≤ℤ a → clamp0 a ≡ a
clamp0_nonneg a h = ground arith

-- The totals of one event over those of the event before: none falls, and the cached input grows by
-- no more than the input of which it is a part.
pub record AreRising (p t : CodexTokens) : Type 0 where
  pub input : IsRise p.input_tokens t.input_tokens
  pub cached : IsRise p.cached_input_tokens t.cached_input_tokens
  pub output : IsRise p.output_tokens t.output_tokens
  pub reasoning : IsRise p.reasoning_output_tokens t.reasoning_output_tokens
  pub part : t.cached_input_tokens -ℤ p.cached_input_tokens ≤ℤ t.input_tokens -ℤ p.input_tokens

diff_part :
    (p t : CodexTokens)
    → AreRising p t
    → IsRise (t.cached_input_tokens -ℤ p.cached_input_tokens) (t.input_tokens -ℤ p.input_tokens)
diff_part p t h = record {
  nonneg = (diff_rise _ _ h.cached).1;
  rises = h.part;
  fits = (diff_rise _ _ h.input).2;
}

-- what an event counts that rises over the one before it
unfoldable pub exact : CodexTokens → CodexTokens → Delta
exact p t = record {
  uncached = t.input_tokens -ℤ p.input_tokens -ℤ (t.cached_input_tokens -ℤ p.cached_input_tokens);
  output = t.output_tokens -ℤ p.output_tokens;
  cached = t.cached_input_tokens -ℤ p.cached_input_tokens;
}

same_total : (a b : ℤ) → IsRise a b → le_zero (b -ℤ a) ≡ true → a ≡ b
unfolding ◌-ℤ◌
same_total a b h e = ground arith

-- An event that counts nothing repeats the totals of the one before it.
pub token_delta-none : (p t : CodexTokens) → AreRising p t → token_delta p t ≡ none → p ≡ t
unfolding token_delta
token_delta-none p t h e =
    let i = sub64_rise _ _ h.input in
    let o = sub64_rise _ _ h.output in
    let c = sub64_rise _ _ h.cached in
    let r = sub64_rise _ _ h.reasoning in
    ground (
      arith,
      same_total p.input_tokens t.input_tokens h.input,
      same_total p.output_tokens t.output_tokens h.output,
      same_total p.cached_input_tokens t.cached_input_tokens h.cached,
      same_total p.reasoning_output_tokens t.reasoning_output_tokens h.reasoning,
    )

pub token_delta-some :
    (p t : CodexTokens) {d : Delta} → AreRising p t → token_delta p t ≡ some d → d ≡ exact p t
unfolding token_delta exact
token_delta-some p t h e =
    let i = sub64_rise _ _ h.input in
    let o = sub64_rise _ _ h.output in
    let c = sub64_rise _ _ h.cached in
    let u = sub64_rise _ _ (diff_part p t h) in
    ground (
      arith,
      clamp0_nonneg _ (diff_rise _ _ h.input).1,
      clamp0_nonneg _ (diff_rise _ _ h.output).1,
      clamp0_nonneg _ (diff_rise _ _ h.cached).1,
      clamp0_nonneg _ (diff_rise _ _ (diff_part p t h)).1,
    )
