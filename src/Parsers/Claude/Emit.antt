-- ===== src/Parsers/Claude/Emit.antt =====
-- What a line of a Claude Code transcript yields.
use token_usage.Prelude.{
  ◌⊎◌, inl, inr, ℕ, ◌≡◌, refl, false, Option, none, some, List, [], ◌∷◌, Text, codes, ◌==◌, text_eq,
  text_beq, text_beq_iff, arith, Bool-cases, Option-cases,
}
use token_usage.Prelude.Int.{ℤ, pos, ◌≤ℤ◌}
use token_usage.Types.{UsageRecord}
use token_usage.Parsers.Claude.{
  RawLine, RawMessage, ClaudeJson, clamp_to, message_usage, parse_claude_code_line,
  parse_claude_code_edit_lines, claude_emit,
}

clamp_to_bounds : (v max : ℤ) → pos 0 ≤ℤ max → (pos 0 ≤ℤ clamp_to v max) × (clamp_to v max ≤ℤ max)
unfolding clamp_to
clamp_to_bounds v max h = ground arith

abbrev pub usage_list : Option UsageRecord → List UsageRecord
usage_list none = []
usage_list (some r) = r ∷ []

not_user : codes "assistant" == codes "user" ≡ false
unfolding text_beq
not_user = refl

module _ (json : ClaudeJson) (project tool : Text) (cutoff : ℤ) (now : ℕ) where
  -- a line that yields a usage record yields no edit
  edits_of_usage :
      (line : Text) (r : UsageRecord)
      → parse_claude_code_line json project tool cutoff now line ≡ some r
      → parse_claude_code_edit_lines json project tool cutoff now line ≡ []
  unfolding parse_claude_code_line parse_claude_code_edit_lines
  edits_of_usage line r h = elim (Option-cases (json.line line)) [
    | inl e ↦ ground arith
    | inr (raw, e) ↦ ground (arith, text_beq_iff raw.kind (codes "assistant"), not_user)
  ]

  -- The order in which a line is tried does not matter: it yields the usage record that it holds, if it
  -- holds one, and the edits that it holds, and never both.
  pub claude_emit-both :
      (line : Text)
      → (claude_emit json project tool cutoff now line ≡ record {
        usage = usage_list (parse_claude_code_line json project tool cutoff now line);
        edits = parse_claude_code_edit_lines json project tool cutoff now line;
      })
        × ((parse_claude_code_line json project tool cutoff now line ≡ none)
            ⊎ (parse_claude_code_edit_lines json project tool cutoff now line ≡ []))
  unfolding claude_emit
  claude_emit-both line =
      elim (Option-cases (parse_claude_code_line json project tool cutoff now line)) [
        | inl e ↦ rw (e, claude_emit) (refl, inl refl)
        | inr (r, e) ↦ rw (e, claude_emit, edits_of_usage line r e) (refl, inr refl)
      ]

  message_usage-inv :
      (raw : RawLine) (m : Option RawMessage) (r : UsageRecord)
      → message_usage json project tool cutoff now raw m ≡ some r
      → ((r.message_id == []) ≡ false)
        × (v : ℤ) × (r.cache_creation_1h_tokens ≡ clamp_to v r.cache_creation_tokens)
  unfolding message_usage
  message_usage-inv raw none r h = absurd (ground (arith, h))
  message_usage-inv raw (some m) r h = elim (Option-cases m.usage) [
    | inl e ↦ absurd (ground (arith, e, h))
    | inr (u, e) ↦ (ground (arith, e, h), u.ephemeral_1h, ground (arith, e, h))
  ]

  -- A usage record has a message id, and its one-hour share of the cache writes lies between nothing and
  -- all of them, unless the line reports a negative number of cache writes.
  pub parse_claude_code_line_bounds :
      (line : Text) (r : UsageRecord)
      → parse_claude_code_line json project tool cutoff now line ≡ some r
      → pos 0 ≤ℤ r.cache_creation_tokens
      → ((r.message_id == []) ≡ false)
        × (pos 0 ≤ℤ r.cache_creation_1h_tokens)
        × (r.cache_creation_1h_tokens ≤ℤ r.cache_creation_tokens)
  unfolding parse_claude_code_line
  parse_claude_code_line_bounds line r h k = elim (Option-cases (json.line line)) [
    | inl e ↦ absurd (ground (arith, e, h))
    | inr (raw, e) ↦ elim (Bool-cases (raw.kind == codes "assistant")) [
      | inr other ↦ absurd (ground (arith, e, other, h))
      | inl kind ↦
          let (id, v, share) = message_usage-inv raw raw.message r (ground (arith, e, kind, h)) in
          let bounds = clamp_to_bounds v r.cache_creation_tokens k in
          (id, rw share bounds.0, rw share bounds.1)
    ]
  ]
