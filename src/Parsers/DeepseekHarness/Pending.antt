-- ===== src/Parsers/DeepseekHarness/Pending.antt =====
-- A call of a tool waits for its result, which settles it once.
use token_usage.Prelude.{
  ◌≡◌, refl, ◌∙◌, Bool, false, none, some, List, [], ◌∷◌, ◌++◌, Text, text_eq, text_beq,
  text_beq_iff, codes, ◌==◌, All, arith, if◌then◌else◌, ℕ, inl, inr, Option-cases,
}
use token_usage.Prelude.Int.{ℤ}
use token_usage.Table.{lookup, lookup-alter}
use token_usage.Parsers.DeepseekHarness.{
  DshJson, DshEvent, DshState, DshToolResult, DshPendingEdit, delete_pending, call_edit, on_message,
  on_call, on_result, event_time, edit_record, dsh_line, dsh_lines,
}

lookup-delete_pending :
    (j id : Text) (pending : List (Text × DshPendingEdit))
    → lookup j (delete_pending id pending) ≡ (if id == j then none else lookup j pending)
unfolding lookup
lookup-delete_pending j id [] = ground arith
lookup-delete_pending j id ((i, p) ∷ pending) = ground (
  arith,
  lookup-delete_pending j id pending,
  text_beq_iff i id,
  text_beq_iff i j,
  text_beq_iff id j,
  text_beq_iff id id,
)

module _ (json : DshJson) (tool : Text) (cutoff : ℤ) (now : ℕ) where
  -- A call of a tool with an id, or the result of one.
  abbrev concerns : Text → Text → Bool
  concerns id line = elim (json.event line) [
    | none ↦ false
    | some ev ↦
        if ev.kind == codes "tool/call"
        then elim (call_edit json (event_time json tool cutoff now ev) ev.payload) [
          | none ↦ false
          | some call ↦ call.0 == id
        ]
        else if ev.kind == codes "tool/result"
        then elim (json.tool_result ev.payload) [ none ↦ false | some r ↦ r.tool_call_id == id ]
        else false
  ]

  on_message-pending :
      (ts : ℕ) (payload : Text) (st : DshState)
      → (on_message json tool cutoff now ts payload st).pending ≡ st.pending
  unfolding on_message
  on_message-pending ts payload st = ground arith

  on_call-pending :
      (id : Text) (ts : ℕ) (payload : Text) (st : DshState)
      → (elim (call_edit json ts payload) [ none ↦ false | some call ↦ call.0 == id ]) ≡ false
      → lookup id (on_call json tool cutoff now ts payload st).pending ≡ lookup id st.pending
  unfolding on_call
  on_call-pending id ts payload st h = elim (Option-cases (call_edit json ts payload)) [
    | inl e ↦ rw (on_call, e) refl
    | inr ((j, p), e) ↦
        rw (on_call, e) (ground (arith, h, e, lookup-alter id j (λ _. p) st.pending))
  ]

  on_result-pending :
      (id payload : Text) (st : DshState)
      → (elim (json.tool_result payload) [ none ↦ false | some r ↦ r.tool_call_id == id ]) ≡ false
      → lookup id (on_result json tool cutoff now payload st).pending ≡ lookup id st.pending
  unfolding on_result
  on_result-pending id payload st h = elim (Option-cases (json.tool_result payload)) [
    | inl e ↦ rw (on_result, e) refl
    | inr (r, e) ↦ ground (arith, h, e, lookup-delete_pending id r.tool_call_id st.pending)
  ]

  dsh_line-pending :
      (id line : Text) (st : DshState)
      → concerns id line ≡ false
      → lookup id (dsh_line json tool cutoff now line st).pending ≡ lookup id st.pending
  unfolding dsh_line
  dsh_line-pending id line st h = elim (Option-cases (json.event line)) [
    | inl e ↦ rw (dsh_line, e) refl
    | inr (ev, e) ↦
        let ts = event_time json tool cutoff now ev in
        ground (
          arith,
          h,
          e,
          on_message-pending ts ev.payload st,
          on_call-pending id ts ev.payload st,
          on_result-pending id ev.payload st,
        )
  ]

  dsh_lines-pending :
      (id : Text) (lines : List Text) (st : DshState)
      → All (λ l. concerns id l ≡ false) lines
      → lookup id (dsh_lines json tool cutoff now lines st).pending ≡ lookup id st.pending
  unfolding dsh_lines
  dsh_lines-pending id [] st h = refl
  dsh_lines-pending id (line ∷ lines) st (here, rest) =
      dsh_lines-pending id lines (dsh_line json tool cutoff now line st) rest
      ∙ dsh_line-pending id line st here

  -- A call that waits, behind lines of which none is a call or a result of its id, is settled by a line that
  -- brings a result for its id: one edit of that call is added, or none if the call failed, and the call waits
  -- no more.
  pub dsh_line-settles :
      (id : Text) (p : DshPendingEdit) (lines : List Text) (line : Text) (ev : DshEvent)
      (r : DshToolResult) (st : DshState)
      → lookup id st.pending ≡ some p
      → All (λ l. concerns id l ≡ false) lines
      → json.event line ≡ some ev
      → ev.kind ≡ codes "tool/result"
      → json.tool_result ev.payload ≡ some r
      → r.tool_call_id ≡ id
      → ((dsh_line json tool cutoff now line (dsh_lines json tool cutoff now lines st)).edits ≡ (
          if r.failed
          then (dsh_lines json tool cutoff now lines st).edits
          else (dsh_lines json tool cutoff now lines st).edits
            ++ edit_record json tool cutoff now
                (dsh_lines json tool cutoff now lines st).session
                id
                p
              ∷ []))
        × (lookup id
              (dsh_line json tool cutoff now line (dsh_lines json tool cutoff now lines st)).pending
            ≡ none)
  unfolding dsh_line on_result text_beq
  dsh_line-settles id p lines line ev r st waits apart e kind result same =
      let st' = dsh_lines json tool cutoff now lines st in
      let still : lookup r.tool_call_id st'.pending ≡ some p =
        rw same (dsh_lines-pending id lines st apart ∙ waits) in
      let gone = lookup-delete_pending id id st'.pending in
      rw (dsh_line, e, kind, on_result, result, still)
        (ground (arith, same, text_beq_iff id id), ground (arith, same, gone, text_beq_iff id id))
