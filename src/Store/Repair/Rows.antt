-- ===== src/Store/Repair/Rows.antt =====
-- What a repair does to the detail rows, apart from the statement that does it.
use token_usage.Prelude.{
  ◌⊎◌, inl, inr, ◌≡◌, refl, sym, ap, true, none, some, List, [], ◌∷◌, map, Text, text_eq, codes,
  ◌==◌, IsIn, arith, Bool-cases, Option-cases,
}
use token_usage.Store.Keys.{DetailKey, detail_key_eq}
use token_usage.Store.Usage.{UsageDetail, detail_id}
use token_usage.Store.Repair.{StageRow, stage_id, find_stage, is_scoped, match_of, update_row}

module _ (user_id machine_id : Text) (stage : List StageRow) where
  -- A Codex row of the user and the machine, and a row of the stage with its id.
  pub record IsJoined (r : UsageDetail) (s : StageRow) : Type 0 where
    pub tool : r.tool ≡ codes "codex"
    pub user : r.user_id ≡ user_id
    pub machine : r.machine_id ≡ machine_id
    pub staged : IsIn s stage
    pub message : s.message_id ≡ r.message_id
    pub request : s.request_id ≡ r.request_id

  -- A row that is joined has the four counts of the stage and is otherwise as it was; one that is not is
  -- as it was.
  abbrev pub IsRepaired : UsageDetail → UsageDetail → Type 0
  IsRepaired r r' =
      ((s : StageRow) × IsJoined r s
        × (r' ≡ record r {
          input_tokens = s.input_tokens;
          output_tokens = s.output_tokens;
          cache_creation_tokens = s.cache_creation_tokens;
          cache_read_tokens = s.cache_read_tokens;
        }))
      ⊎ (((s : StageRow) → IsJoined r s → ⊥) × (r' ≡ r))

  abbrev pub AreRepaired : List UsageDetail → List UsageDetail → Type 0
  AreRepaired [] [] = Unit
  AreRepaired [] (r' ∷ rows') = ⊥
  AreRepaired (r ∷ rows) [] = ⊥
  AreRepaired (r ∷ rows) (r' ∷ rows') = IsRepaired r r' × AreRepaired rows rows'

find_stage-some :
    (k : DetailKey) (stage : List StageRow) {s : StageRow}
    → find_stage k stage ≡ some s
    → IsIn s stage × (s.message_id ≡ k.message_id) × (s.request_id ≡ k.request_id)
unfolding find_stage
find_stage-some k [] e = absurd (ground (arith, e))
find_stage-some k (x ∷ stage) {s} e = elim (Bool-cases (stage_id x == k)) [
  | inl same ↦
      let one : x ≡ s = ground (arith, e, same) in
      let id = (detail_key_eq.beq_iff (stage_id x) k).0 same in
      (
        inl (sym one),
        (rw (← one) (ap (λ (i : DetailKey). i.message_id) id)),
        (rw (← one) (ap (λ (i : DetailKey). i.request_id) id)),
      )
  | inr other ↦
      let (there, m, q) = find_stage-some k stage (ground (arith, e, other)) in (inr there, m, q)
]

find_stage-none :
    (k : DetailKey) (stage : List StageRow) (s : StageRow)
    → find_stage k stage ≡ none
    → IsIn s stage
    → s.message_id ≡ k.message_id
    → s.request_id ≡ k.request_id
    → ⊥
unfolding find_stage
find_stage-none k [] s e i m r = absurd i
find_stage-none k (x ∷ stage) s e (inl same) m r =
    ground (arith, e, same, m, r, detail_key_eq.beq_iff (stage_id x) k)
find_stage-none k (x ∷ stage) s e (inr i) m r = elim (Bool-cases (stage_id x == k)) [
  | inl same ↦ ground (arith, e, same)
  | inr other ↦ find_stage-none k stage s (ground (arith, e, other)) i m r
]

is_scoped_iff :
    (user_id machine_id : Text) (r : UsageDetail)
    → is_scoped user_id machine_id r ≡ true
    → (r.tool ≡ codes "codex") × (r.user_id ≡ user_id) × (r.machine_id ≡ machine_id)
unfolding is_scoped
is_scoped_iff user_id machine_id r h = (
  (text_eq.beq_iff r.tool (codes "codex")).0 (ground (arith, h)),
  (text_eq.beq_iff r.user_id user_id).0 (ground (arith, h)),
  (text_eq.beq_iff r.machine_id machine_id).0 (ground (arith, h)),
)

is_scoped_only :
    (user_id machine_id : Text) (r : UsageDetail)
    → r.tool ≡ codes "codex"
    → r.user_id ≡ user_id
    → r.machine_id ≡ machine_id
    → is_scoped user_id machine_id r ≡ true
unfolding is_scoped
is_scoped_only user_id machine_id r t u m =
    let a = (text_eq.beq_iff r.tool (codes "codex")).1 t in
    let b = (text_eq.beq_iff r.user_id user_id).1 u in
    let c = (text_eq.beq_iff r.machine_id machine_id).1 m in rw (is_scoped, a, b, c) refl

module _ (user_id machine_id : Text) (stage : List StageRow) where
  update_row-IsRepaired :
      (r : UsageDetail)
      → IsRepaired user_id machine_id stage r (update_row user_id machine_id stage r)
  unfolding update_row match_of is_scoped detail_id
  update_row-IsRepaired r = elim (Bool-cases (is_scoped user_id machine_id r)) [
    | inr other ↦ inr (
      λ s j. ground (arith, other, is_scoped_only user_id machine_id r j.tool j.user j.machine),
      rw (update_row, match_of, other) refl,
    )
    | inl scoped ↦ elim (Option-cases (find_stage (detail_id r) stage)) [
      | inl e ↦ inr (
        λ s j. find_stage-none (detail_id r) stage s e j.staged j.message j.request,
        rw (update_row, match_of, scoped, e) refl,
      )
      | inr (s, e) ↦
          let scope = is_scoped_iff user_id machine_id r scoped in
          let (there, m, q) = find_stage-some (detail_id r) stage e in
          inl (
            s,
            record {
              tool = scope.0;
              user = scope.1;
              machine = scope.2;
              staged = there;
              message = m;
              request = q;
            },
            rw (update_row, match_of, scoped, e) refl,
          )
    ]
  ]

  pub update_row-AreRepaired :
      (rows : List UsageDetail)
      → AreRepaired user_id machine_id stage rows (map (update_row user_id machine_id stage) rows)
  update_row-AreRepaired [] = tt
  update_row-AreRepaired (r ∷ rows) = (update_row-IsRepaired r, update_row-AreRepaired rows)
