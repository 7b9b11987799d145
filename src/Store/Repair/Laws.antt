-- ===== src/Store/Repair/Laws.antt =====
-- A repair keeps the daily table in step with the detail rows.
use token_usage.Prelude.{
  inl, inr, ℕ, ◌*◌, ◌/◌, ◌≤◌, ◌≡◌, refl, true, false, Option, none, some, List, [], ◌∷◌, Text,
  text_eq, ◌==◌, keep, map, All, arith, Bool-cases, Option-cases,
}
use token_usage.Prelude.Int.{eq_of_parts}
use token_usage.Store.Keys.{DetailKey, DailyKey, detail_key_eq, daily_key_eq}
use token_usage.Store.Rollup.{has_id, rollup, HasUniqueIds}
use token_usage.Store.Usage.{UsageDetail, UsageSums, usage_stream, detail_id, daily_key, utc_date}
use token_usage.Store.Usage.Rebuild.{in_days, day_nanos}
use token_usage.Store.Repair.{
  StageRow, differs, min_ts, max_ts, is_scoped, match_of, is_changed, update_row, repair_stats,
  nanos,
}

module _ (user_id machine_id : Text) (stage : List StageRow) where
  update_row-key :
      (r : UsageDetail) → daily_key (update_row user_id machine_id stage r) ≡ daily_key r
  unfolding update_row daily_key
  update_row-key r = ground arith

  update_row-id :
      (r : UsageDetail) → detail_id (update_row user_id machine_id stage r) ≡ detail_id r
  unfolding update_row detail_id
  update_row-id r = ground arith

  -- A row that is not counted as changed is not changed.
  update_row-same :
      (r : UsageDetail)
      → is_changed user_id machine_id stage r ≡ false
      → update_row user_id machine_id stage r ≡ r
  unfolding update_row is_changed differs
  update_row-same r h = elim (Option-cases (match_of user_id machine_id stage r)) [
    | inl e ↦ rw (update_row, e) refl
    | inr (s, e) ↦ ground (
      arith,
      e,
      eq_of_parts r.input_tokens s.input_tokens,
      eq_of_parts r.output_tokens s.output_tokens,
      eq_of_parts r.cache_creation_tokens s.cache_creation_tokens,
      eq_of_parts r.cache_read_tokens s.cache_read_tokens,
    )
  ]

  -- and a row that was changed is not changed again
  update_row-settled :
      (r : UsageDetail)
      → is_changed user_id machine_id stage (update_row user_id machine_id stage r) ≡ false
  unfolding update_row is_changed match_of is_scoped detail_id differs
  update_row-settled r = elim (Option-cases (match_of user_id machine_id stage r)) [
    | inl e ↦ rw (update_row, is_changed, e, e) refl
    | inr (s, e) ↦ ground (arith, e)
  ]

  abbrev AtLeast : ℕ → Option ℕ → Type 0
  AtLeast a none = Unit
  AtLeast a (some t) = a ≤ t

  abbrev AtMost : ℕ → Option ℕ → Type 0
  AtMost b none = Unit
  AtMost b (some t) = t ≤ b

  AtLeast-min_ts :
      (a : ℕ) (r : UsageDetail) (rows : List UsageDetail)
      → AtLeast a (min_ts (r ∷ rows))
      → (a ≤ r.ts) × AtLeast a (min_ts rows)
  AtLeast-min_ts a r rows h = ground (arith, h)

  AtMost-max_ts :
      (b : ℕ) (r : UsageDetail) (rows : List UsageDetail)
      → AtMost b (max_ts (r ∷ rows))
      → (r.ts ≤ b) × AtMost b (max_ts rows)
  AtMost-max_ts b r rows h = ground (arith, h)

  -- No row outside a range of times is changed.
  abbrev Covers : ℕ → ℕ → List UsageDetail → Type 0
  Covers a b =
      All (λ (r : UsageDetail).
        is_changed user_id machine_id stage r ≡ true → (a ≤ r.ts) × (r.ts ≤ b))

  ts-Covers :
      (a b : ℕ) (rows : List UsageDetail)
      → AtLeast a (min_ts (keep (is_changed user_id machine_id stage) rows))
      → AtMost b (max_ts (keep (is_changed user_id machine_id stage) rows))
      → Covers a b rows
  ts-Covers a b [] h h' = tt
  ts-Covers a b (r ∷ rows) h h' =
      let changed = keep (is_changed user_id machine_id stage) rows in
      elim (Bool-cases (is_changed user_id machine_id stage r)) [
        | inr same ↦
            let e : keep (is_changed user_id machine_id stage) (r ∷ rows) ≡ changed =
              ground (arith, same) in
            (λ new. ground (arith, same, new), ts-Covers a b rows (rw e at h) (rw e at h'))
        | inl new ↦
            let e : keep (is_changed user_id machine_id stage) (r ∷ rows) ≡ r ∷ changed =
              ground (arith, new) in
            let (low, rest) = AtLeast-min_ts a r changed (rw e at h) in
            let (high, rest') = AtMost-max_ts b r changed (rw e at h') in
            (λ _. (low, high), ts-Covers a b rows rest rest')
      ]

  day-in_days :
      (a b : ℕ) (k : DailyKey) (r : UsageDetail)
      → daily_key r ≡ k
      → (a ≤ r.ts) × (r.ts ≤ b)
      → in_days (a * 1000 / day_nanos) (b * 1000 / day_nanos) k.day ≡ true
  unfolding daily_key utc_date
  day-in_days a b k r e h = rw (← e) (ground (arith, h))

  rollup-update_row :
      (a b : ℕ) (k : DailyKey) (rows : List UsageDetail) (o : Option UsageSums)
      → Covers a b rows
      → in_days (a * 1000 / day_nanos) (b * 1000 / day_nanos) k.day ≡ false
      → rollup usage_stream k (map (update_row user_id machine_id stage) rows) o
        ≡ rollup usage_stream k rows o
  unfolding rollup
  rollup-update_row a b k [] o h out = refl
  rollup-update_row a b k (r ∷ rows) o (here, rest) out =
      elim (Bool-cases (is_changed user_id machine_id stage r)) [
        | inr same ↦ rw (update_row-same r same) (rollup-update_row a b k rows _ rest out)
        | inl new ↦
            let other : daily_key r == k ≡ false =
              ground
                (arith, out, daily_key_eq.beq_iff (daily_key r) k, day-in_days a b k r, here new) in
            ground (arith, update_row-key r, other, rollup-update_row a b k rows o rest out)
      ]

  AtLeast-refl : (o : Option ℕ) → AtLeast (nanos o / 1000) o
  AtLeast-refl none = tt
  AtLeast-refl (some t) = omega arith

  AtMost-refl : (o : Option ℕ) → AtMost (nanos o / 1000) o
  AtMost-refl none = tt
  AtMost-refl (some t) = omega arith

  nanos_lem : (o : Option ℕ) → nanos o / 1000 * 1000 ≡ nanos o
  nanos_lem none = refl
  nanos_lem (some t) = omega arith

  -- Outside the days that a repair builds again, the rows sum up to what they did.
  pub rollup-repair :
      (rows : List UsageDetail) (k : DailyKey)
      → in_days
          (nanos (repair_stats user_id machine_id stage rows).from / day_nanos)
          (nanos (repair_stats user_id machine_id stage rows).to / day_nanos)
          k.day
        ≡ false
      → rollup usage_stream k (map (update_row user_id machine_id stage) rows) none
        ≡ rollup usage_stream k rows none
  unfolding repair_stats
  rollup-repair rows k out =
      let changed = keep (is_changed user_id machine_id stage) rows in
      let a = nanos (min_ts changed) / 1000 in
      let b = nanos (max_ts changed) / 1000 in
      rollup-update_row a b k rows none
        (ts-Covers a b rows (AtLeast-refl (min_ts changed)) (AtMost-refl (max_ts changed)))
        (rw (nanos_lem (min_ts changed), nanos_lem (max_ts changed)) out)

  pub changed-update_row :
      (rows : List UsageDetail)
      → (repair_stats user_id machine_id stage
          (map (update_row user_id machine_id stage) rows)).changed
        ≡ 0
  unfolding repair_stats
  changed-update_row [] = refl
  changed-update_row (r ∷ rows) = ground (arith, update_row-settled r, changed-update_row rows)

  has_id-update_row :
      (i : DetailKey) (rows : List UsageDetail)
      → has_id usage_stream i (map (update_row user_id machine_id stage) rows)
        ≡ has_id usage_stream i rows
  unfolding has_id
  has_id-update_row i [] = refl
  has_id-update_row i (r ∷ rows) = ground (arith, update_row-id r, has_id-update_row i rows)

  pub HasUniqueIds-update_row :
      (rows : List UsageDetail)
      → HasUniqueIds usage_stream rows
      → HasUniqueIds usage_stream (map (update_row user_id machine_id stage) rows)
  HasUniqueIds-update_row [] h = tt
  HasUniqueIds-update_row (r ∷ rows) (h, rest) = (
    rw (update_row-id r, has_id-update_row (detail_id r) rows) h,
    HasUniqueIds-update_row rows rest,
  )
