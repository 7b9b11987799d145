-- ===== src/Store/Queries/Priced/Totals.antt =====
-- What the dashboard adds up: the totals of /summary, of the heatmap and of the detail rows agree.
use token_usage.Sort.{order_by}
use token_usage.Prelude.{
  inl, inr, ℕ, ◌≡◌, refl, ◌∙◌, sym, Bool, true, false, not, ◌&&◌, ◌||◌, some, List, [], Text,
  nat_eq, nat_beq, arith, if◌then◌else◌, Bool-cases, leb,
}
use token_usage.Prelude.Int.{ℤ, pos, ◌+ℤ◌, sum_by, +ℤ-zero, +ℤ_interchange}
use token_usage.Store.Keys.{DailyKey, daily_key_eq, detail_key_eq}
use token_usage.Table.{IsUnique}
use token_usage.Store.Rollup.{Daily, IsConsistent}
use token_usage.Store.Usage.{
  UsageDetail, UsageSums, UsageTables, usage_stream, daily_key, single, merge,
}
use token_usage.Store.Usage.Rebuild.{DailyTable}
use token_usage.Store.Prices.{Price}
use token_usage.Store.Queries.{
  selects, selected, tally, without_machine, tokens_of, all_fit, Activity, ActivityRow, activity_of,
  add_activity, activity_row, activity_aggregate,
}
use token_usage.Store.Queries.Tally.{
  weigh, sum_by-order_by, sum_by-scan_rows, sum_by-tally, sum_by-keep,
}
use token_usage.Store.Queries.Rows.{sum_by-IsConsistent}
use token_usage.Store.Queries.Priced.{Float, Rates, AggRow, agg, agg_row, aggregate}

pub tokens_of-merge : (a b : UsageSums) → tokens_of (merge a b) ≡ tokens_of a +ℤ tokens_of b
unfolding merge
tokens_of-merge a b = rw (
  +ℤ_interchange a.input_tokens b.input_tokens a.output_tokens b.output_tokens,
  +ℤ_interchange (a.input_tokens +ℤ a.output_tokens) (b.input_tokens +ℤ b.output_tokens)
      a.cache_creation_tokens b.cache_creation_tokens,
  +ℤ_interchange (a.input_tokens +ℤ a.output_tokens +ℤ a.cache_creation_tokens)
      (b.input_tokens +ℤ b.output_tokens +ℤ b.cache_creation_tokens) a.cache_read_tokens
      b.cache_read_tokens,
)

abbrev on_day : ℕ → DailyKey → Bool
on_day day k = nat_beq k.day day

-- The tokens of the daily rows of a day that a query selects.
abbrev daily_tokens : Text → ℕ → ℕ → ℕ → DailyTable → ℤ
daily_tokens user from to day daily =
    sum_by (weigh (on_day day) (λ (d : Daily UsageSums). tokens_of d.sums))
      (selected user from to daily)

-- and of the rows that it returns
abbrev pub activity_tokens : ℕ → List ActivityRow → ℤ
activity_tokens day = sum_by (λ (r : ActivityRow). if nat_beq r.day day then r.tokens else pos 0)

abbrev pub summary_tokens : {F : Type 0} → ℕ → List (AggRow F) → ℤ
summary_tokens {F} day =
    sum_by (λ (r : AggRow F). if nat_beq r.day day then tokens_of r.sums else pos 0)

-- The tokens of the detail rows of a day and of the users and days of a query.
abbrev pub detail_tokens : Text → ℕ → ℕ → ℕ → List UsageDetail → ℤ
detail_tokens user from to day = sum_by (λ (r : UsageDetail).
    if on_day day (daily_key r) && selects user from to (daily_key r)
    then tokens_of (single r)
    else pos 0)

activity_row-tokens :
    (day : ℕ) (row : ℕ × Activity) (r : ActivityRow)
    → activity_row row ≡ some r
    → (if nat_beq r.day day then r.tokens else pos 0)
      ≡ weigh (λ d. nat_beq d day) (λ (a : Activity). a.tokens) row
activity_row-tokens day (d, a) r e = ground (arith, e)

activity_aggregate-tokens :
    (fault : Bool) (user : Text) (from to day : ℕ) (daily : DailyTable) {rows : List ActivityRow}
    → activity_aggregate fault user from to daily ≡ some rows
    → activity_tokens day rows ≡ daily_tokens user from to day daily
unfolding activity_aggregate
activity_aggregate-tokens fault user from to day daily {rows} h =
    let chosen = selected user from to daily in
    let tokens : Activity → ℤ = λ a. a.tokens in
    let groups = tally (λ (k : DailyKey). k.day) activity_of add_activity chosen [] in
    let test : ℕ → Bool = λ d. nat_beq d day in
    let before : (ℕ × Activity) → (ℕ × Activity) → Bool = λ a b. leb a.0 b.0 in
    elim (Bool-cases (fault || not (all_fit chosen))) [
      | inl fails ↦ ground (arith, fails, h)
      | inr works ↦
          sum_by-scan_rows activity_row (weigh test tokens)
            (λ (r : ActivityRow). if nat_beq r.day day then r.tokens else pos 0)
            (order_by before groups) (λ a b e. activity_row-tokens day a b e)
            (ground (arith, works, h))
          ∙ (sum_by-order_by (weigh test tokens) before groups
              ∙ (sum_by-tally (λ (k : DailyKey). k.day) activity_of add_activity test tokens
                    (λ a b. refl) chosen []
                  ∙ +ℤ-zero _))
    ]

module _ {F : Type 0} (fl : Float F) (midnight : ℕ → ℕ) (prices : List (Price (Rates F))) where
  agg_row-tokens :
      (day : ℕ) (row : DailyKey × UsageSums) (r : AggRow F)
      → agg_row fl midnight prices row ≡ some r
      → (if nat_beq r.day day then tokens_of r.sums else pos 0) ≡ weigh (on_day day) tokens_of row
  agg_row-tokens day (k, s) r e = ground (arith, e)

  aggregate-tokens :
      (before : (DailyKey × UsageSums) → (DailyKey × UsageSums) → Bool) (fault : Bool) (user : Text)
      (from to day : ℕ) (daily : DailyTable)
      → {rows : List (AggRow F)}
      → aggregate fl midnight prices before fault user from to daily ≡ some rows
      → summary_tokens day rows ≡ daily_tokens user from to day daily
  unfolding aggregate agg
  aggregate-tokens before true user from to day daily h = ground (arith, h)
  aggregate-tokens before false user from to day daily h =
      let chosen = selected user from to daily in
      let groups = tally without_machine (λ (d : Daily UsageSums). d.sums) merge chosen [] in
      sum_by-scan_rows (agg_row fl midnight prices) (weigh (on_day day) tokens_of)
        (λ (r : AggRow F). if nat_beq r.day day then tokens_of r.sums else pos 0)
        (order_by before groups) (λ a b e. agg_row-tokens day a b e) h
      ∙ (sum_by-order_by (weigh (on_day day) tokens_of) before groups
          ∙ (sum_by-tally without_machine (λ (d : Daily UsageSums). d.sums) merge (on_day day)
                tokens_of tokens_of-merge chosen []
              ∙ +ℤ-zero _))

  -- The summary and the heatmap of one state of the table, for the same user and the same times, agree on
  -- the tokens of every day, if both queries return.
  pub aggregate-activity :
      (before : (DailyKey × UsageSums) → (DailyKey × UsageSums) → Bool) (fault fault' : Bool)
      (user : Text) (from to : ℕ)
      → (daily : DailyTable) {rows : List (AggRow F)} {days : List ActivityRow}
      → aggregate fl midnight prices before fault user from to daily ≡ some rows
      → activity_aggregate fault' user from to daily ≡ some days
      → (day : ℕ) → summary_tokens day rows ≡ activity_tokens day days
  aggregate-activity before fault fault' user from to daily h h' day =
      aggregate-tokens before fault user from to day daily h
      ∙ sym (activity_aggregate-tokens fault' user from to day daily h')

  -- Of tables that are consistent, and whose daily rows have different keys, the tokens of a day in the
  -- summary are those of the detail rows of that day that its filters select.
  pub aggregate-detail :
      (before : (DailyKey × UsageSums) → (DailyKey × UsageSums) → Bool) (fault : Bool) (user : Text)
      (from to : ℕ) (t : UsageTables)
      → {rows : List (AggRow F)} → IsConsistent usage_stream t
      → IsUnique t.daily
      → aggregate fl midnight prices before fault user from to t.daily ≡ some rows
      → (day : ℕ) → summary_tokens day rows ≡ detail_tokens user from to day t.detail
  aggregate-detail before fault user from to t c unique h day =
      aggregate-tokens before fault user from to day t.daily h
      ∙ (sum_by-keep (on_day day) (selects user from to) (λ (d : Daily UsageSums). tokens_of d.sums)
            t.daily
          ∙ sum_by-IsConsistent usage_stream (λ k. on_day day k && selects user from to k) tokens_of
              tokens_of-merge t unique c)
