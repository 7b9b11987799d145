-- ===== src/Server/Dashboard/Totals.antt =====
-- What /summary says of the tokens that the ingest requests before it have stored.
use token_usage.Prelude.{
  ◌⊎◌, inl, inr, ℕ, ◌≡◌, refl, ap, ◌∙◌, Bool, Option, some, List, [], ◌∷◌, map, Text, text_eq,
  codes, ◌==◌, nat_beq, arith, All, if◌then◌else◌, Bool-cases, Option-cases,
}
use mathlib.Core.Path.{subst, ap₂}
use token_usage.Prelude.Int.{ℤ, pos, ◌+ℤ◌, add64, IsInt64, wrap64_lem, sum_by}
use token_usage.Types.{IngestRequest}
use token_usage.Store.Keys.{DailyKey}
use token_usage.Store.Usage.{UsageSums}
use token_usage.Store.Prices.{Price}
use token_usage.Store.Queries.{tokens_of}
use token_usage.Store.Queries.Priced.{Float, Rates, AggRow, aggregate}
use token_usage.Store.Queries.Priced.Totals.{summary_tokens, detail_tokens, aggregate-detail}
use token_usage.Server.Ingest.{Database}
use token_usage.Server.System.{Event, run_events, run_events-AreSound}
use token_usage.Server.Ingest.Sound.{AreSound}
use token_usage.Server.Dashboard.{
  PageRequest, rows_json, TimeCodec, answer, SummaryRow, summary_row, from_of, to_of,
  handle_summary,
}

-- The rows of an answer are those that the query returned.
pub answer-rows_json :
    {A B : Type 0} (view : A → B) (r : PageRequest) (found : Option (List A)) {rows : List B}
    → answer view r found ≡ rows_json rows
    → (read : List A) × (found ≡ some read) × (rows ≡ map view read)
unfolding answer
answer-rows_json view r found {rows} h = elim (Bool-cases (r.method == codes "GET")) [
  | inr other ↦ absurd (ground (arith, other, h))
  | inl get ↦ elim (Option-cases found) [
    | inl failed ↦ absurd (ground (arith, get, failed, h))
    | inr (read, e) ↦ (read, e, ground (arith, get, e, h))
  ]
]

module _ {F : Type 0} where
  -- The total of a row is computed without a wrap-around.
  abbrev pub TotalFits : SummaryRow F → Type 0
  TotalFits r =
      IsInt64 (r.input +ℤ r.output)
      × IsInt64 (r.input +ℤ r.output +ℤ r.cache_cc)
      × IsInt64 (r.input +ℤ r.output +ℤ r.cache_cc +ℤ r.cache_rr)

  abbrev pub total_of_day : ℕ → List (SummaryRow F) → ℤ
  total_of_day day = sum_by (λ (r : SummaryRow F). if nat_beq r.day day then r.total else pos 0)

  module _ (fl : Float F) (is_zero : F → Bool) (rates : List (Text × Rates F)) where
    abbrev view : AggRow F → SummaryRow F
    view = summary_row fl is_zero rates

    summary_row-total :
        (row : AggRow F) → TotalFits (view row) → (view row).total ≡ tokens_of row.sums
    unfolding summary_row add64
    summary_row-total row (a, b, c) = rw (wrap64_lem _ a, wrap64_lem _ b) (wrap64_lem _ c)

    total_of_day-view :
        (day : ℕ) (found : List (AggRow F))
        → All TotalFits (map view found)
        → total_of_day day (map view found) ≡ summary_tokens day found
    unfolding summary_row
    total_of_day-view day [] h = refl
    total_of_day-view day (row ∷ found) (here, rest) =
        ap₂ ◌+ℤ◌
          (ap (λ (n : ℤ). if nat_beq row.day day then n else pos 0) (summary_row-total row here))
          (total_of_day-view day found rest)

-- After any requests to /ingest, rebuilds by the worker and runs of codex-repair, in whatever order and
-- whatever came of them, the totals that /summary answers with for a day are the tokens of the detail rows
-- of that day, of the users and days that the request selects, if the tables were sound before the first
-- and no total of the answer wraps around.
pub handle_summary-detail :
    {F : Type 0} (fl : Float F) (midnight : ℕ → ℕ) (prices : List (Price (Rates F)))
    (before : (DailyKey × UsageSums) → (DailyKey × UsageSums) → Bool) (is_zero : F → Bool)
    (rates : List (Text × Rates F)) (times : TimeCodec) (fault : Bool) (sha256 : Text → List ℕ)
    (decode : Text → Text ⊎ IngestRequest) (micros : ℕ → ℕ) (events : List Event) (db : Database)
    (r : PageRequest) {rows : List (SummaryRow F)}
    → AreSound db
    → handle_summary times fault r fl midnight prices before is_zero rates
        (run_events sha256 decode micros events db).usage.daily
      ≡ rows_json rows
    → All TotalFits rows
    → (day : ℕ)
    → total_of_day day rows
      ≡ detail_tokens
          (r.get (codes "user"))
          (from_of times fault r)
          (to_of times fault r)
          day
          (run_events sha256 decode micros events db).usage.detail
unfolding handle_summary
handle_summary-detail fl midnight prices before is_zero rates times fault sha256 decode micros
      events db r {rows} h e fits day =
    let after : Database = run_events sha256 decode micros events db in
    let sound = run_events-AreSound sha256 decode micros events db h in
    let user = r.get (codes "user") in
    let (found, q, same) =
      answer-rows_json (summary_row fl is_zero rates) r
        (aggregate fl midnight prices before fault user (from_of times fault r)
          (to_of times fault r) after.usage.daily)
        e in
    ap (total_of_day day) same
    ∙ (total_of_day-view fl is_zero rates day found (subst (λ x. All TotalFits x) same fits)
        ∙ aggregate-detail fl midnight prices before fault user (from_of times fault r)
            (to_of times fault r) after.usage sound.usage.consistent sound.keyed q day)
