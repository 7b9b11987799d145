-- ===== src/Examples/Queries.antt =====
-- The queries of internal/server/store.go on two records of one day, with numbers of dollars that are whole.
use token_usage.Sort.{insert_sorted, order_by}
use token_usage.Prelude.{
  ℕ, ◌+◌, ◌-◌, ◌*◌, ◌/◌, ◌≡◌, refl, Bool, true, false, text_eq, none, some, List, [], ◌∷◌, Text,
  codes, ltb, text_beq, has_prefix,
}
use token_usage.Prelude.Int.{pos, pos_part, ◌+ℤ◌, fits64}
use token_usage.Types.{UsageRecord}
use token_usage.Table.{lookup, alter, IsUnique}
use token_usage.Store.Keys.{detail_key_beq, daily_key_beq, daily_key_eq, detail_key_eq}
use token_usage.Store.Rollup.{has_id, accept, group, upsert_all, insert_rows, run_insert, rollup}
use token_usage.Store.Rollup.Run.{IsSound}
use token_usage.Store.Usage.{
  UsageSums, UsageTables, usage_stream, insert, input_row, input_rows, detail_id, daily_key,
  utc_date, single, merge, sums_fit,
}
use token_usage.Store.Usage.Insert.{insert-IsSound}
use token_usage.Store.Prices.{Price}
use token_usage.Store.Queries.{ActivityRow, selects, tally, scan_rows, activity_aggregate}
use token_usage.Store.Queries.Priced.{
  Float, Rates, AggRow, is_candidate, price_lookup, sql_cost, agg, aggregate,
}
use token_usage.Store.Queries.Priced.Lookup.{Best, price_lookup-Best}
use token_usage.Store.Queries.Priced.Totals.{summary_tokens, activity_tokens, aggregate-activity}

abbrev pub whole : Float ℕ
whole = record {
  of_int = pos_part;
  add = λ a b. a + b;
  sub = λ a b. a - b;
  mul = λ a b. a * b;
  div = λ a b. a / b;
  lt = ltb;
}

abbrev pub rates : ℕ → Rates ℕ
rates n = record {
  input = n;
  output = n;
  cache_creation = n;
  cache_creation_1h = n;
  cache_read = n;
}

abbrev pub price : Text → ℕ → Price (Rates ℕ)
price prefix n = record {
  model_prefix = prefix;
  valid_from = 0;
  valid_to = none;
  rates = rates n;
  source = codes "litellm";
  fetched_at = 1;
}

abbrev pub price_list : List (Price (Rates ℕ))
price_list = price (codes "gpt-5") 3 ∷ price (codes "gpt-5-mini") 1 ∷ price (codes "claude") 9 ∷ []

abbrev pub midnight_utc : ℕ → ℕ
midnight_utc day = day * 86_400_000_000

-- The longest prefix is taken.
price_lookup_mini :
    price_lookup midnight_utc (codes "gpt-5-mini-2025") 0 price_list
    ≡ some (price (codes "gpt-5-mini") 1)
unfolding price_lookup is_candidate has_prefix text_beq
price_lookup_mini = refl

price_lookup-Best_example :
    Best midnight_utc
      (codes "gpt-5-mini-2025")
      0
      price_list
      (price_lookup midnight_utc (codes "gpt-5-mini-2025") 0 price_list)
price_lookup-Best_example = price_lookup-Best midnight_utc (codes "gpt-5-mini-2025") 0 price_list

abbrev pub to_micros : ℕ → ℕ
to_micros n = n / 1000

abbrev pub message : Text → ℕ → UsageRecord
message id input = record {
  message_id = id;
  request_id = codes "r";
  session_id = codes "s";
  tool = codes "codex";
  model = codes "gpt-5";
  timestamp = 5000;
  input_tokens = pos input;
  output_tokens = pos 5;
  cache_creation_tokens = pos 0;
  cache_creation_1h_tokens = pos 0;
  cache_read_tokens = pos 2;
  project_path = [];
  backfill = false;
}

abbrev pub empty_tables : UsageTables
empty_tables = record { detail = []; daily = [] }

abbrev pub filled : UsageTables
filled =
    (insert to_micros 7 (codes "pc") (codes "ann") false
      (message (codes "a") 10 ∷ message (codes "b") 20 ∷ []) empty_tables).1

pub empty_tables-IsSound : IsSound usage_stream empty_tables
unfolding lookup rollup
empty_tables-IsSound = record { consistent = record { at_key = λ k. refl }; unique = tt }

pub filled-IsSound : IsSound usage_stream filled
filled-IsSound =
    insert-IsSound to_micros 7 (codes "pc") (codes "ann") false
      (message (codes "a") 10 ∷ message (codes "b") 20 ∷ []) empty_tables empty_tables-IsSound

filled-IsUnique : IsUnique filled.daily
unfolding insert run_insert insert_rows accept has_id group upsert_all input_rows input_row
    detail_id daily_key utc_date single merge sums_fit fits64 alter lookup text_beq detail_key_beq
    daily_key_beq ◌+ℤ◌
filled-IsUnique = (refl, tt)

abbrev pub any_order : {A : Type 0} → A → A → Bool
any_order a b = true

abbrev sums : UsageSums
sums = record {
  input_tokens = pos 30;
  output_tokens = pos 10;
  cache_creation_tokens = pos 0;
  cache_creation_1h_tokens = pos 0;
  cache_read_tokens = pos 4;
  messages = 2;
  first_ts = 5;
  last_ts = 5;
}

abbrev summary : List (AggRow ℕ)
summary =
    record {
      day = 0;
      user = codes "ann";
      tool = codes "codex";
      model = codes "gpt-5";
      sums = sums;
      cost = 0;
    }
    ∷ []

abbrev heatmap : List ActivityRow
heatmap = record { day = 0; tokens = pos 44; messages = 2 } ∷ []

summary_read :
    aggregate whole midnight_utc price_list any_order false [] 0 0 filled.daily ≡ some summary
unfolding aggregate agg sql_cost price_lookup is_candidate has_prefix selects tally insert_sorted
    order_by scan_rows insert run_insert insert_rows accept has_id group upsert_all input_rows
    input_row detail_id daily_key utc_date single merge sums_fit fits64 alter lookup text_beq
    detail_key_beq daily_key_beq ◌+ℤ◌
summary_read = refl

heatmap_read : activity_aggregate false [] 0 0 filled.daily ≡ some heatmap
unfolding activity_aggregate selects tally insert_sorted order_by scan_rows insert run_insert
    insert_rows accept has_id group upsert_all input_rows input_row detail_id daily_key utc_date
    single merge sums_fit fits64 alter lookup text_beq detail_key_beq daily_key_beq ◌+ℤ◌
heatmap_read = refl

aggregate-activity_example : summary_tokens 0 summary ≡ activity_tokens 0 heatmap
aggregate-activity_example =
    aggregate-activity whole midnight_utc price_list any_order false false [] 0 0 filled.daily
      summary_read heatmap_read 0
