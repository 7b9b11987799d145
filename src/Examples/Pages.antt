-- ===== src/Examples/Pages.antt =====
-- The pages of internal/server/api.go behind one request that stores two messages.
use token_usage.Sort.{insert_sorted, order_by}
use token_usage.Prelude.{
  ◌⊎◌, inr, ℕ, ◌*◌, ◌≡◌, refl, false, ◌&&◌, none, some, List, [], ◌∷◌, Text, text_eq, codes, ◌==◌,
  text_beq, has_prefix, arith, All, if◌then◌else◌,
}
use token_usage.Prelude.Int.{pos, ◌+ℤ◌, fits64, add64, wrap64, pos_part}
use token_usage.Types.{IngestRequest}
use token_usage.Table.{lookup, alter}
use token_usage.Store.Keys.{detail_key_beq, daily_key_beq, daily_key_eq, detail_key_eq}
use token_usage.Store.Rollup.{has_id, accept, group, upsert_all, insert_rows, run_insert}
use token_usage.Store.Usage.{
  insert, input_row, input_rows, detail_id, daily_key, utc_date, single, merge, sums_fit,
}
use token_usage.Store.Edits.{insert_edits}
use token_usage.Store.Prices.{Price}
use token_usage.Store.Prices.Lists.{list_active_prices}
use token_usage.Store.Queries.{selects, tally, scan_rows}
use token_usage.Store.Queries.Priced.{Rates, is_candidate, price_lookup, sql_cost, agg, aggregate}
use token_usage.Store.Queries.Priced.Totals.{detail_tokens}
use token_usage.Parsers.Std.{itoa, trim_space}
use token_usage.Server.Auth.{
  resolve, update_keys, hash_key, encode_hex, hex_digit, create_api_key, new_api_key, encode_base64,
  base64_char, has_hash, has_user,
}
use token_usage.Server.Ingest.{
  Database, handle_ingest, ingest_as, ingest_body, store_batch, extract_bearer,
}
use token_usage.Server.System.{
  Event, ingests, rebuilds_deep, handle_event, run_events, run_events-AreSound,
}
use token_usage.Server.Ingest.Sound.{AreSound}
use token_usage.Server.Worker.{rebuild_deep, first_deep_day, utc_day}
use token_usage.Store.Usage.Rebuild.{
  rebuild_daily, rebuild_daily_tx, delete_days, detail_of_days, insert_all,
}
use token_usage.Server.Dashboard.{
  PageRequest, TimeCodec, rows_json, answer, parse_time, SummaryRow, summary_row, handle_summary,
  PriceView, price_view, handle_prices,
}
use token_usage.Server.Dashboard.Times.{parse_time-itoa}
use token_usage.Server.Dashboard.Totals.{TotalFits, total_of_day, handle_summary-detail}
use token_usage.Server.Dashboard.Prices.{count_by, shows, is_asked, handle_prices-shows}
use token_usage.Examples.Queries.{
  whole, price_list, midnight_utc, to_micros, message, any_order, price,
}
use token_usage.Examples.Requests.{digest, database, post_of, at_time, database-AreSound}

abbrev times : TimeCodec
times = record { rfc3339 = λ s. none; unix = λ n. pos_part n * 1_000_000_000; format = itoa }

parse_time-itoa_example : parse_time times (itoa 1_750_000_000) ≡ 1_750_000_000 * 1_000_000_000
parse_time-itoa_example = parse_time-itoa times 1_750_000_000 (omega arith) refl

abbrev get_page : PageRequest
get_page = record { method = codes "GET"; get = λ name. [] }

abbrev get_active : PageRequest
get_active = record {
  method = codes "GET";
  get = λ name. if name == codes "active" then codes "1" else [];
}

-- a price that was replaced, and those in effect
abbrev all_prices : List (Price (Rates ℕ))
all_prices = record (price (codes "gpt-5") 4) { valid_to = some 3 } ∷ price_list

abbrev shown : List (PriceView ℕ)
shown =
    price_view times (price (codes "claude") 9)
    ∷ price_view times (price (codes "gpt-5-mini") 1)
    ∷ price_view times (price (codes "gpt-5") 3)
    ∷ []

prices_shown : handle_prices times false get_active any_order all_prices ≡ rows_json shown
unfolding handle_prices answer list_active_prices order_by insert_sorted text_beq
prices_shown = refl

handle_prices-shows_example :
    count_by (shows (codes "gpt-5")) shown
    ≡ count_by
        (λ (p : Price (Rates ℕ)).
          (p.model_prefix == codes "gpt-5")
          && is_asked
              (get_active.get (codes "active") == codes "1")
              (get_active.get (codes "model"))
              p)
        all_prices
handle_prices-shows_example =
    handle_prices-shows times false get_active any_order all_prices prices_shown (codes "gpt-5")

-- stands for encoding/json
abbrev read_messages : Text → Text ⊎ IngestRequest
read_messages text = inr (record {
  machine_id = codes "pc";
  records = message (codes "a") 10 ∷ message (codes "b") 20 ∷ [];
  edits = [];
})

abbrev events : List Event
events = ingests (at_time 7 false) (post_of []) ∷ rebuilds_deep false 9 3 90_000_000_000_000 ∷ []

abbrev after : Database
after = run_events digest read_messages to_micros events database

abbrev summary : List (SummaryRow ℕ)
summary =
    record {
      day = 0;
      user = codes "ann";
      tool = codes "codex";
      model = codes "gpt-5";
      input = pos 30;
      output = pos 10;
      cache_cc = pos 0;
      cache_cc1h = pos 0;
      cache_rr = pos 4;
      total = pos 44;
      messages = 2;
      cost = 0;
    }
    ∷ []

summary_read :
    handle_summary times false get_page whole midnight_utc price_list any_order
      (λ c. false)
      []
      after.usage.daily
    ≡ rows_json summary
unfolding handle_summary answer summary_row parse_time add64 wrap64 aggregate agg sql_cost
    price_lookup is_candidate has_prefix selects tally insert_sorted order_by scan_rows insert
    run_insert insert_rows accept has_id group upsert_all input_rows input_row detail_id daily_key
    utc_date single merge sums_fit fits64 alter lookup text_beq detail_key_beq daily_key_beq ◌+ℤ◌
    run_events handle_event rebuild_deep first_deep_day utc_day rebuild_daily rebuild_daily_tx
    delete_days detail_of_days insert_all handle_ingest ingest_as ingest_body store_batch
    extract_bearer trim_space insert_edits resolve update_keys hash_key encode_hex hex_digit
    create_api_key new_api_key encode_base64 base64_char has_hash has_user
summary_read = refl

summary-TotalFits : All TotalFits summary
unfolding ◌+ℤ◌
summary-TotalFits = ((omega arith, omega arith, omega arith), tt)

handle_summary-detail_example :
    total_of_day 0 summary
    ≡ detail_tokens [] (parse_time times []) (parse_time times []) 0 after.usage.detail
handle_summary-detail_example =
    handle_summary-detail whole midnight_utc price_list any_order (λ c. false) [] times false digest
      read_messages to_micros events database get_page database-AreSound summary_read
      summary-TotalFits 0

run_events-AreSound_example : AreSound after
run_events-AreSound_example =
    run_events-AreSound digest read_messages to_micros events database database-AreSound
