-- ===== src/Examples/Serving.antt =====
-- The worker of internal/server/worker.go, and the clock of the dashboard, on two records of one day.
use token_usage.Sort.{insert_sorted, order_by}
use token_usage.Prelude.{
  ◌⊎◌, ℕ, ◌+◌, ◌*◌, ◌/◌, ◌%◌, ◌≤◌, ◌<◌, ◌≡◌, refl, inl, inr, false, Option, none, some, List, [],
  ◌∷◌, keep, Text, text_eq, codes, ◌==◌, arith, text_beq, has_prefix, if◌then◌else◌,
}
use token_usage.Prelude.Int.{pos, ◌+ℤ◌, fits64}
use token_usage.Table.{lookup, alter}
use token_usage.Store.Keys.{detail_key_beq, daily_key_beq, daily_key_eq, detail_key_eq}
use token_usage.Store.Rollup.{
  has_id, accept, group, upsert_all, insert_rows, run_insert, rollup, IsConsistent,
}
use token_usage.Store.Usage.{
  UsageTables, usage_stream, insert, input_row, input_rows, detail_id, daily_key, utc_date, single,
  merge, sums_fit,
}
use token_usage.Store.Usage.Rebuild.{
  day_nanos, delete_days, detail_of_days, insert_all, rebuild_daily_tx, rebuild_daily,
}
use token_usage.Store.Queries.{tally, scan_rows}
use token_usage.Store.Queries.Priced.{sql_cost, price_lookup, is_candidate}
use token_usage.Store.Queries.Clock.{
  LocalTime, Zones, ClockRow, in_window, clock_rows, clock_aggregate, slot_beq, clock_key_beq,
}
use token_usage.Store.Queries.Clock.Totals.{clock_tokens, slot_tokens, clock_aggregate-slots}
use token_usage.Server.Worker.{Zone, rebuild_deep, next_local_hour, hour_nanos}
use token_usage.Server.Worker.Heals.{IsRightBefore, rebuild_deep-IsConsistent}
use token_usage.Server.Worker.Next.{Shows, next_local_hour-next}
use token_usage.Examples.Queries.{whole, price_list, midnight_utc, to_micros, filled}

-- The row of the day is gone.
abbrev drifted : UsageTables
drifted = record filled { daily = [] }

drifted-IsRightBefore : IsRightBefore 2 5000 drifted
unfolding rollup insert run_insert insert_rows accept has_id group upsert_all input_rows input_row
    detail_id daily_key utc_date single merge sums_fit fits64 alter lookup text_beq detail_key_beq
    daily_key_beq
drifted-IsRightBefore k h = elim h [
  | inl before ↦ absurd (omega arith)
  | inr later ↦ ground (arith, later)
]

abbrev rebuilt : Option ℕ × UsageTables
rebuilt = rebuild_deep false 9 2 5000 drifted

rebuild_deep_ran : rebuilt.0 ≡ some 1
unfolding rebuild_deep rebuild_daily rebuild_daily_tx detail_of_days delete_days insert_all insert
    run_insert insert_rows accept has_id group upsert_all input_rows input_row detail_id daily_key
    utc_date single merge sums_fit fits64 alter lookup text_beq detail_key_beq daily_key_beq ◌+ℤ◌
rebuild_deep_ran = refl

rebuild_deep-IsConsistent_example : IsConsistent usage_stream rebuilt.1
rebuild_deep-IsConsistent_example =
    rebuild_deep-IsConsistent false 9 2 5000 drifted (omega arith) drifted-IsRightBefore
      rebuild_deep_ran

-- A server whose clock shows UTC.
abbrev utc : Zone
utc = record {
  day_of = λ t. t / day_nanos;
  clock_of = λ t. t % day_nanos;
  instant = λ d n. d * day_nanos + n;
}

utc-Shows : Shows utc 8
utc-Shows = record {
  day = λ d. omega arith;
  clock = λ d. omega arith;
  order = λ s t h. omega (arith, h);
}

abbrev due : ℕ
due = next_local_hour utc 8 (20 * hour_nanos)

next_local_hour-next_example :
    (20 * hour_nanos < due)
    × (due % day_nanos ≡ 8 * hour_nanos)
    × ((d : ℕ)
        → 20 * hour_nanos < d * day_nanos + 8 * hour_nanos
        → due ≤ d * day_nanos + 8 * hour_nanos)
next_local_hour-next_example = next_local_hour-next utc 8 utc-Shows (20 * hour_nanos)

abbrev zones : Zones
zones tz =
    if tz == codes "UTC"
    then some (record { day = λ t. t / 86_400_000_000; hour = λ t. t / 3_600_000_000 % 24 })
    else none

abbrev clock : List (ClockRow ℕ)
clock = record { dow = 1; hour = 0; tokens = pos 44; messages = 2; cost = 0 } ∷ []

clock_read :
    clock_aggregate whole midnight_utc price_list zones to_micros false [] [] 0 0 filled.detail
    ≡ some clock
unfolding clock_aggregate clock_rows in_window tally order_by insert_sorted scan_rows sql_cost
    price_lookup is_candidate has_prefix insert run_insert insert_rows accept has_id group
    upsert_all input_rows input_row detail_id daily_key utc_date single merge sums_fit fits64 alter
    lookup text_beq detail_key_beq daily_key_beq ◌+ℤ◌ slot_beq clock_key_beq
clock_read = refl

clock_aggregate-slots_example :
    ((keep (in_window to_micros [] 0 0) filled.detail ≡ []) × (clock ≡ []))
    ⊎ ((local : LocalTime) × (zones (if ◌==◌ {K = Text} [] [] then codes "UTC" else [])
          ≡ some local)
        × ((dow hour : ℕ)
            → clock_tokens dow hour clock
              ≡ slot_tokens local dow hour (keep (in_window to_micros [] 0 0) filled.detail)))
clock_aggregate-slots_example =
    clock_aggregate-slots whole midnight_utc price_list zones to_micros false [] [] 0 0
      filled.detail clock_read
