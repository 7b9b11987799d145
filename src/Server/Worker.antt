-- ===== src/Server/Worker.antt =====
-- internal/server/worker.go: which days are rebuilt, and when. The server's local calendar is an argument,
-- and so is the clock; the loops wait for their timers and call what is here.
pub mod Heals
pub mod Next
use token_usage.Prelude.{
  ℕ, suc, ◌+◌, ◌-◌, ◌*◌, ◌/◌, Bool, true, false, ◌&&◌, Option, none, some, [], Text, text_eq, codes,
  ◌==◌, ltb, leb, if◌then◌else◌,
}
use token_usage.Prelude.Int.{ℤ, pos, negsuc}
use token_usage.Store.Usage.{UsageTables}
use token_usage.Store.Usage.Rebuild.{rebuild_daily, day_nanos}

-- The settings of `Worker`: durations in nanoseconds.
pub record Worker : Type 0 where
  pub today_every : ℤ
  pub deep_hour : ℤ
  pub deep_days : ℤ
  pub price_every : ℤ
  pub price_source : Text

abbrev is_positive : ℤ → Bool
is_positive (pos n) = ltb 0 n
is_positive (negsuc n) = false

-- w.DeepHour >= 0 && w.DeepHour <= 23
abbrev is_hour : ℤ → Bool
is_hour (pos n) = leb n 23
is_hour (negsuc n) = false

pub record Loops : Type 0 where
  pub today : Bool
  pub deep : Bool
  pub price : Bool

-- `Start`: the loops that run
unfoldable start_loops : Worker → Loops
start_loops w = record {
  today = is_positive w.today_every;
  deep = is_hour w.deep_hour && is_positive w.deep_days;
  price = is_positive w.price_every;
}

-- `displayPriceSource`, given DefaultPriceSourceURL
unfoldable display_price_source : Text → Text → Text
display_price_source default_url s = if s == [] then default_url else s

-- `utcDay`
unfoldable pub utc_day : ℕ → ℕ
utc_day t = t / day_nanos * day_nanos

-- `rebuildToday` at a reading of the clock; `now` is the transaction's NOW()
unfoldable pub rebuild_today : Bool → ℕ → ℕ → UsageTables → Option ℕ × UsageTables
unfolding utc_day rebuild_daily
rebuild_today fault now clock t = rebuild_daily fault now (utc_day clock) (utc_day clock) t

-- today.AddDate(0, 0, -(w.DeepDays - 1)), for at least one day; no row is older than day 0
unfoldable pub first_deep_day : ℕ → ℕ → ℕ
unfolding utc_day
first_deep_day deep_days clock = utc_day clock - (deep_days - 1) * day_nanos

-- `rebuildDeep`
unfoldable pub rebuild_deep : Bool → ℕ → ℕ → ℕ → UsageTables → Option ℕ × UsageTables
unfolding first_deep_day utc_day rebuild_daily
rebuild_deep fault now deep_days clock t =
    rebuild_daily fault now (first_deep_day deep_days clock) (utc_day clock) t

-- The local zone: the day and the time of day of an instant, and the instant of both (time.Date).
pub record Zone : Type 0 where
  pub day_of : ℕ → ℕ
  pub clock_of : ℕ → ℕ
  pub instant : ℕ → ℕ → ℕ

abbrev pub hour_nanos : ℕ
hour_nanos = 3_600_000_000_000

-- `nextLocalHour` at a reading of the clock
unfoldable pub next_local_hour : Zone → ℕ → ℕ → ℕ
next_local_hour z hour now =
    let t = z.instant (z.day_of now) (hour * hour_nanos) in
    if ltb now t then t else z.instant (suc (z.day_of t)) (z.clock_of t)
