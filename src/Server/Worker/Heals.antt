-- ===== src/Server/Worker/Heals.antt =====
-- The rebuilds of the worker against tables that have drifted apart.
use token_usage.Prelude.{
  ◌⊎◌, inl, inr, ℕ, ◌+◌, ◌-◌, ◌/◌, ◌≤◌, ◌<◌, ◌≡◌, refl, Bool, false, none, some, arith, leb, leb→le,
  Bool-cases,
}
use token_usage.Table.{lookup}
use token_usage.Store.Keys.{DailyKey, daily_key_eq, detail_key_eq}
use token_usage.Store.Rollup.{rollup, sums_of, IsConsistent}
use token_usage.Store.Usage.{UsageTables, usage_stream}
use token_usage.Store.Usage.Rebuild.{in_days, day_nanos, rebuild_daily_lem}
use token_usage.Server.Worker.{utc_day, first_deep_day, rebuild_deep}

-- The daily table is right outside the last days of a clock.
abbrev pub IsRightBefore : ℕ → ℕ → UsageTables → Type 0
IsRightBefore deep_days clock t =
    (k : DailyKey)
    → (k.day + deep_days ≤ clock / day_nanos) ⊎ (clock / day_nanos < k.day)
    → sums_of (lookup k t.daily) ≡ rollup usage_stream k t.detail none

deep_range :
    (deep_days clock day : ℕ)
    → 0 < deep_days
    → in_days (first_deep_day deep_days clock / day_nanos) (utc_day clock / day_nanos) day ≡ false
    → (day + deep_days ≤ clock / day_nanos) ⊎ (clock / day_nanos < day)
unfolding first_deep_day utc_day
deep_range deep_days clock day h e =
    let today : ℕ = clock / day_nanos in
    let first : first_deep_day deep_days clock / day_nanos ≡ today - (deep_days - 1) =
      omega arith in
    let last : utc_day clock / day_nanos ≡ today = omega arith in
    elim (Bool-cases (leb (day + deep_days) today)) [
      | inl before ↦ inl (leb→le _ _ before)
      | inr within ↦ inr (ground (arith, within, e, first, last))
    ]

-- A deep rebuild that returns mends the daily table: wherever a daily row of its days had drifted from the
-- detail rows, the whole table agrees with them afterwards, if it did outside these days.
pub rebuild_deep-IsConsistent :
    (fault : Bool) (now deep_days clock : ℕ) (t : UsageTables) {n : ℕ}
    → 0 < deep_days
    → IsRightBefore deep_days clock t
    → (rebuild_deep fault now deep_days clock t).0 ≡ some n
    → IsConsistent usage_stream (rebuild_deep fault now deep_days clock t).1
unfolding rebuild_deep
rebuild_deep-IsConsistent fault now deep_days clock t size right e =
    let first = first_deep_day deep_days clock in
    let last = utc_day clock in
    let (detail, sums) = rebuild_daily_lem fault now first last t e in
    record {
      at_key = λ k. elim (Bool-cases (in_days (first / day_nanos) (last / day_nanos) k.day)) [
        | inl in_range ↦ rw (sums k, in_range, detail) refl
        | inr out ↦ rw (sums k, out, detail) (right k (deep_range deep_days clock k.day size out))
      ];
    }
