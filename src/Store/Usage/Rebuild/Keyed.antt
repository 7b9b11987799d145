-- ===== src/Store/Usage/Rebuild/Keyed.antt =====
-- The daily rows keep different keys through a rebuild, and the detail rows different ids.
use token_usage.Prelude.{
  inl, inr, ℕ, ◌/◌, ◌≡◌, Bool, true, false, some, List, [], ◌∷◌, arith, keep, Bool-cases,
  Option-cases, Option,
}
use mathlib.Core.Path.{subst}
use token_usage.Table.{alter, IsUnique, alter-IsUnique}
use token_usage.Store.Keys.{DailyKey, daily_key_eq, detail_key_eq}
use token_usage.Store.Rollup.{Daily, HasUniqueIds}
use token_usage.Store.Usage.{UsageSums, UsageTables, usage_stream}
use token_usage.Store.Usage.Rebuild.{
  day_nanos, in_days, DailyTable, delete_days, lookup-delete_days, insert_all, rebuild_daily_tx,
  rebuild_daily_tx-inv, rebuild_daily,
}

delete_days-IsUnique :
    (from to : ℕ) (daily : DailyTable) → IsUnique daily → IsUnique (delete_days from to daily)
unfolding delete_days
delete_days-IsUnique from to [] h = tt
delete_days-IsUnique from to ((k, v) ∷ daily) (fresh, rest) =
    elim (Bool-cases (in_days from to k.day)) [
      | inl deleted ↦ rw (keep, deleted) (delete_days-IsUnique from to daily rest)
      | inr stays ↦
          rw (keep, stays)
            (
              ground (arith, lookup-delete_days k from to daily, fresh),
              delete_days-IsUnique from to daily rest,
            )
    ]

insert_all-IsUnique :
    (now : ℕ) (groups : List (DailyKey × UsageSums)) (daily : DailyTable) {after : DailyTable}
    → IsUnique daily
    → insert_all now groups daily ≡ some after
    → IsUnique after
unfolding insert_all
insert_all-IsUnique now [] daily {after} h e =
    let same : daily ≡ after = ground (arith, e) in subst (λ (m : DailyTable). IsUnique m) same h
insert_all-IsUnique now ((k, v) ∷ groups) daily h e =
    let put : Option (Daily UsageSums) → Daily UsageSums =
      λ _. record { sums = v; updated_at = now } in
    insert_all-IsUnique now groups (alter k put daily) (alter-IsUnique k put daily h)
      (ground (arith, e))

pub rebuild_daily_tx-IsUnique :
    (now from to n : ℕ) (t t' : UsageTables)
    → IsUnique t.daily
    → rebuild_daily_tx now from to t ≡ some (n, t')
    → IsUnique t'.daily
rebuild_daily_tx-IsUnique now from to n t t' h e =
    insert_all-IsUnique now _ _ (delete_days-IsUnique (from / day_nanos) (to / day_nanos) t.daily h)
      (rebuild_daily_tx-inv now from to n t t' e).1

pub rebuild_daily-IsUnique :
    (fault : Bool) (now from to : ℕ) (t : UsageTables)
    → IsUnique t.daily
    → IsUnique (rebuild_daily fault now from to t).1.daily
unfolding rebuild_daily
rebuild_daily-IsUnique true now from to t h = h
rebuild_daily-IsUnique false now from to t h =
    elim (Option-cases (rebuild_daily_tx now from to t)) [
      | inl e ↦ rw e h
      | inr ((n, t'), e) ↦ rw e (rebuild_daily_tx-IsUnique now from to n t t' h e)
    ]

pub rebuild_daily-HasUniqueIds :
    (fault : Bool) (now from to : ℕ) (t : UsageTables)
    → HasUniqueIds usage_stream t.detail
    → HasUniqueIds usage_stream (rebuild_daily fault now from to t).1.detail
unfolding rebuild_daily
rebuild_daily-HasUniqueIds true now from to t h = h
rebuild_daily-HasUniqueIds false now from to t h =
    elim (Option-cases (rebuild_daily_tx now from to t)) [
      | inl e ↦ rw e h
      | inr ((n, t'), e) ↦ rw (e, (rebuild_daily_tx-inv now from to n t t' e).0) h
    ]
