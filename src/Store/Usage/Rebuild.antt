-- ===== src/Store/Usage/Rebuild.antt =====
-- `Store.RebuildDaily` of internal/server/store.go: one transaction that deletes the daily rows of a
-- range of days and aggregates them again from the detail rows.
pub mod Keyed
use token_usage.Prelude.{
  ℕ, ◌+◌, ◌*◌, ◌/◌, ◌≡◌, Bool, true, false, not, ◌&&◌, Option, none, some, List, [], ◌∷◌, arith,
  length, keep, ltb, leb, if◌then◌else◌, ◌>>=◌, inl, inr, Option-cases, ap, ◌∙◌,
}
use token_usage.Table.{lookup, alter, lookup-alter, IsUnique}
use token_usage.Store.Keys.{DailyKey, daily_key_eq, detail_key_eq}
use token_usage.Store.Rollup.{Daily, group, rollup, sums_of, IsConsistent}
use token_usage.Store.Rollup.Laws.{lookup-group, group-IsUnique, rollup-keep}
use token_usage.Store.Usage.{
  UsageDetail, UsageSums, UsageTables, usage_stream, sums_fit, day_micros, utc_date, daily_key,
}

abbrev pub day_nanos : ℕ
day_nanos = 86_400_000_000_000

-- day >= $1 AND day <= $2
abbrev pub in_days : ℕ → ℕ → ℕ → Bool
in_days from to day = leb from day && leb day to

abbrev pub DailyTable : Type 0
DailyTable = List (DailyKey × Daily UsageSums)

unfoldable pub delete_days : ℕ → ℕ → DailyTable → DailyTable
delete_days from to daily =
    keep (λ (row : DailyKey × Daily UsageSums). not (in_days from to row.0.day)) daily

-- WHERE ts >= $1 AND ts < $2, where $2 is the day after `to`
unfoldable pub detail_of_days : ℕ → ℕ → List UsageDetail → List UsageDetail
detail_of_days from to rows =
    keep (λ r. leb (from * day_micros) r.ts && ltb r.ts ((to + 1) * day_micros)) rows

-- INSERT with no ON CONFLICT: a key that is there, or a sum out of range, is an error.
unfoldable pub insert_all : ℕ → List (DailyKey × UsageSums) → DailyTable → Option DailyTable
insert_all now [] daily = some daily
insert_all now ((k, v) ∷ groups) daily =
    let rest = insert_all now groups (alter k (λ _. record { sums = v; updated_at = now }) daily) in
    elim (lookup k daily) [ some _ ↦ none | none ↦ if sums_fit v then rest else none ]

-- the two statements of `rebuildDailyTx`; `from` and `to` are times, cut to their UTC days
unfoldable pub rebuild_daily_tx : ℕ → ℕ → ℕ → UsageTables → Option (ℕ × UsageTables)
rebuild_daily_tx now from to t =
    let first = from / day_nanos in
    let last = to / day_nanos in
    let groups = group usage_stream (detail_of_days first last t.detail) [] in
    do
      daily ← insert_all now groups (delete_days first last t.daily)
      some (length groups, record t { daily = daily })

-- The transaction: the rows written, or an error after which the tables are as they were.
unfoldable pub rebuild_daily : Bool → ℕ → ℕ → ℕ → UsageTables → Option ℕ × UsageTables
rebuild_daily fault now from to t =
    if fault then (none, t) else elim (rebuild_daily_tx now from to t) [
      | none ↦ (none, t)
      | some (rows, t') ↦ (some rows, t')
    ]

pub lookup-delete_days :
    (k : DailyKey) (from to : ℕ) (daily : DailyTable)
    → lookup k (delete_days from to daily)
      ≡ (if in_days from to k.day then none else lookup k daily)
unfolding lookup delete_days
lookup-delete_days k from to [] = ground arith
lookup-delete_days k from to ((j, v) ∷ daily) =
    ground (arith, lookup-delete_days k from to daily, daily_key_eq.beq_iff j k)

day_of_range :
    (from to ts : ℕ)
    → (leb (from * day_micros) ts && ltb ts ((to + 1) * day_micros)) ≡ in_days from to (utc_date ts)
unfolding utc_date
day_of_range from to ts = ground arith

day_of_key :
    (from to : ℕ) (k : DailyKey) (r : UsageDetail)
    → daily_key r ≡ k
    → (leb (from * day_micros) r.ts && ltb r.ts ((to + 1) * day_micros)) ≡ in_days from to k.day
unfolding daily_key
day_of_key from to k r h =
    day_of_range from to r.ts ∙ ap (λ (j : DailyKey). in_days from to j.day) h

rollup-detail_of_days :
    (k : DailyKey) (from to : ℕ) (rows : List UsageDetail)
    → rollup usage_stream k (detail_of_days from to rows) none
      ≡ (if in_days from to k.day then rollup usage_stream k rows none else none)
unfolding detail_of_days
rollup-detail_of_days k from to rows =
    rollup-keep usage_stream k _ (in_days from to k.day) rows none (day_of_key from to k)

-- Inserted groups with different keys are the rows of their keys.
sums_of-insert_all :
    (now : ℕ) (groups : List (DailyKey × UsageSums)) (daily daily' : DailyTable) (k : DailyKey)
    → IsUnique groups
    → insert_all now groups daily ≡ some daily'
    → sums_of (lookup k daily')
      ≡ elim (lookup k groups) [ some v ↦ some v | none ↦ sums_of (lookup k daily) ]
unfolding insert_all lookup
sums_of-insert_all now [] daily daily' k h p = ground arith
sums_of-insert_all now ((j, v) ∷ groups) daily daily' k (fresh, rest) p =
    let put : Option (Daily UsageSums) → Daily UsageSums =
      λ _. record { sums = v; updated_at = now } in
    ground (
      arith,
      sums_of-insert_all now groups (alter j put daily) daily' k rest,
      lookup-alter k j put daily,
      daily_key_eq.beq_iff j k,
    )

pub rebuild_daily_tx-inv :
    (now from to n : ℕ) (t t' : UsageTables)
    → rebuild_daily_tx now from to t ≡ some (n, t')
    → (t'.detail ≡ t.detail)
      × (insert_all now
            (group usage_stream (detail_of_days (from / day_nanos) (to / day_nanos) t.detail) [])
            (delete_days (from / day_nanos) (to / day_nanos) t.daily)
          ≡ some t'.daily)
unfolding rebuild_daily_tx
rebuild_daily_tx-inv now from to n t t' h = (ground arith, ground arith)

pub sums_of-rebuild_daily_tx :
    (now from to n : ℕ) (t t' : UsageTables) (k : DailyKey)
    → rebuild_daily_tx now from to t ≡ some (n, t')
    → sums_of (lookup k t'.daily) ≡ (
        if in_days (from / day_nanos) (to / day_nanos) k.day
        then rollup usage_stream k t.detail none
        else sums_of (lookup k t.daily))
unfolding lookup
sums_of-rebuild_daily_tx now from to n t t' k h =
    let first : ℕ = from / day_nanos in
    let last : ℕ = to / day_nanos in
    let rows : List UsageDetail = detail_of_days first last t.detail in
    let inv = rebuild_daily_tx-inv now from to n t t' h in
    ground (
      arith,
      sums_of-insert_all now (group usage_stream rows []) (delete_days first last t.daily) t'.daily
          k (group-IsUnique usage_stream rows [] tt) inv.1,
      lookup-group usage_stream k rows [],
      rollup-detail_of_days k first last t.detail,
      lookup-delete_days k first last t.daily,
    )

-- After a rebuild that returns, every daily row of the range says what the detail rows of its key
-- sum up to, whatever it said before; the rows of other days are as they were, and so is the detail
-- table.
pub rebuild_daily_lem :
    (fault : Bool) (now from to : ℕ) (t : UsageTables) {n : ℕ}
    → (rebuild_daily fault now from to t).0 ≡ some n
    → ((rebuild_daily fault now from to t).1.detail ≡ t.detail)
      × ((k : DailyKey)
          → sums_of (lookup k (rebuild_daily fault now from to t).1.daily) ≡ (
              if in_days (from / day_nanos) (to / day_nanos) k.day
              then rollup usage_stream k t.detail none
              else sums_of (lookup k t.daily)))
unfolding rebuild_daily
rebuild_daily_lem true now from to t h = ground arith
rebuild_daily_lem false now from to t h = elim (Option-cases (rebuild_daily_tx now from to t)) [
  | inl e ↦ ground arith
  | inr ((n, t'), e) ↦ rw e (
    (rebuild_daily_tx-inv now from to n t t' e).0,
    λ k. sums_of-rebuild_daily_tx now from to n t t' k e,
  )
]

-- A rebuild that fails has changed nothing.
rebuild_daily_err :
    (fault : Bool) (now from to : ℕ) (t : UsageTables)
    → (rebuild_daily fault now from to t).0 ≡ none
    → (rebuild_daily fault now from to t).1 ≡ t
unfolding rebuild_daily
rebuild_daily_err fault now from to t h = ground arith

-- A rebuild of consistent tables leaves them consistent, whether it returns or fails.
pub rebuild_daily-IsConsistent :
    (fault : Bool) (now from to : ℕ) (t : UsageTables)
    → IsConsistent usage_stream t
    → IsConsistent usage_stream (rebuild_daily fault now from to t).1
rebuild_daily-IsConsistent fault now from to t c =
    elim (Option-cases (rebuild_daily fault now from to t).0) [
      | inl e ↦ rw (rebuild_daily_err fault now from to t e) c
      | inr (n, e) ↦
          let (detail, sums) = rebuild_daily_lem fault now from to t e in
          record { at_key = λ k. rw (sums k, detail) (ground (arith, c.at_key k)) }
    ]
