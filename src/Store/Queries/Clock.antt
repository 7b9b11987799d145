-- ===== src/Store/Queries/Clock.antt =====
-- `ClockAggregate` of internal/server/store.go: usage by weekday and hour of a time zone. What PostgreSQL
-- knows of time zones is an argument; the sums are `numeric`, and are cast to `bigint` at the end.
pub mod Totals
use token_usage.Sort.{order_by}
use token_usage.Prelude.{
  ◌↔◌, ℕ, suc, ◌+◌, ◌%◌, ◌≡◌, Bool, true, false, ◌&&◌, ◌||◌, Option, none, some, List, [], ◌∷◌, map,
  Eq, ◌==◌, Text, text_eq, text_beq, text_beq_iff, codes, keep, ltb, leb, nat_beq, if◌then◌else◌,
  arith,
}
use token_usage.Prelude.Int.{ℤ, pos, ◌+ℤ◌, fits64}
use token_usage.Store.Usage.{UsageDetail, UsageSums, single, merge}
use token_usage.Store.Prices.{Price}
use token_usage.Store.Queries.{tally, scan_rows, tokens_of}
use token_usage.Store.Queries.Priced.{
  Float, Rates, price_lookup, rates_or_zero, sql_cost, zero_float,
}

-- What a time zone says of an instant: its calendar day and its hour. `none` is an unknown zone.
pub record LocalTime : Type 0 where
  pub day : ℕ → ℕ
  pub hour : ℕ → ℕ

abbrev pub Zones : Type 0
Zones = Text → Option LocalTime

-- GROUP BY d_local, hour, model
pub record ClockKey : Type 0 where
  pub d_local : ℕ
  pub hour : ℕ
  pub model : Text

unfoldable pub clock_key_beq : ClockKey → ClockKey → Bool
unfolding text_beq
clock_key_beq a b =
    nat_beq a.d_local b.d_local && (nat_beq a.hour b.hour && text_beq a.model b.model)

pub clock_key_beq_iff : (a b : ClockKey) → (clock_key_beq a b ≡ true) ↔ (a ≡ b)
unfolding clock_key_beq
clock_key_beq_iff a b = ground (arith, text_beq_iff a.model b.model)

instance abbrev pub clock_key_eq : Eq ClockKey
clock_key_eq = record { beq = clock_key_beq; beq_iff = clock_key_beq_iff }

-- GROUP BY dow, hour
pub record Slot : Type 0 where
  pub dow : ℕ
  pub hour : ℕ

unfoldable pub slot_beq : Slot → Slot → Bool
slot_beq a b = nat_beq a.dow b.dow && nat_beq a.hour b.hour

pub slot_beq_iff : (a b : Slot) → (slot_beq a b ≡ true) ↔ (a ≡ b)
unfolding slot_beq
slot_beq_iff a b = ground arith

instance abbrev pub slot_eq : Eq Slot
slot_eq = record { beq = slot_beq; beq_iff = slot_beq_iff }

-- EXTRACT(DOW): day 0 is Monday, 0001-01-01
abbrev pub dow_of : ℕ → ℕ
dow_of day = (day + 1) % 7

abbrev pub slot_of : ClockKey → Slot
slot_of k = record { dow = dow_of k.d_local; hour = k.hour }

-- A row of `ClockAggregate`.
pub record ClockRow (F : Type 0) : Type 0 where
  pub dow : ℕ
  pub hour : ℕ
  pub tokens : ℤ
  pub messages : ℕ
  pub cost : F

pub record Cell (F : Type 0) : Type 0 where
  pub tokens : ℤ
  pub messages : ℕ
  pub cost : F

abbrev pub slot_before : {F : Type 0} → (Slot × Cell F) → (Slot × Cell F) → Bool
slot_before a b = ltb a.0.dow b.0.dow || (nat_beq a.0.dow b.0.dow && leb a.0.hour b.0.hour)

-- A time that is not zero, in microseconds.
abbrev time_bound : (ℕ → ℕ) → ℕ → Option ℕ
time_bound micros t = if nat_beq t 0 then none else some (micros t)

abbrev from_bound : Option ℕ → ℕ → Bool
from_bound none ts = true
from_bound (some b) ts = leb b ts

abbrev to_bound : Option ℕ → ℕ → Bool
to_bound none ts = true
to_bound (some b) ts = ltb ts b

-- WHERE: the user, ts >= $2 and ts < $3
unfoldable pub in_window : (ℕ → ℕ) → Text → ℕ → ℕ → UsageDetail → Bool
in_window micros user from to d =
    (user == [] || d.user_id == user)
    && (from_bound (time_bound micros from) d.ts && to_bound (time_bound micros to) d.ts)

abbrev pub clock_key : LocalTime → UsageDetail → ClockKey
clock_key local d = record { d_local = local.day d.ts; hour = local.hour d.ts; model = d.model }

-- the rows that a query selects, each with its group
abbrev pub keyed : LocalTime → List UsageDetail → List (ClockKey × UsageDetail)
keyed local rows = map (λ d. (clock_key local d, d)) rows

module _ {F : Type 0} (fl : Float F) where
  abbrev pub add_cell : Cell F → Cell F → Cell F
  add_cell a b = record {
    tokens = a.tokens +ℤ b.tokens;
    messages = a.messages + b.messages;
    cost = fl.add a.cost b.cost;
  }

  abbrev pub clock_row : (Slot × Cell F) → Option (ClockRow F)
  clock_row (slot, cell) =
      if fits64 cell.tokens && fits64 (pos cell.messages)
      then some (record {
        dow = slot.dow;
        hour = slot.hour;
        tokens = cell.tokens;
        messages = cell.messages;
        cost = cell.cost;
      })
      else none

  module _ (midnight : ℕ → ℕ) (prices : List (Price (Rates F))) where
    -- a row of the CTE `agg` with what it costs
    abbrev pub cell_of : (ClockKey × UsageSums) → Slot × Cell F
    cell_of (k, s) = (
      slot_of k,
      record {
        tokens = tokens_of s;
        messages = s.messages;
        cost = sql_cost fl (rates_or_zero fl (price_lookup midnight k.model k.d_local prices)) s;
      },
    )

    -- `ClockAggregate` in a zone that is known
    unfoldable pub clock_rows : LocalTime → List UsageDetail → Option (List (ClockRow F))
    unfolding tally order_by scan_rows
    clock_rows local rows =
        let groups = tally (λ (k : ClockKey). k) single merge (keyed local rows) [] in
        scan_rows clock_row (
          order_by slot_before
            (tally (λ (s : Slot). s) (λ (c : Cell F). c) add_cell (map cell_of groups) []))

    -- in a zone that is not known: AT TIME ZONE fails at the first row that is selected
    unfoldable no_rows : List UsageDetail → Option (List (ClockRow F))
    no_rows [] = some []
    no_rows (d ∷ rows) = none

    -- `ClockAggregate`; `fault` is a failure of the connection
    unfoldable pub clock_aggregate :
        Zones → (ℕ → ℕ) → Bool → Text → Text → ℕ → ℕ → List UsageDetail → Option (List (ClockRow F))
    unfolding clock_rows no_rows in_window
    clock_aggregate zones micros true user tz from to detail = none
    clock_aggregate zones micros false user tz from to detail =
        let rows = keep (in_window micros user from to) detail in
        elim (zones (if tz == [] then codes "UTC" else tz)) [
          | none ↦ no_rows rows
          | some local ↦ clock_rows local rows
        ]
