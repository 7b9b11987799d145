-- ===== src/Store/Queries.antt =====
-- The queries of internal/server/store.go behind the pages of the dashboard: `LangAggregate` and
-- `ActivityAggregate`, and what `Aggregate` of Queries/Priced shares with them. What one query reads is
-- one state of the tables. Days are numbers, which `to_char` would print. The order of
-- texts, which is the database's collation, is in the argument `before`.
pub mod Priced
pub mod Clock
pub mod Tally
pub mod Rows
use token_usage.Sort.{order_by}
use token_usage.Prelude.{
  ℕ, ◌+◌, ◌/◌, ◌%◌, ◌≡◌, Bool, true, false, not, ◌&&◌, ◌||◌, Option, none, some, List, [], ◌∷◌, map,
  Eq, ◌==◌, Text, text_eq, codes, keep, length, has_prefix, ltb, leb, nat_beq, if◌then◌else◌, ◌>>=◌,
  nat_eq,
}
use token_usage.Prelude.Int.{ℤ, pos, ◌+ℤ◌, fits64}
use token_usage.Table.{alter}
use token_usage.Store.Keys.{DailyKey, daily_key_eq}
use token_usage.Store.Rollup.{Daily}
use token_usage.Store.Usage.{UsageDetail, UsageSums, merge, single, sums_fit}
use token_usage.Store.Usage.Rebuild.{DailyTable, day_nanos}
use token_usage.Store.Edits.{EditSums, merge_edits, edit_sums_fit}
use token_usage.Store.Prices.{Price}

-- A zero time is no bound; another is cast to the date of its UTC day.
abbrev date_bound : ℕ → Option ℕ
date_bound t = if nat_beq t 0 then none else some (t / day_nanos)

abbrev at_least : Option ℕ → ℕ → Bool
at_least none n = true
at_least (some b) n = leb b n

abbrev below : Option ℕ → ℕ → Bool
below none n = true
below (some b) n = ltb n b

-- ($1 = '' OR user_id = $1) AND ($2::date IS NULL OR day >= $2) AND ($3::date IS NULL OR day < $3)
unfoldable pub selects : Text → ℕ → ℕ → DailyKey → Bool
selects user from to k =
    (user == [] || k.user_id == user)
    && (at_least (date_bound from) k.day && below (date_bound to) k.day)

-- GROUP BY and SUM: each row is counted under the key of its group.
module _ {K V J W : Type 0} ⦃ej : Eq J⦄ (g : K → J) (one : V → W) (add : W → W → W) where
  abbrev count_in : V → Option W → W
  count_in v none = one v
  count_in v (some w) = add w (one v)

  unfoldable pub tally : List (K × V) → List (J × W) → List (J × W)
  tally [] m = m
  tally ((k, v) ∷ rows) m = tally rows (alter (g k) (count_in v) m)

-- The rows scanned one by one; a number out of range is an error of the query.
unfoldable pub scan_rows : {A B : Type 0} → (A → Option B) → List A → Option (List B)
scan_rows scan [] = some []
scan_rows scan (a ∷ rows) =
    let rest = scan_rows scan rows in
    elim (scan a) [ none ↦ none | some b ↦ elim rest [ none ↦ none | some bs ↦ some (b ∷ bs) ] ]

-- (day, user_id, tool, model) of GROUP BY, and (day, user_id, tool, lang)
abbrev without_machine : DailyKey → DailyKey
without_machine k = record k { machine_id = [] }

abbrev selected : {V : Type 0} → Text → ℕ → ℕ → List (DailyKey × V) → List (DailyKey × V)
selected user from to rows = keep (λ row. selects user from to row.0) rows

pub record LangRow : Type 0 where
  pub day : ℕ
  pub user : Text
  pub tool : Text
  pub lang : Text
  pub lines_added : ℤ
  pub lines_removed : ℤ
  pub edits : ℕ

abbrev pub EditDaily : Type 0
EditDaily = List (DailyKey × Daily EditSums)

abbrev lang_row : (DailyKey × EditSums) → Option LangRow
lang_row (k, s) =
    if edit_sums_fit s
    then some (record {
      day = k.day;
      user = k.user_id;
      tool = k.tool;
      lang = k.label;
      lines_added = s.lines_added;
      lines_removed = s.lines_removed;
      edits = s.edits;
    })
    else none

-- `LangAggregate`; `fault` is a failure of the connection
unfoldable pub lang_aggregate :
    ((DailyKey × EditSums) → (DailyKey × EditSums) → Bool)
    → Bool
    → Text
    → ℕ
    → ℕ
    → EditDaily
    → Option (List LangRow)
unfolding selects tally order_by scan_rows
lang_aggregate before true user from to daily = none
lang_aggregate before false user from to daily = scan_rows lang_row (
    order_by before (
      tally without_machine (λ (d : Daily EditSums). d.sums) merge_edits
        (selected user from to daily) []))

pub record ActivityRow : Type 0 where
  pub day : ℕ
  pub tokens : ℤ
  pub messages : ℕ

-- input + output + cache_creation + cache_read, the tokens of a row
abbrev pub tokens_of : UsageSums → ℤ
tokens_of s = s.input_tokens +ℤ s.output_tokens +ℤ s.cache_creation_tokens +ℤ s.cache_read_tokens

-- the same in `bigint`, where each sum has to be in range
abbrev tokens_fit : UsageSums → Bool
tokens_fit s =
    fits64 (s.input_tokens +ℤ s.output_tokens)
    && (fits64 (s.input_tokens +ℤ s.output_tokens +ℤ s.cache_creation_tokens)
        && fits64 (tokens_of s))

pub record Activity : Type 0 where
  pub tokens : ℤ
  pub messages : ℕ

abbrev activity_of : Daily UsageSums → Activity
activity_of d = record { tokens = tokens_of d.sums; messages = d.sums.messages }

abbrev add_activity : Activity → Activity → Activity
add_activity a b = record { tokens = a.tokens +ℤ b.tokens; messages = a.messages + b.messages }

abbrev activity_row : (ℕ × Activity) → Option ActivityRow
activity_row (day, a) =
    if fits64 a.tokens && fits64 (pos a.messages)
    then some (record { day = day; tokens = a.tokens; messages = a.messages })
    else none

abbrev all_fit : List (DailyKey × Daily UsageSums) → Bool
all_fit [] = true
all_fit (row ∷ rows) = tokens_fit row.1.sums && all_fit rows

-- `ActivityAggregate`
unfoldable pub activity_aggregate : Bool → Text → ℕ → ℕ → DailyTable → Option (List ActivityRow)
unfolding selects tally order_by scan_rows
activity_aggregate fault user from to daily =
    let rows = selected user from to daily in
    if fault || not (all_fit rows)
    then none
    else scan_rows activity_row (
        order_by (λ (a b : ℕ × Activity). leb a.0 b.0)
          (tally (λ (k : DailyKey). k.day) activity_of add_activity rows []))
