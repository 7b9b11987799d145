-- ===== src/Store/Queries/Priced.antt =====
-- `Aggregate`, `ClockAggregate` and `priceLookupSQL` of internal/server/store.go. Double precision numbers
-- are an argument, and so are the start of a day in the session's time zone and the caller's calendar.
pub mod Lookup
pub mod Totals
use token_usage.Sort.{order_by}
use token_usage.Prelude.{
  ℕ, suc, ◌+◌, ◌%◌, ◌≡◌, Bool, true, false, not, ◌&&◌, ◌||◌, Option, none, some, List, [], ◌∷◌, map,
  Eq, ◌==◌, Text, text_eq, codes, keep, length, has_prefix, ltb, leb, nat_beq, if◌then◌else◌,
  nat_eq,
}
use token_usage.Prelude.Int.{ℤ, pos, ◌+ℤ◌, fits64}
use token_usage.Store.Keys.{DailyKey, daily_key_eq}
use token_usage.Store.Rollup.{Daily}
use token_usage.Store.Usage.{UsageDetail, UsageSums, merge, single, sums_fit}
use token_usage.Store.Usage.Rebuild.{DailyTable}
use token_usage.Store.Prices.{Price}
use token_usage.Store.Queries.{
  selects, selected, tally, scan_rows, without_machine, tokens_of, at_least, below,
}

-- What the queries and the pricer do with floating-point numbers.
pub record Float (F : Type 0) : Type 0 where
  pub of_int : ℤ → F
  pub add : F → F → F
  pub sub : F → F → F
  pub mul : F → F → F
  pub div : F → F → F
  pub lt : F → F → Bool

-- The five rates of a row of model_prices, and of `Rate`.
pub record Rates (F : Type 0) : Type 0 where
  pub input : F
  pub output : F
  pub cache_creation : F
  pub cache_creation_1h : F
  pub cache_read : F

module _ {R : Type 0} where
  -- the days' bounds: mp.valid_from <= day + 1 day, and valid_to is NULL or after the day's start
  unfoldable pub is_candidate : (ℕ → ℕ) → Text → ℕ → Price R → Bool
  is_candidate midnight model day p =
      (not (p.model_prefix == []) && has_prefix model p.model_prefix)
      && (leb p.valid_from (midnight (suc day))
          && elim p.valid_to [ none ↦ true | some t ↦ ltb (midnight day) t ])

  -- ORDER BY length(mp.model_prefix) DESC, mp.valid_from DESC
  abbrev comes_before : Price R → Price R → Bool
  comes_before p q =
      ltb (length q.model_prefix) (length p.model_prefix)
      || (nat_beq (length p.model_prefix) (length q.model_prefix) && ltb q.valid_from p.valid_from)

  -- the first row in that order, LIMIT 1
  unfoldable pub price_lookup : (ℕ → ℕ) → Text → ℕ → List (Price R) → Option (Price R)
  unfolding is_candidate
  price_lookup midnight model day [] = none
  price_lookup midnight model day (p ∷ prices) =
      let rest = price_lookup midnight model day prices in
      if is_candidate midnight model day p
      then elim rest [ none ↦ some p | some q ↦ if comes_before q p then some q else some p ]
      else rest

-- A row of `Aggregate` or of a group of `ClockAggregate`, with what it costs.
pub record AggRow (F : Type 0) : Type 0 where
  pub day : ℕ
  pub user : Text
  pub tool : Text
  pub model : Text
  pub sums : UsageSums
  pub cost : F

module _ {F : Type 0} (fl : Float F) where
  abbrev pub zero_float : F
  zero_float = fl.of_int (pos 0)

  -- COALESCE(p.x, 0) of each rate
  abbrev pub rates_or_zero : Option (Price (Rates F)) → Rates F
  rates_or_zero (some p) = p.rates
  rates_or_zero none = record {
    input = zero_float;
    output = zero_float;
    cache_creation = zero_float;
    cache_creation_1h = zero_float;
    cache_read = zero_float;
  }

  -- GREATEST(a, 0)
  abbrev pub at_least_zero : F → F
  at_least_zero a = if fl.lt a zero_float then zero_float else a

  -- the expression `cost_usd`
  unfoldable pub sql_cost : Rates F → UsageSums → F
  sql_cost r s =
      fl.div
        (fl.add
          (fl.add
            (fl.add
              (fl.add (fl.mul (fl.of_int s.input_tokens) r.input)
                (fl.mul (fl.of_int s.output_tokens) r.output))
              (fl.mul (fl.of_int s.cache_creation_tokens) r.cache_creation))
            (fl.mul (fl.of_int s.cache_creation_1h_tokens)
              (at_least_zero (fl.sub r.cache_creation_1h r.cache_creation))))
          (fl.mul (fl.of_int s.cache_read_tokens) r.cache_read))
        (fl.of_int (pos 1_000_000))

  -- the CTE `agg` of `Aggregate`
  unfoldable pub agg : Text → ℕ → ℕ → DailyTable → List (DailyKey × UsageSums)
  unfolding selects tally
  agg user from to daily =
      tally without_machine (λ (d : Daily UsageSums). d.sums) merge (selected user from to daily) []

  module _ (midnight : ℕ → ℕ) (prices : List (Price (Rates F))) where
    abbrev agg_row : (DailyKey × UsageSums) → Option (AggRow F)
    agg_row (k, s) =
        if sums_fit s
        then some (record {
          day = k.day;
          user = k.user_id;
          tool = k.tool;
          model = k.label;
          sums = s;
          cost = sql_cost (rates_or_zero (price_lookup midnight k.label k.day prices)) s;
        })
        else none

    -- `Aggregate`
    unfoldable pub aggregate :
        ((DailyKey × UsageSums) → (DailyKey × UsageSums) → Bool)
        → Bool
        → Text
        → ℕ
        → ℕ
        → DailyTable
        → Option (List (AggRow F))
    unfolding agg order_by scan_rows
    aggregate before true user from to daily = none
    aggregate before false user from to daily =
        scan_rows agg_row (order_by before (agg user from to daily))
