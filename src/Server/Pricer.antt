-- ===== src/Server/Pricer.antt =====
-- internal/server/pricing.go: the prices in memory, for a model that model_prices does not know. A map is the
-- list of its entries, in any order. The decimal numbers of the table `defaultRates` and floating-point
-- arithmetic are arguments; so is the file of custom rates, read and decoded.
pub mod Longest
use token_usage.Sort.{order_by}
use token_usage.Prelude.{
  ℕ, ◌≡◌, Bool, true, false, ◌&&◌, Option, none, some, List, [], ◌∷◌, map, Text, text_eq, ◌==◌,
  has_prefix, length, leb, if◌then◌else◌,
}
use token_usage.Prelude.Int.{ℤ, pos}
use token_usage.Table.{lookup, alter}
use token_usage.Store.Queries.Priced.{Float, Rates, at_least_zero, zero_float}

-- sort.Slice by length, the longest first; which of two as long comes first is not determined
abbrev is_longer : Text → Text → Bool
is_longer a b = leb (length b) (length a)

-- the loop of `Cost`: the first prefix that fits
unfoldable pub first_prefix : Text → List Text → Option Text
first_prefix model [] = none
first_prefix model (p ∷ prefixes) =
    let rest = first_prefix model prefixes in if has_prefix model p then some p else rest

module _ {R : Type 0} where
  -- for k, v := range custom { p.rates[k] = v }
  unfoldable put_all : List (Text × R) → List (Text × R) → List (Text × R)
  put_all [] rates = rates
  put_all ((k, v) ∷ custom) rates = put_all custom (alter k (λ _. v) rates)

  -- the rates of `NewPricer`: the program's, and those of the file over them
  unfoldable new_pricer : List (Text × R) → Option (List (Text × R)) → List (Text × R)
  unfolding put_all
  new_pricer default_rates none = default_rates
  new_pricer default_rates (some custom) = put_all custom default_rates

  abbrev keys_of : List (Text × R) → List Text
  keys_of [] = []
  keys_of ((k, v) ∷ rates) = k ∷ keys_of rates

  -- `reindex`
  unfoldable pub reindex : List (Text × R) → List Text
  unfolding order_by
  reindex rates = order_by is_longer (keys_of rates)

  -- the rate that `Cost` takes; a prefix of the index is a key of the map
  unfoldable pub rate_of : List (Text × R) → Text → Option R
  unfolding reindex first_prefix
  rate_of rates model = elim (lookup model rates) [
    | some r ↦ some r
    | none ↦ elim (first_prefix model (reindex rates)) [ none ↦ none | some p ↦ lookup p rates ]
  ]

module _ {F : Type 0} (fl : Float F) where
  -- float64(n) * rate / per
  abbrev pub part : ℤ → F → F
  part n rate = fl.div (fl.mul (fl.of_int n) rate) (fl.of_int (pos 1_000_000))

  -- `Cost`
  unfoldable pub cost : List (Text × Rates F) → Text → ℤ → ℤ → ℤ → ℤ → ℤ → F
  unfolding rate_of
  cost rates model input output cc cc1h cr = elim (rate_of rates model) [
    | none ↦ zero_float fl
    | some r ↦
        fl.add
          (fl.add
            (fl.add (fl.add (part input r.input) (part output r.output)) (part cc r.cache_creation))
            (part cc1h (at_least_zero fl (fl.sub r.cache_creation_1h r.cache_creation))))
          (part cr r.cache_read)
  ]
