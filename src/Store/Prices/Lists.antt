-- ===== src/Store/Prices/Lists.antt =====
-- `ListActivePrices` and `ListPriceHistory` of internal/server/store.go. The order of the rows, by the
-- database's collation of model_prefix and then by valid_from, is in the argument `before`.
use token_usage.Sort.{order_by}
use token_usage.Prelude.{
  Bool, true, false, ◌||◌, Option, none, some, List, [], keep, Text, text_eq, ◌==◌,
}
use token_usage.Store.Prices.{Price, is_none}

module _ {R : Type 0} (before : Price R → Price R → Bool) where
  -- WHERE valid_to IS NULL; `none` is an error
  unfoldable pub list_active_prices : Bool → List (Price R) → Option (List (Price R))
  unfolding order_by
  list_active_prices true rows = none
  list_active_prices false rows = some (order_by before (keep (λ p. is_none p.valid_to) rows))

  -- WHERE ($1 = '' OR model_prefix = $1)
  unfoldable pub list_price_history : Bool → Text → List (Price R) → Option (List (Price R))
  unfolding order_by
  list_price_history true prefix rows = none
  list_price_history false prefix rows =
      some (order_by before (keep (λ p. prefix == [] || p.model_prefix == prefix) rows))
