-- ===== src/Examples/Prices.antt =====
-- internal/server/store.go, `UpsertPrice` on one price.
use token_usage.Prelude.{
  ℕ, ◌≡◌, refl, Bool, false, Option, none, some, List, [], ◌∷◌, codes, text_beq, text_eq, nat_eq,
  arith, Text,
}
use token_usage.Store.Prices.{
  Price, is_active, find_active, update_active, insert_price, upsert_price_tx, upsert_price, epoch,
}
use token_usage.Store.Prices.Active.{count_active, IsSingle, upsert_price-IsSingle}

abbrev price : Price ℕ
price = record {
  model_prefix = codes "opus";
  valid_from = epoch;
  valid_to = none;
  rates = 5;
  source = codes "litellm";
  fetched_at = 1;
}

price-IsSingle : IsSingle (price ∷ [])
unfolding count_active is_active
price-IsSingle prefix = ground arith

abbrev changed : Option Bool × List (Price ℕ)
changed = upsert_price false 9 9 (codes "opus") 0 6 (codes "litellm") (price ∷ [])

-- A changed price closes the old row and opens a new one.
upsert_price_changed :
    find_active (codes "opus") changed.1
    ≡ some (record price { valid_from = 9; rates = 6; fetched_at = 9 })
unfolding upsert_price upsert_price_tx find_active is_active update_active insert_price text_beq
upsert_price_changed = refl

upsert_price-IsSingle_example : IsSingle changed.1
upsert_price-IsSingle_example =
    upsert_price-IsSingle false 9 9 (codes "opus") 0 6 (codes "litellm") (price ∷ []) price-IsSingle

-- With the start of the row that is active, the row that was just closed takes the new rates.
upsert_price_lost :
    find_active
      (codes "opus")
      (upsert_price false 9 9 (codes "opus") epoch 6 (codes "litellm") (price ∷ [])).1
    ≡ none
unfolding upsert_price upsert_price_tx find_active is_active update_active insert_price text_beq
upsert_price_lost = refl

abbrev defaults : List (Text × ℕ)
defaults = (codes "opus", 5) ∷ (codes "haiku", 1) ∷ []
