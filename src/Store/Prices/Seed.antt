-- ===== src/Store/Prices/Seed.antt =====
-- `Store.SeedDefaultPrices` of internal/server/store.go. `fault` is a failed statement; the order in which Go
-- ranges over the defaults is that of the list.
pub mod Single
use token_usage.Prelude.{
  ◌≡◌, ℕ, Bool, true, false, ◌&&◌, ◌||◌, Option, none, some, List, [], ◌∷◌, ◌++◌, keep, Text,
  text_eq, codes, ◌==◌, nat_beq, if◌then◌else◌,
}
use token_usage.Store.Prices.{Price, is_none, epoch}

module _ {R : Type 0} where
  unfoldable has_price : Text → ℕ → List (Price R) → Bool
  has_price prefix from [] = false
  has_price prefix from (p ∷ rows) =
      (p.model_prefix == prefix && nat_beq p.valid_from from) || has_price prefix from rows

  abbrev pub seed_price : ℕ → Text → R → Price R
  seed_price now prefix rates = record {
    model_prefix = prefix;
    valid_from = epoch;
    valid_to = none;
    rates = rates;
    source = codes "default-seed";
    fetched_at = now;
  }

  -- INSERT ... ON CONFLICT DO NOTHING, for each default
  unfoldable seed_all : ℕ → List (Text × R) → List (Price R) → List (Price R)
  unfolding has_price
  seed_all now [] rows = rows
  seed_all now ((prefix, rates) ∷ defaults) rows =
      let skipped = seed_all now defaults rows in
      let taken = seed_all now defaults (rows ++ seed_price now prefix rates ∷ []) in
      if has_price prefix epoch rows then skipped else taken

  -- `SeedDefaultPrices`: whether it returned without an error
  unfoldable pub seed_default_prices :
      Bool → ℕ → List (Text × R) → List (Price R) → Bool × List (Price R)
  unfolding seed_all
  seed_default_prices true now defaults rows = (false, rows)
  seed_default_prices false now defaults (p ∷ rows) = (true, p ∷ rows)
  seed_default_prices false now defaults [] = (true, seed_all now defaults [])
