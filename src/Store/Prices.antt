-- ===== src/Store/Prices.antt =====
-- `Store.UpsertPrice` of internal/server/store.go over model_prices (internal/server/schema.go). The five
-- rates of a row are one value of a type with an equality test, which floating-point rates have when none
-- is NaN. `now` is the transaction's NOW() and `clock` is time.Now().
pub mod Active
pub mod Lists
pub mod Seed
use token_usage.Prelude.{
  ℕ, suc, Bool, true, false, ◌&&◌, Option, none, some, List, [], ◌∷◌, ◌++◌, Eq, ◌==◌, Text, text_eq,
  codes, nat_beq, if◌then◌else◌,
}

-- A row of model_prices; one without an end is active.
pub record Price (R : Type 0) : Type 0 where
  pub model_prefix : Text
  pub valid_from : ℕ
  pub valid_to : Option ℕ
  pub rates : R
  pub source : Text
  pub fetched_at : ℕ

abbrev pub is_none : Option ℕ → Bool
is_none none = true
is_none (some n) = false

-- time.Date(1970, 1, 1, ...), in microseconds since Go's zero time
abbrev pub epoch : ℕ
epoch = 62_135_596_800_000_000

-- if src == "" { src = "manual" }
abbrev pub source_of : Text → Text
source_of source = if source == [] then codes "manual" else source

module _ {R : Type 0} ⦃er : Eq R⦄ where
  -- model_prefix = $1 AND valid_to IS NULL
  unfoldable pub is_active : Text → Price R → Bool
  is_active prefix row = row.model_prefix == prefix && is_none row.valid_to

  unfoldable pub find_active : Text → List (Price R) → Option (Price R)
  find_active prefix [] = none
  find_active prefix (row ∷ rows) =
      let rest = find_active prefix rows in if is_active prefix row then some row else rest

  unfoldable pub update_active : Text → (Price R → Price R) → List (Price R) → List (Price R)
  update_active prefix f [] = []
  update_active prefix f (row ∷ rows) =
      let rest = update_active prefix f rows in
      if is_active prefix row then f row ∷ rest else row ∷ rest

  abbrev pub reprice : R → Text → ℕ → Price R → Price R
  reprice rates source now row = record row { rates = rates; source = source; fetched_at = now }

  abbrev pub close : ℕ → Price R → Price R
  close now row = record row { valid_to = some now }

  -- INSERT ... ON CONFLICT (model_prefix, valid_from) DO UPDATE, which leaves valid_to as it is
  unfoldable pub insert_price : Price R → List (Price R) → List (Price R)
  insert_price p [] = p ∷ []
  insert_price p (row ∷ rows) =
      let rest = insert_price p rows in
      if row.model_prefix == p.model_prefix && nat_beq row.valid_from p.valid_from
      then reprice p.rates p.source p.fetched_at row ∷ rows
      else row ∷ rest

  -- the row that cases 1 and 3 insert
  abbrev pub new_price : ℕ → ℕ → Text → R → Text → Price R
  new_price now from prefix rates source = record {
    model_prefix = prefix;
    valid_from = from;
    valid_to = none;
    rates = rates;
    source = source_of source;
    fetched_at = now;
  }

  -- the statements of one transaction; `from` is 0 if the caller gives no start
  unfoldable pub upsert_price_tx :
      ℕ → ℕ → Text → ℕ → R → Text → List (Price R) → Bool × List (Price R)
  upsert_price_tx now clock prefix from rates source rows = elim (find_active prefix rows) [
    | none ↦ (true, insert_price (new_price now epoch prefix rates source) rows)
    | some cur ↦
        if cur.rates == rates
        then (false, rows)
        else if cur.source == codes "default-seed"
        then (true, update_active prefix (reprice rates (source_of source) now) rows)
        else let start = if nat_beq from 0 then clock else from in
          (
            true,
            insert_price (new_price now start prefix rates source)
                (update_active prefix (close now) rows),
          )
  ]

  -- UpsertPrice: whether a row was written, or an error, after which the rows are as they were
  unfoldable pub upsert_price :
      Bool → ℕ → ℕ → Text → ℕ → R → Text → List (Price R) → Option Bool × List (Price R)
  upsert_price fault now clock prefix from rates source rows =
      let done = upsert_price_tx now clock prefix from rates source rows in
      if fault then (none, rows) else (some done.0, done.1)
