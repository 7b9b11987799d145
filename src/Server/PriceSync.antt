-- ===== src/Server/PriceSync.antt =====
-- internal/server/pricesync.go: one entry of the fetched table is chosen for each model. Floating-point
-- arithmetic is an argument.
pub mod Fetch
pub mod Retry
pub mod Names
pub mod Chosen
use token_usage.Sort.{order_by, text_leb}
use token_usage.Prelude.{
  ℕ, suc, zero, ◌+◌, ◌-◌, ◌*◌, min, ◌≡◌, Bool, true, false, not, ◌&&◌, ◌||◌, Option, none, some,
  List, [], ◌∷◌, ◌++◌, map, Text, text_eq, codes, ◌==◌, Eq, contains, length, take, drop, ltb, leb,
  nat_beq, if◌then◌else◌,
}
use token_usage.Prelude.Int.{pos}
use token_usage.Table.{alter}
use token_usage.Parsers.Lang.{after_last}
use token_usage.Store.Prices.{Price, upsert_price}
use token_usage.Store.Queries.Priced.{Float, Rates}

-- `liteLLMEntry`; `none` is a field that is missing
pub record LiteLlmEntry (F : Type 0) : Type 0 where
  pub input_cost_per_token : Option F
  pub output_cost_per_token : Option F
  pub cache_creation_cost_per_token : Option F
  pub cache_creation_1h_cost_per_token : Option F
  pub cache_read_cost_per_token : Option F
  pub litellm_provider : Text
  pub mode : Text

abbrev is_digit_byte : ℕ → Bool
is_digit_byte c = leb b'0' c && leb c b'9'

-- A text of one shape: `d` stands for a digit, any other byte for itself.
unfoldable pub has_shape : Text → Text → Bool
has_shape [] [] = true
has_shape (d ∷ shape) (c ∷ s) =
    let rest = has_shape shape s in
    (if nat_beq d b'd' then is_digit_byte c else nat_beq c d) && rest
has_shape _ _ = false

-- Removes a suffix of a shape.
unfoldable pub strip_shape : Text → Text → Option Text
unfolding has_shape
strip_shape shape s =
    let n = length s - length shape in
    if leb (length shape) (length s) && has_shape shape (drop n s) then some (take n s) else none

-- dateSuffixRe.ReplaceAllString(s, "")
unfoldable pub strip_date : Text → Text
unfolding strip_shape
strip_date s = elim (strip_shape (codes "-dddd-dd-dd") s) [
  | some rest ↦ rest
  | none ↦ elim (strip_shape (codes "-dddddddd") s) [ some rest ↦ rest | none ↦ s ]
]

-- `normalizeModel`
unfoldable pub normalize_model : Text → Text
unfolding strip_date after_last
normalize_model s = strip_date (after_last b'/' s [])

abbrev is_given : {F : Type 0} → Option F → Bool
is_given none = false
is_given (some x) = true

-- the type `candidate` of `selectPriceRows`
pub record Candidate (F : Type 0) : Type 0 where
  pub entry : LiteLlmEntry F
  pub source : Text
  pub rank : ℕ

module _ {F : Type 0} where
  -- `priceCandidateRank`
  unfoldable pub price_candidate_rank : Text → LiteLlmEntry F → ℕ
  price_candidate_rank key e =
      (if is_given e.cache_creation_cost_per_token then 8 else 0)
      + (if is_given e.cache_creation_1h_cost_per_token then 4 else 0)
      + (if is_given e.cache_read_cost_per_token then 2 else 0)
      + (if contains key (codes "/") then 0 else 1)

  -- the entries that the loop of `selectPriceRows` does not skip
  unfoldable pub is_priced : (Text × LiteLlmEntry F) → Bool
  unfolding normalize_model
  is_priced (name, e) =
      (e.mode == [] || (e.mode == codes "chat" || e.mode == codes "completion"))
      && ((is_given e.input_cost_per_token && is_given e.output_cost_per_token)
          && not (normalize_model name == []))

  abbrev candidate : (Text × LiteLlmEntry F) → Candidate F
  candidate (name, e) = record { entry = e; source = name; rank = price_candidate_rank name e }

  -- if ex, exists := chosen[prefix]; exists && ex.rank >= c.rank { continue }
  abbrev prefer : Candidate F → Option (Candidate F) → Candidate F
  prefer c none = c
  prefer c (some ex) = if leb c.rank ex.rank then ex else c

  -- the loop over the sorted names
  unfoldable pub choose :
      List (Text × LiteLlmEntry F) → List (Text × Candidate F) → List (Text × Candidate F)
  unfolding is_priced
  choose [] chosen = chosen
  choose (row ∷ rows) chosen =
      let taken = choose rows (alter (normalize_model row.0) (prefer (candidate row)) chosen) in
      let skipped = choose rows chosen in if is_priced row then taken else skipped

  abbrev pub by_name : (Text × LiteLlmEntry F) → (Text × LiteLlmEntry F) → Bool
  by_name a b = text_leb a.0 b.0

-- What `SyncPrices` upserts.
pub record PriceRow (F : Type 0) : Type 0 where
  pub model_prefix : Text
  pub rates : Rates F
  pub source : Text

module _ {F : Type 0} (fl : Float F) where
  -- `derefFloat`
  abbrev deref_float : Option F → F
  deref_float none = fl.of_int (pos 0)
  deref_float (some x) = x

  abbrev per_million : Option F → F
  per_million x = fl.mul (deref_float x) (fl.of_int (pos 1_000_000))

  abbrev price_row : (Text × Candidate F) → PriceRow F
  price_row (prefix, c) = record {
    model_prefix = prefix;
    rates = record {
      input = per_million c.entry.input_cost_per_token;
      output = per_million c.entry.output_cost_per_token;
      cache_creation = per_million c.entry.cache_creation_cost_per_token;
      cache_creation_1h = per_million c.entry.cache_creation_1h_cost_per_token;
      cache_read = per_million c.entry.cache_read_cost_per_token;
    };
    source = codes "litellm:" ++ c.source;
  }

  -- `selectPriceRows`, of a map as the list of its entries in any order
  unfoldable select_price_rows : List (Text × LiteLlmEntry F) → List (PriceRow F)
  unfolding choose order_by text_leb
  select_price_rows raw =
      order_by (λ (a b : PriceRow F). text_leb a.model_prefix b.model_prefix)
        (map price_row (choose (order_by by_name raw) []))
