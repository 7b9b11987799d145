-- ===== src/Server/Dashboard/Prices.antt =====
-- What /prices answers with.
use token_usage.Prelude.{
  ℕ, suc, ◌≡◌, refl, ap, ◌∙◌, Bool, true, false, ◌&&◌, ◌||◌, some, List, [], ◌∷◌, map, keep, Text,
  text_eq, codes, ◌==◌, arith, if◌then◌else◌,
}
use token_usage.Sort.{insert_sorted, order_by}
use token_usage.Store.Prices.{Price, is_none}
use token_usage.Store.Prices.Lists.{list_active_prices, list_price_history}
use token_usage.Store.Queries.Priced.{Rates}
use token_usage.Server.Dashboard.{
  PageRequest, rows_json, TimeCodec, PriceView, price_view, handle_prices,
}
use token_usage.Server.Dashboard.Totals.{answer-rows_json}

module _ {A : Type 0} (p : A → Bool) where
  abbrev pub count_by : List A → ℕ
  count_by [] = 0
  count_by (x ∷ xs) = let rest = count_by xs in if p x then suc rest else rest

  count_by-insert_sorted :
      (before : A → A → Bool) (x : A) (xs : List A)
      → count_by (insert_sorted before x xs) ≡ count_by (x ∷ xs)
  unfolding insert_sorted
  count_by-insert_sorted before x [] = refl
  count_by-insert_sorted before x (y ∷ xs) = ground (arith, count_by-insert_sorted before x xs)

  count_by-order_by :
      (before : A → A → Bool) (xs : List A) → count_by (order_by before xs) ≡ count_by xs
  unfolding order_by
  count_by-order_by before [] = refl
  count_by-order_by before (x ∷ xs) =
      count_by-insert_sorted before x (order_by before xs)
      ∙ ap (λ n. if p x then suc n else n) (count_by-order_by before xs)

module _ {A : Type 0} (p q : A → Bool) where
  count_by-keep : (xs : List A) → count_by p (keep q xs) ≡ count_by (λ x. p x && q x) xs
  count_by-keep [] = refl
  count_by-keep (x ∷ xs) = ground (arith, count_by-keep xs)

count_by-map :
    {A B : Type 0} (f : A → B) (p : B → Bool) (xs : List A)
    → count_by p (map f xs) ≡ count_by (λ x. p (f x)) xs
count_by-map f p [] = refl
count_by-map f p (x ∷ xs) = ground (arith, count_by-map f p xs)

module _ {F : Type 0} where
  abbrev pub shows : Text → PriceView F → Bool
  shows model v = v.model == model

  -- whether a price is asked for: the active ones, those of the prefix, or all
  abbrev pub is_asked : Bool → Text → Price (Rates F) → Bool
  is_asked true model p = is_none p.valid_to
  is_asked false model p = model == [] || p.model_prefix == model

  list_asked :
      (active fault : Bool) (model : Text) (before : Price (Rates F) → Price (Rates F) → Bool)
      (prices : List (Price (Rates F))) {read : List (Price (Rates F))}
      → (if active
          then list_active_prices before fault prices
          else list_price_history before fault model prices)
        ≡ some read
      → read ≡ order_by before (keep (is_asked active model) prices)
  unfolding list_active_prices list_price_history
  list_asked true true model before prices h = absurd (ground (arith, h))
  list_asked true false model before prices h = ground (arith, h)
  list_asked false true model before prices h = absurd (ground (arith, h))
  list_asked false false model before prices h = ground (arith, h)

  -- /prices shows for each model as many rows as the table has of it among those that are asked for: the
  -- active ones if active=1 is given, those of the prefix that is given otherwise, or all.
  pub handle_prices-shows :
      (times : TimeCodec) (fault : Bool) (r : PageRequest)
      (before : Price (Rates F) → Price (Rates F) → Bool) (prices : List (Price (Rates F)))
      {rows : List (PriceView F)}
      → handle_prices times fault r before prices ≡ rows_json rows
      → (model : Text)
      → count_by (shows model) rows
        ≡ count_by
            (λ (p : Price (Rates F)).
              (p.model_prefix == model)
              && is_asked (r.get (codes "active") == codes "1") (r.get (codes "model")) p)
            prices
  unfolding handle_prices
  handle_prices-shows times fault r before prices h model =
      let (read, q, same) = answer-rows_json (price_view times) r _ h in
      let p : Price (Rates F) → Bool = λ x. x.model_prefix == model in
      let asked = is_asked (r.get (codes "active") == codes "1") (r.get (codes "model")) in
      let listed =
        list_asked (r.get (codes "active") == codes "1") fault (r.get (codes "model")) before prices
          q in
      ap (count_by (shows model)) same
      ∙ (count_by-map (price_view times) (shows model) read
          ∙ (ap (count_by p) listed
              ∙ (count_by-order_by p before (keep asked prices) ∙ count_by-keep p asked prices)))
