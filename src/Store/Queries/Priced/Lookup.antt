-- ===== src/Store/Queries/Priced/Lookup.antt =====
-- `priceLookupSQL`: the price of a day is the one with the longest prefix, and of these the latest.
use token_usage.Prelude.{
  inl, inr, IsIn, ℕ, ◌≤◌, ◌≡◌, refl, true, false, Option, none, some, List, [], ◌∷◌, Text, All,
  length, arith, Bool-cases, Option-cases,
}
use token_usage.Store.Prices.{Price}
use token_usage.Store.Queries.Priced.{is_candidate, comes_before, price_lookup}

module _ {R : Type 0} where
  -- q does not stand before p: its prefix is no longer, and with a prefix of the same length it starts no
  -- later.
  abbrev pub IsNoBetter : Price R → Price R → Type 0
  IsNoBetter p q =
      (length q.model_prefix ≤ length p.model_prefix)
      × (length q.model_prefix ≡ length p.model_prefix → q.valid_from ≤ p.valid_from)

  IsNoBetter-refl : (p : Price R) → IsNoBetter p p
  IsNoBetter-refl p = (omega arith, λ e. omega arith)

  IsNoBetter-trans : (p q r : Price R) → IsNoBetter p q → IsNoBetter q r → IsNoBetter p r
  IsNoBetter-trans p q r (a, b) (c, d) = (omega arith, λ e. ground (arith, b, d))

  comes_before-true : (p q : Price R) → comes_before p q ≡ true → IsNoBetter p q
  comes_before-true p q h = (ground (arith, h), λ e. ground (arith, h, e))

  comes_before-false : (p q : Price R) → comes_before q p ≡ false → IsNoBetter p q
  comes_before-false p q h = (ground (arith, h), λ e. ground (arith, h, e))

  module _ (midnight : ℕ → ℕ) (model : Text) (day : ℕ) where
    abbrev pub AllNoBetter : Price R → List (Price R) → Type 0
    AllNoBetter p = All (λ (q : Price R). is_candidate midnight model day q ≡ true → IsNoBetter p q)

    AllNoBetter-trans :
        (p q : Price R) (prices : List (Price R))
        → IsNoBetter p q
        → AllNoBetter q prices
        → AllNoBetter p prices
    AllNoBetter-trans p q [] h a = tt
    AllNoBetter-trans p q (r ∷ prices) h (here, rest) =
        (λ c. IsNoBetter-trans p q r h (here c), AllNoBetter-trans p q prices h rest)

    abbrev pub None : List (Price R) → Type 0
    None = All (λ (q : Price R). is_candidate midnight model day q ≡ false)

    AllNoBetter-None : (p : Price R) (prices : List (Price R)) → None prices → AllNoBetter p prices
    AllNoBetter-None p [] h = tt
    AllNoBetter-None p (q ∷ prices) (here, rest) =
        (λ c. ground (arith, here, c), AllNoBetter-None p prices rest)

    abbrev pub Best : List (Price R) → Option (Price R) → Type 0
    Best prices none = None prices
    Best prices (some p) =
        IsIn p prices × (is_candidate midnight model day p ≡ true) × AllNoBetter p prices

    skip :
        (p : Price R) (prices : List (Price R)) (o : Option (Price R))
        → is_candidate midnight model day p ≡ false
        → Best prices o
        → Best (p ∷ prices) o
    skip p prices none other h = (other, h)
    skip p prices (some q) other (h, c, rest) = (inr h, c, ((λ e. ground (arith, other, e)), rest))

    -- The price of a model on a day is among the candidates, and none of these has a longer prefix, or one
    -- as long and a later start; and it is missing only if there is no candidate.
    pub price_lookup-Best :
        (prices : List (Price R)) → Best prices (price_lookup midnight model day prices)
    unfolding price_lookup
    price_lookup-Best [] = tt
    price_lookup-Best (p ∷ prices) =
        let ih = price_lookup-Best prices in
        elim (Bool-cases (is_candidate midnight model day p)) [
          | inr other ↦
              rw (price_lookup, other)
                (skip p prices (price_lookup midnight model day prices) other ih)
          | inl c ↦ elim (Option-cases (price_lookup midnight model day prices)) [
            | inl e ↦
                rw (price_lookup, c, e)
                  (inl refl, c, ((λ _. IsNoBetter-refl p), AllNoBetter-None p prices (rw e at ih)))
            | inr (q, e) ↦
                let best : Best prices (some q) = rw e at ih in
                elim (Bool-cases (comes_before q p)) [
                  | inl better ↦
                      rw (price_lookup, c, e, better)
                        (inr best.0, best.1, ((λ _. comes_before-true q p better), best.2))
                  | inr worse ↦
                      rw (price_lookup, c, e, worse)
                        (
                          inl refl,
                          c,
                          (
                            (λ _. IsNoBetter-refl p),
                            AllNoBetter-trans p q prices (comes_before-false p q worse) best.2,
                          ),
                        )
                ]
          ]
        ]
