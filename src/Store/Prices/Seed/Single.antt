-- ===== src/Store/Prices/Seed/Single.antt =====
-- `SeedDefaultPrices`: the prices that a first start leaves active.
use token_usage.Prelude.{
  inl, inr, ℕ, suc, ◌≤◌, ◌≡◌, refl, Bool, true, false, none, some, List, [], ◌∷◌, ◌++◌, map, Eq,
  ◌==◌, Text, text_eq, text_beq_iff, arith, if◌then◌else◌, Bool-cases, sym,
}
use token_usage.Store.Prices.{Price, is_active, find_active, epoch}
use token_usage.Store.Prices.Active.{count_active, IsSingle}
use token_usage.Store.Prices.Seed.{has_price, seed_price, seed_all, seed_default_prices}

module _ {R : Type 0} ⦃er : Eq R⦄ where
  -- a price that is appended is one more active row of its prefix
  count_active-append :
      (q prefix : Text) (now : ℕ) (rates : R) (rows : List (Price R))
      → count_active q (rows ++ seed_price now prefix rates ∷ [])
        ≡ (if prefix == q then suc (count_active q rows) else count_active q rows)
  unfolding count_active is_active
  count_active-append q prefix now rates [] = ground arith
  count_active-append q prefix now rates (row ∷ rows) =
      ground (arith, count_active-append q prefix now rates rows)

  has_price-append :
      (q prefix : Text) (now : ℕ) (rates : R) (rows : List (Price R))
      → has_price q epoch (rows ++ seed_price now prefix rates ∷ []) ≡ false
      → (has_price q epoch rows ≡ false) × ((prefix == q) ≡ false)
  unfolding has_price
  has_price-append q prefix now rates [] h = ground (arith, h)
  has_price-append q prefix now rates (row ∷ rows) h =
      ground (arith, h, has_price-append q prefix now rates rows)

  -- rows that are active once at most, and only under the key of a default
  abbrev AreSeeds : List (Price R) → Type 0
  AreSeeds rows =
      (q : Text)
      → (count_active q rows ≤ 1) × (has_price q epoch rows ≡ false → count_active q rows ≡ 0)

  AreSeeds-append :
      (prefix : Text) (now : ℕ) (rates : R) (rows : List (Price R))
      → AreSeeds rows
      → has_price prefix epoch rows ≡ false
      → AreSeeds (rows ++ seed_price now prefix rates ∷ [])
  AreSeeds-append prefix now rates rows s h q =
      rw (count_active-append q prefix now rates rows) (elim (Bool-cases (prefix == q)) [
        | inl e ↦
            let none_of_q = (s q).1 (rw (sym ((text_beq_iff prefix q).0 e)) h) in
            rw e (
              omega (arith, none_of_q),
              λ f. ground (arith, e, has_price-append q prefix now rates rows f),
            )
        | inr e ↦ rw e ((s q).0, λ f. (s q).1 (has_price-append q prefix now rates rows f).0)
      ])

  seed_all-AreSeeds :
      (now : ℕ) (defaults : List (Text × R)) (rows : List (Price R))
      → AreSeeds rows
      → AreSeeds (seed_all now defaults rows)
  unfolding seed_all
  seed_all-AreSeeds now [] rows s = s
  seed_all-AreSeeds now ((prefix, rates) ∷ defaults) rows s =
      elim (Bool-cases (has_price prefix epoch rows)) [
        | inl h ↦ rw h (seed_all-AreSeeds now defaults rows s)
        | inr h ↦ rw h (
            seed_all-AreSeeds now defaults (rows ++ seed_price now prefix rates ∷ [])
              (AreSeeds-append prefix now rates rows s h))
      ]

  find_active-append :
      (q prefix : Text) (now : ℕ) (rates : R) (p : Price R) (rows : List (Price R))
      → find_active q rows ≡ some p
      → find_active q (rows ++ seed_price now prefix rates ∷ []) ≡ some p
  unfolding find_active
  find_active-append q prefix now rates p [] h = ground (arith, h)
  find_active-append q prefix now rates p (row ∷ rows) h =
      ground (arith, h, find_active-append q prefix now rates p rows)

  find_active-append_none :
      (q prefix : Text) (now : ℕ) (rates : R) (rows : List (Price R))
      → find_active q rows ≡ none
      → find_active q (rows ++ seed_price now prefix rates ∷ [])
        ≡ find_active q (seed_price now prefix rates ∷ [])
  unfolding find_active
  find_active-append_none q prefix now rates [] h = refl
  find_active-append_none q prefix now rates (row ∷ rows) h =
      ground (arith, h, find_active-append_none q prefix now rates rows)

  seed_all-kept :
      (q : Text) (now : ℕ) (defaults : List (Text × R)) (p : Price R) (rows : List (Price R))
      → find_active q rows ≡ some p
      → find_active q (seed_all now defaults rows) ≡ some p
  unfolding seed_all
  seed_all-kept q now [] p rows h = h
  seed_all-kept q now ((prefix, rates) ∷ defaults) p rows h =
      elim (Bool-cases (has_price prefix epoch rows)) [
        | inl e ↦ rw e (seed_all-kept q now defaults p rows h)
        | inr e ↦ rw e (
            seed_all-kept q now defaults p (rows ++ seed_price now prefix rates ∷ [])
              (find_active-append q prefix now rates p rows h))
      ]

  has_price-other :
      (q prefix : Text) (now : ℕ) (rates : R) (rows : List (Price R))
      → has_price q epoch rows ≡ false
      → (prefix == q) ≡ false
      → has_price q epoch (rows ++ seed_price now prefix rates ∷ []) ≡ false
  unfolding has_price
  has_price-other q prefix now rates [] h e = ground (arith, e)
  has_price-other q prefix now rates (row ∷ rows) h e =
      ground (arith, h, e, has_price-other q prefix now rates rows)

  seed_all-first :
      (q : Text) (now : ℕ) (defaults : List (Text × R)) (rows : List (Price R))
      → find_active q rows ≡ none
      → has_price q epoch rows ≡ false
      → find_active q (seed_all now defaults rows)
        ≡ find_active q (map (λ d. seed_price now d.0 d.1) defaults)
  unfolding seed_all find_active is_active
  seed_all-first q now [] rows n h = n
  seed_all-first q now ((prefix, rates) ∷ defaults) rows n h =
      let seeded = find_active-append_none q prefix now rates rows n in
      elim (Bool-cases (prefix == q)) [
        | inl e ↦
            let free : has_price prefix epoch rows ≡ false = rw ((text_beq_iff prefix q).0 e) h in
            let kept =
              seed_all-kept q now defaults (seed_price now prefix rates)
                (rows ++ seed_price now prefix rates ∷ []) (ground (arith, e, seeded)) in
            rw (free, e) kept
        | inr e ↦
            let skipped = seed_all-first q now defaults rows n h in
            let taken =
              seed_all-first q now defaults (rows ++ seed_price now prefix rates ∷ [])
                (ground (arith, e, n, seeded)) (has_price-other q prefix now rates rows h e) in
            rw e (elim (Bool-cases (has_price prefix epoch rows)) [
              | inl f ↦ rw f skipped
              | inr f ↦ rw f taken
            ])
      ]

  seed_default_prices-IsSingle :
      (fault : Bool) (now : ℕ) (defaults : List (Text × R)) (rows : List (Price R))
      → IsSingle rows
      → IsSingle (seed_default_prices fault now defaults rows).1
  unfolding seed_default_prices count_active
  seed_default_prices-IsSingle true now defaults rows s = s
  seed_default_prices-IsSingle false now defaults (p ∷ rows) s = s
  seed_default_prices-IsSingle false now defaults [] s =
      λ q. (seed_all-AreSeeds now defaults [] (λ r. (omega arith, λ h. refl)) q).0

  -- Seeding an empty table, with no fault, leaves at most one active price of each prefix, and that price is the
  -- one of the first default with the prefix; no price is active where no default has the prefix.
  pub seed_default_prices_empty :
      (now : ℕ) (defaults : List (Text × R))
      → IsSingle (seed_default_prices false now defaults []).1
        × ((prefix : Text)
            → find_active prefix (seed_default_prices false now defaults []).1
              ≡ find_active prefix (map (λ d. seed_price now d.0 d.1) defaults))
  unfolding seed_default_prices count_active find_active has_price
  seed_default_prices_empty now defaults = (
    seed_default_prices-IsSingle false now defaults [] (λ q. omega arith),
    λ q. seed_all-first q now defaults [] refl refl,
  )
