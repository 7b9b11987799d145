-- ===== src/Store/Prices/Active.antt =====
-- The active prices: at most one row of a prefix has no end.
use token_usage.Prelude.{
  inl, inr, ℕ, suc, ◌≤◌, ◌≡◌, refl, Bool, true, false, none, List, [], ◌∷◌, Eq, ◌==◌, Text, text_eq,
  text_beq_iff, codes, nat_beq, arith, if◌then◌else◌, Bool-cases, Option-cases,
}
use token_usage.Store.Prices.{
  Price, is_active, find_active, update_active, reprice, close, insert_price, new_price, source_of,
  epoch, upsert_price_tx, upsert_price,
}

module _ {R : Type 0} ⦃er : Eq R⦄ where
  unfoldable pub count_active : Text → List (Price R) → ℕ
  count_active prefix [] = 0
  count_active prefix (row ∷ rows) =
      let rest = count_active prefix rows in if is_active prefix row then suc rest else rest

  find_active-none :
      (prefix : Text) (rows : List (Price R))
      → find_active prefix rows ≡ none
      → count_active prefix rows ≡ 0
  unfolding find_active count_active
  find_active-none prefix [] h = refl
  find_active-none prefix (row ∷ rows) h = ground (arith, find_active-none prefix rows)

  -- a price that is inserted is at most one more active row, of its prefix only
  count_active-insert_price :
      (q : Text) (p : Price R) (rows : List (Price R))
      → count_active q (insert_price p rows)
        ≤ (if p.model_prefix == q then suc (count_active q rows) else count_active q rows)
  unfolding count_active insert_price is_active
  count_active-insert_price q p [] = ground arith
  count_active-insert_price q p (row ∷ rows) = ground (arith, count_active-insert_price q p rows)

  count_active-reprice :
      (q prefix source : Text) (rates : R) (now : ℕ) (rows : List (Price R))
      → count_active q (update_active prefix (reprice rates source now) rows) ≡ count_active q rows
  unfolding count_active update_active is_active
  count_active-reprice q prefix source rates now [] = refl
  count_active-reprice q prefix source rates now (row ∷ rows) =
      ground (arith, count_active-reprice q prefix source rates now rows)

  count_active-close :
      (q prefix : Text) (now : ℕ) (rows : List (Price R))
      → count_active q (update_active prefix (close now) rows)
        ≡ (if prefix == q then 0 else count_active q rows)
  unfolding count_active update_active is_active
  count_active-close q prefix now [] = ground arith
  count_active-close q prefix now (row ∷ rows) = ground (
    arith,
    text_beq_iff prefix q,
    text_beq_iff row.model_prefix prefix,
    text_beq_iff row.model_prefix q,
    count_active-close q prefix now rows,
  )

  abbrev pub IsSingle : List (Price R) → Type 0
  IsSingle rows = (prefix : Text) → count_active prefix rows ≤ 1

  upsert_price_tx-IsSingle :
      (now clock : ℕ) (prefix : Text) (from : ℕ) (rates : R) (source : Text)
      → (rows : List (Price R)) → IsSingle rows
      → IsSingle (upsert_price_tx now clock prefix from rates source rows).1
  unfolding upsert_price_tx
  upsert_price_tx-IsSingle now clock prefix from rates source rows h q =
      elim (Option-cases (find_active prefix rows)) [
        | inl e ↦
            rw (upsert_price_tx, e)
              (ground (
                arith,
                h q,
                find_active-none prefix rows e,
                text_beq_iff prefix q,
                count_active-insert_price q (new_price now epoch prefix rates source) rows,
              ))
        | inr (cur, e) ↦ elim (Bool-cases (cur.rates == rates)) [
          | inl same ↦ rw (upsert_price_tx, e, same) (h q)
          | inr differ ↦ elim (Bool-cases (cur.source == codes "default-seed")) [
            | inl seed ↦
                rw
                  (
                    upsert_price_tx,
                    e,
                    differ,
                    seed,
                    count_active-reprice q prefix (source_of source) rates now rows,
                  )
                  (h q)
            | inr other ↦
                rw (upsert_price_tx, e, differ, other)
                  (ground (
                    arith,
                    h q,
                    count_active-close q prefix now rows,
                    count_active-insert_price q
                        (new_price now (if nat_beq from 0 then clock else from) prefix rates source)
                        (update_active prefix (close now) rows),
                  ))
          ]
        ]
      ]

  -- On every path, errors included, each prefix has at most one active price if it had at most one.
  pub upsert_price-IsSingle :
      (fault : Bool) (now clock : ℕ) (prefix : Text) (from : ℕ) (rates : R) (source : Text)
      → (rows : List (Price R)) → IsSingle rows
      → IsSingle (upsert_price fault now clock prefix from rates source rows).1
  unfolding upsert_price
  upsert_price-IsSingle true now clock prefix from rates source rows h = h
  upsert_price-IsSingle false now clock prefix from rates source rows h =
      upsert_price_tx-IsSingle now clock prefix from rates source rows h
