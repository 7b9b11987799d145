-- ===== src/Server/PriceSync/Chosen.antt =====
-- Which entry is chosen for a model: the order in which a map is read does not matter.
use token_usage.Sort.{order_by, text_leb}
use token_usage.Sort.Laws.{
  All-IsIn, All-order_by, Sorted, order_by-All, text_leb_refl, text_leb_trans,
}
use token_usage.Prelude.{
  inl, inr, IsIn, ◌⊎◌, ◌≤◌, ◌<◌, ◌≡◌, refl, sym, ap, ◌∙◌, Bool, true, false, ◌&&◌, Option, none,
  some, List, [], ◌∷◌, Text, text_eq, text_beq_iff, ◌==◌, All, arith, leb, leb→le, if◌then◌else◌,
  Bool-cases,
}
use token_usage.Table.{lookup, alter, lookup-alter}
use token_usage.Server.PriceSync.{
  Candidate, normalize_model, is_priced, candidate, prefer, choose, by_name,
}
use token_usage.Server.PriceSync.Names.{Entry, order_by-by_name}

module _ (F : Type 0) where
  -- An entry is a candidate for a model.
  abbrev competes : Text → Entry F → Bool
  competes q row = is_priced row && (normalize_model row.0 == q)

  -- c has a higher rank than d, or the same and a name that does not come after d's.
  abbrev pub Beats : Candidate F → Candidate F → Type 0
  Beats c d = (d.rank ≤ c.rank) × (d.rank ≡ c.rank → text_leb c.source d.source ≡ true)

  Beats-refl : (c : Candidate F) → Beats c c
  Beats-refl c = (omega arith, λ e. text_leb_refl c.source)

  Beats-trans : (c d e : Candidate F) → Beats c d → Beats d e → Beats c e
  Beats-trans c d e (h, k) (h', k') = (
    omega arith,
    λ same. text_leb_trans c.source d.source e.source (k (omega arith)) (k' (omega arith)),
  )

  -- the loop, of one model
  abbrev pick : Text → List (Entry F) → Option (Candidate F) → Option (Candidate F)
  pick q [] o = o
  pick q (r ∷ rows) o = pick q rows (if competes q r then some (prefer (candidate r) o) else o)

  lookup-choose :
      (q : Text) (rows : List (Entry F)) (chosen : List (Text × Candidate F))
      → lookup q (choose rows chosen) ≡ pick q rows (lookup q chosen)
  unfolding choose
  lookup-choose q [] chosen = refl
  lookup-choose q (r ∷ rows) chosen = ground (
    arith,
    lookup-choose q rows (alter (normalize_model r.0) (prefer (candidate r)) chosen),
    lookup-choose q rows chosen,
    lookup-alter q (normalize_model r.0) (prefer (candidate r)) chosen,
    text_beq_iff (normalize_model r.0) q,
  )

  -- No candidate among the rows, or in the accumulator, beats the one that is picked.
  abbrev Unbeaten : Text → List (Entry F) → Option (Candidate F) → Type 0
  Unbeaten q rows none = All (λ (e : Entry F). competes q e ≡ false) rows
  Unbeaten q rows (some c) = All (λ (e : Entry F). competes q e ≡ true → Beats c (candidate e)) rows

  -- The one in the accumulator comes first.
  abbrev Precedes : Option (Candidate F) → List (Entry F) → Type 0
  Precedes none rows = Unit
  Precedes (some c) rows = All (λ (e : Entry F). text_leb c.source e.0 ≡ true) rows

  abbrev BeatsOption : Option (Candidate F) → Option (Candidate F) → Type 0
  BeatsOption o none = Unit
  BeatsOption none (some c) = ⊥
  BeatsOption (some d) (some c) = Beats d c

  prefer-Beats :
      (r : Entry F) (rows : List (Entry F)) (o : Option (Candidate F))
      → All (λ (e : Entry F). text_leb r.0 e.0 ≡ true) rows
      → Precedes o (r ∷ rows)
      → Beats (prefer (candidate r) o) (candidate r)
        × BeatsOption (some (prefer (candidate r) o)) o
        × Precedes (some (prefer (candidate r) o)) rows
  prefer-Beats r rows none here p = (Beats-refl (candidate r), tt, here)
  prefer-Beats r rows (some c) here (first, rest) =
      elim (Bool-cases (leb (candidate r).rank c.rank)) [
        | inl old ↦
            rw (prefer, old)
              ((leb→le (candidate r).rank c.rank old, λ e. first), Beats-refl c, rest)
        | inr new ↦
            let less : c.rank < (candidate r).rank = ground (arith, new) in
            rw (prefer, new)
              (Beats-refl (candidate r), (omega arith, λ e. ground (arith, e, less)), here)
      ]

  BeatsOption-trans :
      (o o' : Option (Candidate F)) (c : Candidate F)
      → BeatsOption o (some c)
      → BeatsOption (some c) o'
      → BeatsOption o o'
  BeatsOption-trans o none c h k = tt
  BeatsOption-trans none (some d) c h k = h
  BeatsOption-trans (some b) (some d) c h k = Beats-trans b c d h k

  Unbeaten-taken :
      (q : Text) (r : Entry F) (rows : List (Entry F)) (o : Option (Candidate F)) (c : Candidate F)
      → BeatsOption o (some c)
      → Beats c (candidate r)
      → Unbeaten q rows o
      → Unbeaten q (r ∷ rows) o
  Unbeaten-taken q r rows none c h k u = absurd h
  Unbeaten-taken q r rows (some d) c h k u = ((λ e. Beats-trans d c (candidate r) h k), u)

  Unbeaten-skipped :
      (q : Text) (r : Entry F) (rows : List (Entry F)) (o : Option (Candidate F))
      → competes q r ≡ false
      → Unbeaten q rows o
      → Unbeaten q (r ∷ rows) o
  Unbeaten-skipped q r rows none h u = (h, u)
  Unbeaten-skipped q r rows (some d) h u = ((λ e. ground (arith, e, h)), u)

  Precedes-tail :
      (r : Entry F) (rows : List (Entry F)) (o : Option (Candidate F))
      → Precedes o (r ∷ rows)
      → Precedes o rows
  Precedes-tail r rows none p = tt
  Precedes-tail r rows (some c) p = p.1

  pick-Unbeaten :
      (q : Text) (rows : List (Entry F)) (o : Option (Candidate F))
      → Sorted by_name rows
      → Precedes o rows
      → Unbeaten q rows (pick q rows o) × BeatsOption (pick q rows o) o
  pick-Unbeaten q [] none s p = (tt, tt)
  pick-Unbeaten q [] (some c) s p = (tt, Beats-refl c)
  pick-Unbeaten q (r ∷ rows) o (here, rest) p = elim (Bool-cases (competes q r)) [
    | inl yes_r ↦
        let c : Candidate F = prefer (candidate r) o in
        let (beats, over, first) = prefer-Beats r rows o here p in
        let (unbeaten, top) = pick-Unbeaten q rows (some c) rest first in
        rw (pick, yes_r)
          (
            Unbeaten-taken q r rows (pick q rows (some c)) c top beats unbeaten,
            BeatsOption-trans (pick q rows (some c)) o c top over,
          )
    | inr no_r ↦
        let (unbeaten, top) = pick-Unbeaten q rows o rest (Precedes-tail r rows o p) in
        rw (pick, no_r) (Unbeaten-skipped q r rows (pick q rows o) no_r unbeaten, top)
  ]

  prefer-cases :
      (c : Candidate F) (o : Option (Candidate F)) → (prefer c o ≡ c) ⊎ (o ≡ some (prefer c o))
  prefer-cases c none = inl refl
  prefer-cases c (some ex) = elim (Bool-cases (leb c.rank ex.rank)) [
    | inl old ↦ inr (rw (prefer, old) refl)
    | inr new ↦ inl (rw (prefer, new) refl)
  ]

  -- The one that is picked is a candidate among the rows, or the one in the accumulator.
  pick-All :
      (p : Entry F → Type 0) (q : Text) (rows : List (Entry F)) (o : Option (Candidate F))
      {d : Candidate F}
      → All p rows
      → pick q rows o ≡ some d
      → (o ≡ some d) ⊎ ((r : Entry F) × p r × (competes q r ≡ true) × (d ≡ candidate r))
  pick-All p q [] o h e = inl e
  pick-All p q (r ∷ rows) o {d} (here, rest) e = elim (Bool-cases (competes q r)) [
    | inr no_r ↦ pick-All p q rows o rest (rw (pick, no_r) at e)
    | inl yes_r ↦
        elim (pick-All p q rows (some (prefer (candidate r) o)) rest (rw (pick, yes_r) at e)) [
          | inr found ↦ inr found
          | inl taken ↦
              let same : prefer (candidate r) o ≡ d = ground (arith, taken) in
              elim (prefer-cases (candidate r) o) [
                | inl new ↦ inr (r, here, yes_r, sym same ∙ new)
                | inr old ↦ inl (old ∙ ap (λ c. some c) same)
              ]
        ]
  ]

  -- What `select_price_rows` chooses for a model.
  abbrev pub Chosen : Text → List (Entry F) → Option (Candidate F) → Type 0
  Chosen q raw none = All (λ (e : Entry F). competes q e ≡ false) raw
  Chosen q raw (some c) =
      ((r : Entry F) × IsIn r raw × (competes q r ≡ true) × (c ≡ candidate r))
      × All (λ (e : Entry F). competes q e ≡ true → Beats c (candidate e)) raw

  pick-Chosen :
      (q : Text) (raw : List (Entry F)) (o : Option (Candidate F))
      → pick q (order_by by_name raw) none ≡ o
      → Unbeaten q (order_by by_name raw) o
      → Chosen q raw o
  pick-Chosen q raw none e u = order_by-All by_name _ raw u
  pick-Chosen q raw (some c) e u =
      elim (pick-All (λ r. IsIn r raw) q (order_by by_name raw) none
        (All-order_by by_name (λ r. IsIn r raw) raw (All-IsIn (λ r. IsIn r raw) raw (λ r i. i)))
        e) [ inl never ↦ ground (arith, never) | inr found ↦ (found, order_by-All by_name _ raw u) ]

  -- However a map is listed, the entry that is chosen for a model is one of those that compete for it, and
  -- none of these has a higher rank, or the same rank and a name that comes before its name; and there is
  -- none only if no entry competes.
  pub choose-Chosen :
      (q : Text) (raw : List (Entry F)) → Chosen q raw (lookup q (choose (order_by by_name raw) []))
  unfolding lookup
  choose-Chosen q raw = rw (lookup-choose q (order_by by_name raw) []) (
      pick-Chosen q raw (pick q (order_by by_name raw) none) refl
        (pick-Unbeaten q (order_by by_name raw) none (order_by-by_name F raw) tt).0)
