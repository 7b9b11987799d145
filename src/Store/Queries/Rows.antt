-- ===== src/Store/Queries/Rows.antt =====
-- Sums over a daily table that is consistent are sums over the detail rows.
use token_usage.Prelude.{
  inl, inr, ◌≡◌, refl, ap, ◌∙◌, sym, Bool, not, Option, none, some, List, [], ◌∷◌, Eq, ◌==◌, keep,
  arith, if◌then◌else◌, Bool-cases,
}
use token_usage.Prelude.Int.{ℤ, pos, ◌+ℤ◌, sum_by, zero-+ℤ, +ℤ-zero, +ℤ_assoc, +ℤ_swap}
use token_usage.Table.{lookup, alter, IsUnique}
use token_usage.Store.Rollup.{Stream, Daily, Tables, absorb, group, sums_of, IsConsistent}
use token_usage.Store.Rollup.Laws.{lookup-group, group-IsUnique}
use token_usage.Store.Queries.Tally.{weigh, sum_by-alter}

module _ {K : Type 0} ⦃ek : Eq K⦄ {V : Type 0} (p : K → Bool) (f : V → ℤ) where
  -- what the row of a key weighs
  abbrev at : K → Option V → ℤ
  at k none = pos 0
  at k (some v) = weigh p f (k, v)

  abbrev drop_key : K → List (K × V) → List (K × V)
  drop_key k = keep (λ row. not (row.0 == k))

  lookup-drop_key :
      (j k : K) (m : List (K × V)) → lookup j (drop_key k m) ≡ (if k == j then none else lookup j m)
  unfolding lookup
  lookup-drop_key j k [] = ground arith
  lookup-drop_key j k ((i, v) ∷ m) =
      ground (
        arith,
        lookup-drop_key j k m,
        ek.beq_iff i k,
        ek.beq_iff i j,
        ek.beq_iff k j,
        ek.beq_iff k k,
      )

  drop_key-IsUnique : (k : K) (m : List (K × V)) → IsUnique m → IsUnique (drop_key k m)
  drop_key-IsUnique k [] h = tt
  drop_key-IsUnique k ((i, v) ∷ m) (fresh, rest) = elim (Bool-cases (i == k)) [
    | inl e ↦ rw (keep, e) (drop_key-IsUnique k m rest)
    | inr e ↦
        rw (keep, e) (ground (arith, lookup-drop_key i k m, fresh), drop_key-IsUnique k m rest)
  ]

  drop_key-none : (k : K) (m : List (K × V)) → lookup k m ≡ none → drop_key k m ≡ m
  unfolding lookup
  drop_key-none k [] h = refl
  drop_key-none k ((i, v) ∷ m) h = ground (arith, drop_key-none k m)

  sum_by-drop_key :
      (k : K) (m : List (K × V))
      → IsUnique m
      → sum_by (weigh p f) m ≡ at k (lookup k m) +ℤ sum_by (weigh p f) (drop_key k m)
  unfolding lookup
  sum_by-drop_key k [] h = sym (zero-+ℤ (pos 0))
  sum_by-drop_key k ((i, v) ∷ m) (fresh, rest) = ground (
    arith,
    ek.beq_iff i k,
    drop_key-none k m,
    sum_by-drop_key k m rest,
    +ℤ_swap (weigh p f (i, v)) (at k (lookup k m)) (sum_by (weigh p f) (drop_key k m)),
  )

  sum_by-nothing :
      (m : List (K × V))
      → IsUnique m
      → ((k : K) → at k (lookup k m) ≡ pos 0)
      → sum_by (weigh p f) m ≡ pos 0
  unfolding lookup
  sum_by-nothing [] h e = refl
  sum_by-nothing ((i, v) ∷ m) (fresh, rest) e = ground (
    arith,
    e i,
    ek.beq_iff i i,
    zero-+ℤ (pos 0),
    sum_by-nothing m rest (λ k. ground (arith, e k, ek.beq_iff i k, fresh)),
  )

module _ {K : Type 0} ⦃ek : Eq K⦄ {V W : Type 0} (p : K → Bool) (f : V → ℤ) (g : W → ℤ) where
  -- Tables that weigh the same under every key weigh the same.
  sum_by-same :
      (m : List (K × V)) (n : List (K × W))
      → IsUnique m
      → IsUnique n
      → ((k : K) → at p f k (lookup k m) ≡ at p g k (lookup k n))
      → sum_by (weigh p f) m ≡ sum_by (weigh p g) n
  unfolding lookup
  sum_by-same [] n hm hn e = sym (sum_by-nothing p g n hn (λ k. sym (e k)))
  sum_by-same ((i, v) ∷ m) n (fresh, rest) hn e = ground (
    arith,
    e i,
    ek.beq_iff i i,
    sum_by-drop_key p g i n hn,
    sum_by-same m (drop_key p g i n) rest (drop_key-IsUnique p g i n hn)
        (λ k. ground (arith, e k, ek.beq_iff i k, fresh, lookup-drop_key p g k i n)),
  )

module _ {R I K V : Type 0} ⦃ei : Eq I⦄ ⦃ek : Eq K⦄ (s : Stream R I K V) (p : K → Bool) (f : V → ℤ)
    (additive : (a b : V) → f (s.merge a b) ≡ f a +ℤ f b) where
  abbrev weigh_row : R → ℤ
  weigh_row r = if p (s.key r) then f (s.single r) else pos 0

  sum_by-group :
      (rows : List R) (m : List (K × V))
      → sum_by (weigh p f) (group s rows m) ≡ sum_by weigh_row rows +ℤ sum_by (weigh p f) m
  unfolding group
  sum_by-group [] m = sym (zero-+ℤ (sum_by (weigh p f) m))
  sum_by-group (r ∷ rows) m = ground (
    arith,
    sum_by-group rows (alter (s.key r) (λ o. absorb s o r) m),
    sum_by-alter p f (s.key r) (λ o. absorb s o r) (f (s.single r)) refl
        (λ w. additive w (s.single r)) m,
    +ℤ_swap (sum_by weigh_row rows) (weigh_row r) (sum_by (weigh p f) m),
    +ℤ_assoc (weigh_row r) (sum_by weigh_row rows) (sum_by (weigh p f) m),
  )

  at-sums_of :
      (k : K) (o : Option (Daily V)) → at p (λ (d : Daily V). f d.sums) k o ≡ at p f k (sums_of o)
  at-sums_of k none = refl
  at-sums_of k (some d) = refl

  -- The daily rows with different keys weigh what the detail rows do.
  pub sum_by-IsConsistent :
      (t : Tables R K V)
      → IsUnique t.daily
      → IsConsistent s t
      → sum_by (weigh p (λ (d : Daily V). f d.sums)) t.daily ≡ sum_by weigh_row t.detail
  unfolding lookup
  sum_by-IsConsistent t unique c =
      sum_by-same p (λ (d : Daily V). f d.sums) f t.daily (group s t.detail []) unique
        (group-IsUnique s t.detail [] tt)
        (λ k.
          at-sums_of k (lookup k t.daily)
          ∙ ap (at p f k) (c.at_key k ∙ sym (lookup-group s k t.detail [])))
      ∙ (sum_by-group t.detail [] ∙ +ℤ-zero (sum_by weigh_row t.detail))
