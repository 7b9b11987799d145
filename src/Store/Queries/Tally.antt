-- ===== src/Store/Queries/Tally.antt =====
-- Totals are those of the rows that are grouped, sorted and scanned.
use token_usage.Sort.{insert_sorted, order_by}
use token_usage.Prelude.{
  inl, inr, ◌≡◌, refl, sym, Bool, ◌&&◌, Option, none, some, List, [], ◌∷◌, Eq, keep, arith,
  if◌then◌else◌, Option-cases,
}
use token_usage.Prelude.Int.{ℤ, pos, ◌+ℤ◌, sum_by, zero-+ℤ, +ℤ_assoc, +ℤ_swap}
use token_usage.Table.{alter}
use token_usage.Store.Queries.{scan_rows, tally, count_in}

module _ {A : Type 0} (f : A → ℤ) (before : A → A → Bool) where
  sum_by-insert_sorted :
      (x : A) (ys : List A) → sum_by f (insert_sorted before x ys) ≡ f x +ℤ sum_by f ys
  unfolding insert_sorted
  sum_by-insert_sorted x [] = refl
  sum_by-insert_sorted x (y ∷ ys) =
      ground (arith, sum_by-insert_sorted x ys, +ℤ_swap (f x) (f y) (sum_by f ys))

  pub sum_by-order_by : (xs : List A) → sum_by f (order_by before xs) ≡ sum_by f xs
  unfolding order_by
  sum_by-order_by [] = refl
  sum_by-order_by (x ∷ xs) =
      ground (arith, sum_by-insert_sorted x (order_by before xs), sum_by-order_by xs)

module _ {A B : Type 0} (scan : A → Option B) (f : A → ℤ) (g : B → ℤ) where
  pub sum_by-scan_rows :
      (xs : List A) {ys : List B}
      → ((a : A) (b : B) → scan a ≡ some b → g b ≡ f a)
      → scan_rows scan xs ≡ some ys
      → sum_by g ys ≡ sum_by f xs
  unfolding scan_rows
  sum_by-scan_rows [] h e = ground (arith, e)
  sum_by-scan_rows (x ∷ xs) {ys} h e = elim (Option-cases (scan x)) [
    | inl bad ↦ ground (arith, bad, e)
    | inr (b, good) ↦ elim (Option-cases (scan_rows scan xs)) [
      | inl bad ↦ ground (arith, good, bad, e)
      | inr (bs, rest) ↦
          ground (arith, good, rest, e, h x b good, sum_by-scan_rows xs {ys = bs} h rest)
    ]
  ]

-- What the rows whose key passes a test measure.
abbrev pub weigh : {J W : Type 0} → (J → Bool) → (W → ℤ) → (J × W) → ℤ
weigh p measure row = if p row.0 then measure row.1 else pos 0

-- A row counted under a key adds what it measures.
pub sum_by-alter :
    {J W : Type 0} ⦃ej : Eq J⦄ (p : J → Bool) (measure : W → ℤ) (j : J) (f : Option W → W) (c : ℤ)
    → measure (f none) ≡ c
    → ((w : W) → measure (f (some w)) ≡ measure w +ℤ c)
    → (m : List (J × W))
    → sum_by (weigh p measure) (alter j f m)
      ≡ (if p j then c else pos 0) +ℤ sum_by (weigh p measure) m
unfolding alter
sum_by-alter p measure j f c hn hs [] = ground (arith, hn)
sum_by-alter ⦃ej⦄ p measure j f c hn hs ((i, w) ∷ m) =
    let rest = sum_by (weigh p measure) m in
    ground (
      arith,
      ej.beq_iff i j,
      hs w,
      sum_by-alter p measure j f c hn hs m,
      +ℤ_swap (if p j then c else pos 0) (weigh p measure (i, w)) rest,
      +ℤ_swap c (measure w) rest,
      +ℤ_assoc (measure w) c rest,
      zero-+ℤ rest,
    )

module _ {K V J W : Type 0} ⦃ej : Eq J⦄ (g : K → J) (one : V → W) (add : W → W → W) (p : J → Bool)
    (measure : W → ℤ) (additive : (a b : W) → measure (add a b) ≡ measure a +ℤ measure b) where
  pub sum_by-tally :
      (rows : List (K × V)) (m : List (J × W))
      → sum_by (weigh p measure) (tally g one add rows m)
        ≡ sum_by (weigh (λ k. p (g k)) (λ v. measure (one v))) rows +ℤ sum_by (weigh p measure) m
  unfolding tally
  sum_by-tally [] m = sym (zero-+ℤ (sum_by (weigh p measure) m))
  sum_by-tally ((k, v) ∷ rows) m =
      let here = weigh p measure (g k, one v) in
      let rest = sum_by (weigh (λ k. p (g k)) (λ v. measure (one v))) rows in
      let old = sum_by (weigh p measure) m in
      ground (
        arith,
        sum_by-tally rows (alter (g k) (count_in g one add v) m),
        sum_by-alter p measure (g k) (count_in g one add v) (measure (one v)) refl
            (λ w. additive w (one v)) m,
        +ℤ_swap rest here old,
        +ℤ_assoc here rest old,
      )

pub sum_by-keep :
    {J W : Type 0} (p q : J → Bool) (measure : W → ℤ) (rows : List (J × W))
    → sum_by (weigh p measure) (keep (λ row. q row.0) rows)
      ≡ sum_by (weigh (λ j. p j && q j) measure) rows
sum_by-keep p q measure [] = refl
sum_by-keep p q measure ((j, w) ∷ rows) =
    ground
      (arith, sum_by-keep p q measure rows, zero-+ℤ (sum_by (weigh (λ j. p j && q j) measure) rows))
