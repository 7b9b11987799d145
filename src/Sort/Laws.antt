-- ===== src/Sort/Laws.antt =====
-- `order_by` sorts and keeps its rows, for an order that is total and transitive; the order of texts is.
use token_usage.Prelude.{
  inl, inr, IsIn, ◌≡◌, refl, Bool, true, false, List, [], ◌∷◌, Text, arith, All, Bool-cases,
}
use token_usage.Sort.{insert_sorted, order_by, text_leb}

module _ {A : Type 0} (before : A → A → Bool) where
  abbrev pub Sorted : List A → Type 0
  Sorted [] = Unit
  Sorted (r ∷ rows) = All (λ e. before r e ≡ true) rows × Sorted rows

  All-insert_sorted :
      (p : A → Type 0) (r : A) (rows : List A)
      → p r
      → All p rows
      → All p (insert_sorted before r rows)
  unfolding insert_sorted
  All-insert_sorted p r [] h k = (h, tt)
  All-insert_sorted p r (e ∷ rows) h (here, rest) = elim (Bool-cases (before e r)) [
    | inl first ↦ rw (insert_sorted, first) (here, All-insert_sorted p r rows h rest)
    | inr after ↦ rw (insert_sorted, after) (h, (here, rest))
  ]

  insert_sorted-All :
      (p : A → Type 0) (r : A) (rows : List A)
      → All p (insert_sorted before r rows)
      → p r × All p rows
  unfolding insert_sorted
  insert_sorted-All p r [] (h, k) = (h, tt)
  insert_sorted-All p r (e ∷ rows) h = elim (Bool-cases (before e r)) [
    | inl first ↦
        let h' : p e × All p (insert_sorted before r rows) = rw (insert_sorted, first) at h in
        let (x, y) = insert_sorted-All p r rows h'.1 in (x, (h'.0, y))
    | inr after ↦ let h' : p r × (p e × All p rows) = rw (insert_sorted, after) at h in h'
  ]

  -- What holds of the rows holds of the sorted rows, and the other way round.
  pub order_by-All : (p : A → Type 0) (rows : List A) → All p (order_by before rows) → All p rows
  unfolding order_by
  order_by-All p [] h = tt
  order_by-All p (r ∷ rows) h =
      let (x, y) = insert_sorted-All p r (order_by before rows) h in (x, order_by-All p rows y)

  pub All-order_by : (p : A → Type 0) (rows : List A) → All p rows → All p (order_by before rows)
  unfolding order_by
  All-order_by p [] h = tt
  All-order_by p (r ∷ rows) (here, rest) =
      All-insert_sorted p r (order_by before rows) here (All-order_by p rows rest)

  module _ (total : (x y : A) → before x y ≡ false → before y x ≡ true)
      (trans : (x y z : A) → before x y ≡ true → before y z ≡ true → before x z ≡ true) where
    All-trans :
        (r e : A) (rows : List A)
        → before r e ≡ true
        → All (λ x. before e x ≡ true) rows
        → All (λ x. before r x ≡ true) rows
    All-trans r e [] h k = tt
    All-trans r e (x ∷ rows) h (here, rest) = (trans r e x h here, All-trans r e rows h rest)

    insert_sorted-Sorted :
        (r : A) (rows : List A) → Sorted rows → Sorted (insert_sorted before r rows)
    unfolding insert_sorted
    insert_sorted-Sorted r [] h = (tt, tt)
    insert_sorted-Sorted r (e ∷ rows) (here, rest) = elim (Bool-cases (before e r)) [
      | inl first ↦
          rw (insert_sorted, first)
            (
              All-insert_sorted (λ x. before e x ≡ true) r rows first here,
              insert_sorted-Sorted r rows rest,
            )
      | inr after ↦
          let least = total e r after in
          rw (insert_sorted, after) ((least, All-trans r e rows least here), (here, rest))
    ]

    pub order_by-Sorted : (rows : List A) → Sorted (order_by before rows)
    unfolding order_by
    order_by-Sorted [] = tt
    order_by-Sorted (r ∷ rows) =
        insert_sorted-Sorted r (order_by before rows) (order_by-Sorted rows)

pub All-IsIn :
    {A : Type 0} (p : A → Type 0) (rows : List A) → ((e : A) → IsIn e rows → p e) → All p rows
All-IsIn p [] h = tt
All-IsIn p (r ∷ rows) h = (h r (inl refl), All-IsIn p rows (λ e i. h e (inr i)))

pub IsIn-All :
    {A : Type 0} (p : A → Type 0) (rows : List A) (x : A) → All p rows → IsIn x rows → p x
IsIn-All p [] x h i = absurd i
IsIn-All p (r ∷ rows) x (here, rest) (inl e) = rw e here
IsIn-All p (r ∷ rows) x (here, rest) (inr i) = IsIn-All p rows x rest i

-- A sorted row is one of the rows.
pub order_by-IsIn :
    {A : Type 0} (before : A → A → Bool) (rows : List A) (x : A)
    → IsIn x (order_by before rows)
    → IsIn x rows
order_by-IsIn before rows x =
    IsIn-All (λ y. IsIn y rows) (order_by before rows) x
      (All-order_by before (λ y. IsIn y rows) rows (All-IsIn (λ y. IsIn y rows) rows (λ y i. i)))

pub text_leb_total : (s t : Text) → text_leb s t ≡ false → text_leb t s ≡ true
unfolding text_leb
text_leb_total [] t h = ground arith
text_leb_total (a ∷ s) [] h = refl
text_leb_total (a ∷ s) (b ∷ t) h = ground (arith, text_leb_total s t)

pub text_leb_refl : (s : Text) → text_leb s s ≡ true
unfolding text_leb
text_leb_refl [] = refl
text_leb_refl (a ∷ s) = ground (arith, text_leb_refl s)

pub text_leb_trans :
    (s t u : Text) → text_leb s t ≡ true → text_leb t u ≡ true → text_leb s u ≡ true
unfolding text_leb
text_leb_trans [] t u h k = refl
text_leb_trans (a ∷ s) [] u h k = ground arith
text_leb_trans (a ∷ s) (b ∷ t) [] h k = ground arith
text_leb_trans (a ∷ s) (b ∷ t) (c ∷ u) h k = ground (arith, text_leb_trans s t u)
