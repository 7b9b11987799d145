-- ===== src/Parsers/Opencode/Watermark.antt =====
-- internal/watcher/parsers/opencode.go: the rows of a table behind a watermark and those after it.
use Prim.Native.Nat.{max}
use token_usage.Sort.Laws.{order_by-All}
use mathlib.Core.Path.{subst}
use token_usage.Prelude.{
  sym, inl, inr, IsIn, ◌⊎◌, ℕ, ◌≤◌, ◌≡◌, refl, Option, none, some, List, [], ◌∷◌, ◌++◌, keep, All,
  ltb, leb, arith, Bool-cases, Option-cases,
}
use token_usage.Parsers.Opencode.{Row, rows_after, collect, max_seen, is_earlier}

module _ {A : Type 0} where
  IsIn-append : (x : A) (xs ys : List A) → IsIn x xs ⊎ IsIn x ys → IsIn x (xs ++ ys)
  IsIn-append x [] ys (inl i) = absurd i
  IsIn-append x [] ys (inr i) = i
  IsIn-append x (y ∷ xs) ys (inl (inl e)) = inl e
  IsIn-append x (y ∷ xs) ys (inl (inr i)) = inr (IsIn-append x xs ys (inl i))
  IsIn-append x (y ∷ xs) ys (inr i) = inr (IsIn-append x xs ys (inr i))

  -- The record of a row, if it has one, is among those sent.
  abbrev pub IsSent : List A → Option A → Type 0
  IsSent sent none = Unit
  IsSent sent (some a) = IsIn a sent

  abbrev pub AllSent : (Row → Option A) → List A → List Row → Type 0
  AllSent convert sent = All (λ r. IsSent sent (convert r))

  IsSent-append :
      (o : Option A) (sent more : List A) → IsSent sent o ⊎ IsSent more o → IsSent (sent ++ more) o
  IsSent-append none sent more h = tt
  IsSent-append (some a) sent more h = IsIn-append a sent more h

module _ {A : Type 0} (convert : Row → Option A) where
  AllSent-cons :
      (a : A) (sent : List A) (rows : List Row)
      → AllSent convert sent rows
      → AllSent convert (a ∷ sent) rows
  AllSent-cons a sent [] h = tt
  AllSent-cons a sent (r ∷ rows) (here, rest) =
      (IsSent-append (convert r) (a ∷ []) sent (inr here), AllSent-cons a sent rows rest)

  collect-AllSent : (rows : List Row) → AllSent convert (collect convert rows) rows
  unfolding collect
  collect-AllSent [] = tt
  collect-AllSent (r ∷ rows) = elim (Option-cases (convert r)) [
    | inl e ↦
        let same : collect convert (r ∷ rows) ≡ collect convert rows = ground (arith, e) in
        subst (λ xs. AllSent convert xs (r ∷ rows)) (sym same) (rw e tt, collect-AllSent rows)
    | inr (a, e) ↦
        let more : collect convert (r ∷ rows) ≡ a ∷ collect convert rows = ground (arith, e) in
        subst (λ xs. AllSent convert xs (r ∷ rows)) (sym more)
          (rw e (inl refl), AllSent-cons a (collect convert rows) rows (collect-AllSent rows))
  ]

  -- Rows of which the old ones were sent are sent with those that are new.
  AllSent-keep :
      (cursor : ℕ) (sent more : List A) (rows : List Row)
      → AllSent convert sent (keep (λ r. leb r.time_updated cursor) rows)
      → AllSent convert more (keep (λ r. ltb cursor r.time_updated) rows)
      → AllSent convert (sent ++ more) rows
  AllSent-keep cursor sent more [] h k = tt
  AllSent-keep cursor sent more (r ∷ rows) h k = elim (Bool-cases (ltb cursor r.time_updated)) [
    | inl new ↦
        let e : keep (λ (x : Row). leb x.time_updated cursor) (r ∷ rows)
            ≡ keep (λ (x : Row). leb x.time_updated cursor) rows =
          ground (arith, new) in
        let e' : keep (λ (x : Row). ltb cursor x.time_updated) (r ∷ rows)
            ≡ r ∷ keep (λ (x : Row). ltb cursor x.time_updated) rows =
          ground (arith, new) in
        let (here, rest) : AllSent convert more
            (r ∷ keep (λ (x : Row). ltb cursor x.time_updated) rows) =
          rw e' at k in
        (
          IsSent-append (convert r) sent more (inr here),
          AllSent-keep cursor sent more rows (rw e at h) rest,
        )
    | inr old ↦
        let e : keep (λ (x : Row). leb x.time_updated cursor) (r ∷ rows)
            ≡ r ∷ keep (λ (x : Row). leb x.time_updated cursor) rows =
          ground (arith, old) in
        let e' : keep (λ (x : Row). ltb cursor x.time_updated) (r ∷ rows)
            ≡ keep (λ (x : Row). ltb cursor x.time_updated) rows =
          ground (arith, old) in
        let (here, rest) : AllSent convert sent
            (r ∷ keep (λ (x : Row). leb x.time_updated cursor) rows) =
          rw e at h in
        (
          IsSent-append (convert r) sent more (inl here),
          AllSent-keep cursor sent more rows rest (rw e' at k),
        )
  ]

  pub rows_after-AllSent :
      (cursor : ℕ) (sent : List A) (rows : List Row)
      → AllSent convert sent (keep (λ r. leb r.time_updated cursor) rows)
      → AllSent convert (sent ++ collect convert (rows_after cursor rows)) rows
  unfolding rows_after
  rows_after-AllSent cursor sent rows h = AllSent-keep cursor sent _ rows h (
      order_by-All is_earlier _ (keep (λ r. ltb cursor r.time_updated) rows)
        (collect-AllSent (rows_after cursor rows)))

max_seen_le : (seen : ℕ) (rows : List Row) → seen ≤ max_seen seen rows
max_seen_le seen [] = omega arith
max_seen_le seen (r ∷ rows) = omega (arith, max_seen_le (max seen r.time_updated) rows)

AllSeen : (seen : ℕ) (rows : List Row) → All (λ r. r.time_updated ≤ max_seen seen rows) rows
AllSeen seen [] = tt
AllSeen seen (r ∷ rows) = (
  omega (arith, max_seen_le (max seen r.time_updated) rows),
  AllSeen (max seen r.time_updated) rows,
)

-- Rows behind a bound, if the new ones are.
AllUpTo-keep :
    (cursor bound : ℕ) (rows : List Row)
    → cursor ≤ bound
    → All (λ r. r.time_updated ≤ bound) (keep (λ r. ltb cursor r.time_updated) rows)
    → All (λ r. r.time_updated ≤ bound) rows
AllUpTo-keep cursor bound [] h k = tt
AllUpTo-keep cursor bound (r ∷ rows) h k = elim (Bool-cases (ltb cursor r.time_updated)) [
  | inl new ↦
      let e : keep (λ (x : Row). ltb cursor x.time_updated) (r ∷ rows)
          ≡ r ∷ keep (λ (x : Row). ltb cursor x.time_updated) rows =
        ground (arith, new) in
      let (here, rest) : All (λ (x : Row). x.time_updated ≤ bound)
          (r ∷ keep (λ (x : Row). ltb cursor x.time_updated) rows) =
        rw e at k in
      (here, AllUpTo-keep cursor bound rows h rest)
  | inr old ↦
      let e : keep (λ (x : Row). ltb cursor x.time_updated) (r ∷ rows)
          ≡ keep (λ (x : Row). ltb cursor x.time_updated) rows =
        ground (arith, old) in
      (ground (arith, old, h), AllUpTo-keep cursor bound rows h (rw e at k))
]

All-le :
    (m n : ℕ) (rows : List Row)
    → m ≤ n
    → All (λ r. r.time_updated ≤ m) rows
    → All (λ r. r.time_updated ≤ n) rows
All-le m n [] h k = tt
All-le m n (r ∷ rows) h (here, rest) = (omega arith, All-le m n rows h rest)

pub rows_after-AllUpTo :
    (cursor bound : ℕ) (rows : List Row)
    → max_seen cursor (rows_after cursor rows) ≤ bound
    → All (λ r. r.time_updated ≤ bound) rows
unfolding rows_after
rows_after-AllUpTo cursor bound rows h =
    let top = max_seen cursor (rows_after cursor rows) in
    AllUpTo-keep cursor bound rows (omega (arith, max_seen_le cursor (rows_after cursor rows))) (
      All-le top bound _ h (
        order_by-All is_earlier _ (keep (λ r. ltb cursor r.time_updated) rows)
          (AllSeen cursor (rows_after cursor rows))))
