-- ===== src/Store/Rollup/Laws.antt =====
-- The daily sums by key: grouping and upserting against the specification `rollup`.
use token_usage.Prelude.{
  ℕ, ◌≡◌, refl, Bool, true, false, Option, none, some, List, [], ◌∷◌, ◌++◌, Eq, ◌==◌, arith, keep,
  if◌then◌else◌, Bool-cases, inl, inr,
}
use token_usage.Table.{lookup, alter, lookup-alter, IsUnique, alter-IsUnique}
use token_usage.Store.Rollup.{Stream, Daily, absorb, group, add_to, upsert_all, rollup, sums_of}

module _ {R I K V : Type 0} ⦃ei : Eq I⦄ ⦃ek : Eq K⦄ (s : Stream R I K V) where
  pub rollup-append :
      (k : K) (xs ys : List R) (o : Option V)
      → rollup s k (xs ++ ys) o ≡ rollup s k ys (rollup s k xs o)
  unfolding rollup
  rollup-append k [] ys o = refl
  rollup-append k (x ∷ xs) ys o =
      rollup-append k xs ys (if s.key x == k then some (absorb s o x) else o)

  pub lookup-group :
      (k : K) (rs : List R) (m : List (K × V))
      → lookup k (group s rs m) ≡ rollup s k rs (lookup k m)
  unfolding group rollup
  lookup-group k [] m = refl
  lookup-group k (r ∷ rs) m = ground (
    arith,
    lookup-group k rs (alter (s.key r) (λ o. absorb s o r) m),
    lookup-alter k (s.key r) (λ o. absorb s o r) m,
    ek.beq_iff (s.key r) k,
  )

  pub group-IsUnique : (rs : List R) (m : List (K × V)) → IsUnique m → IsUnique (group s rs m)
  unfolding group
  group-IsUnique [] m h = h
  group-IsUnique (r ∷ rs) m h =
      group-IsUnique rs _ (alter-IsUnique (s.key r) (λ o. absorb s o r) m h)

  -- one sum behind another
  abbrev pub merge_option : Option V → Option V → Option V
  merge_option none o = o
  merge_option (some v) none = some v
  merge_option (some v) (some w) = some (s.merge v w)

  merge_option-none : (o : Option V) → merge_option o none ≡ o
  merge_option-none none = refl
  merge_option-none (some v) = refl

  rollup-some :
      (k : K) (rs : List R) (v w : V)
      → rollup s k rs (some (s.merge v w)) ≡ merge_option (some v) (rollup s k rs (some w))
  unfolding rollup
  rollup-some k [] v w = refl
  rollup-some k (r ∷ rs) v w = elim (Bool-cases (s.key r == k)) [
    | inl e ↦ rw (e, s.merge_assoc v w (s.single r)) (rollup-some k rs v (s.merge w (s.single r)))
    | inr e ↦ rw e (rollup-some k rs v w)
  ]

  -- What the rows add to a sum does not depend on the sum.
  pub rollup-merge :
      (k : K) (rs : List R) (o : Option V) → rollup s k rs o ≡ merge_option o (rollup s k rs none)
  unfolding rollup
  rollup-merge k rs none = refl
  rollup-merge k [] (some v) = refl
  rollup-merge k (r ∷ rs) (some v) = elim (Bool-cases (s.key r == k)) [
    | inl e ↦ rw e (rollup-some k rs v (s.single r))
    | inr e ↦ rw e (rollup-merge k rs (some v))
  ]

  -- Upserting groups with different keys merges each into the row of its key.
  pub sums_of-upsert_all :
      (now : ℕ) (groups : List (K × V)) (daily daily' : List (K × Daily V)) (k : K)
      → IsUnique groups
      → upsert_all s now groups daily ≡ some daily'
      → sums_of (lookup k daily') ≡ merge_option (sums_of (lookup k daily)) (lookup k groups)
  unfolding upsert_all lookup
  sums_of-upsert_all now [] daily daily' k h p =
      ground (arith, merge_option-none (sums_of (lookup k daily)))
  sums_of-upsert_all now ((j, v) ∷ groups) daily daily' k (fresh, rest) p =
      let put : Option (Daily V) → Daily V =
        λ o. record { sums = add_to s v o; updated_at = now } in
      ground (
        arith,
        sums_of-upsert_all now groups (alter j put daily) daily' k rest,
        lookup-alter k j put daily,
        ek.beq_iff j k,
      )

  -- A filter that all rows of a key pass, or that none passes, keeps or drops their sum.
  pub rollup-keep :
      (k : K) (p : R → Bool) (b : Bool) (rs : List R) (o : Option V)
      → ((r : R) → s.key r ≡ k → p r ≡ b)
      → rollup s k (keep p rs) o ≡ (if b then rollup s k rs o else o)
  unfolding rollup
  rollup-keep k p true [] o h = refl
  rollup-keep k p false [] o h = refl
  rollup-keep k p b (r ∷ rs) o h = ground (
    arith,
    h r,
    ek.beq_iff (s.key r) k,
    rollup-keep k p b rs o h,
    rollup-keep k p b rs (if s.key r == k then some (absorb s o r) else o) h,
  )
