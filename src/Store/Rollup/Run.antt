-- ===== src/Store/Rollup/Run.antt =====
-- An ingest statement as a transaction, on every branch.
use token_usage.Prelude.{
  ◌⊎◌, ℕ, ◌+◌, ◌-◌, ◌≡◌, refl, Bool, true, false, none, some, List, [], ◌∷◌, Eq, arith, length, inl,
  inr, Option-cases,
}
use mathlib.Core.Path.{subst}
use token_usage.Table.{alter, IsUnique, alter-IsUnique}
use token_usage.Store.Rollup.{
  Daily, accept, group, add_to, upsert_all, Stream, Tables, Outcome, has_id, insert_rows,
  run_insert, IsConsistent, HasUniqueIds,
}
use token_usage.Store.Rollup.Insert.{
  insert_rows-IsConsistent, insert_rows-HasUniqueIds, insert_rows_idem, has_id-insert_rows,
  insert_rows_count,
}

module _ {R I K V : Type 0} ⦃ei : Eq I⦄ ⦃ek : Eq K⦄ (s : Stream R I K V) where
  -- What holds of the tables between two statements.
  pub record IsSound (t : Tables R K V) : Type 0 where
    pub consistent : IsConsistent s t
    pub unique : HasUniqueIds s t.detail

  -- A successful run is a run of the statement.
  run_insert-some :
      (fault : Bool) (now : ℕ) (input : List R) (t : Tables R K V) {c : ℕ × ℕ}
      → (run_insert s fault now input t).0 ≡ some c
      → (o : Outcome R K V) × (fault ≡ false)
        × (insert_rows s now input t ≡ some o)
        × ((run_insert s fault now input t).1 ≡ o.tables)
        × (c.0 ≡ o.accepted)
        × (c.1 ≡ o.considered - o.accepted)
  unfolding run_insert
  run_insert-some true now input t h = ground arith
  run_insert-some false now input t h = elim (Option-cases (insert_rows s now input t)) [
    | inl e ↦ ground arith
    | inr (o, e) ↦ (o, refl, e, ground arith, ground arith, ground arith)
  ]

  upsert_all-IsUnique :
      (now : ℕ) (groups : List (K × V)) (daily : List (K × Daily V))
      → {after : List (K × Daily V)} → IsUnique daily
      → upsert_all s now groups daily ≡ some after
      → IsUnique after
  unfolding upsert_all
  upsert_all-IsUnique now [] daily {after} h e =
      let same : daily ≡ after = ground (arith, e) in subst (λ m. IsUnique m) same h
  upsert_all-IsUnique now ((k, v) ∷ groups) daily h e =
      upsert_all-IsUnique now groups
        (alter k (λ o. record { sums = add_to s v o; updated_at = now }) daily)
        (alter-IsUnique k (λ o. record { sums = add_to s v o; updated_at = now }) daily h)
        (ground (arith, e))

  insert_rows-IsUnique :
      (now : ℕ) (input : List R) (t : Tables R K V) (o : Outcome R K V)
      → IsUnique t.daily
      → insert_rows s now input t ≡ some o
      → IsUnique o.tables.daily
  unfolding insert_rows
  insert_rows-IsUnique now input t o h e =
      let groups = group s (accept s t.detail input) [] in
      elim (Option-cases (upsert_all s now groups t.daily)) [
        | inl bad ↦ ground (arith, bad, e)
        | inr (daily, good) ↦
            let same : o.tables.daily ≡ daily = ground (arith, good, e) in
            rw same (upsert_all-IsUnique now groups t.daily h good)
      ]

  pub run_insert-IsSound :
      (fault : Bool) (now : ℕ) (input : List R) (t : Tables R K V)
      → IsSound t
      → IsSound (run_insert s fault now input t).1
  unfolding run_insert
  run_insert-IsSound true now input t h = h
  run_insert-IsSound false now input t h = elim (Option-cases (insert_rows s now input t)) [
    | inl e ↦ rw e h
    | inr (o, e) ↦ rw e (record {
      consistent = insert_rows-IsConsistent s now input t o h.consistent e;
      unique = insert_rows-HasUniqueIds s now input t o h.unique e;
    })
  ]

  pub run_insert-IsUnique :
      (fault : Bool) (now : ℕ) (input : List R) (t : Tables R K V)
      → IsUnique t.daily
      → IsUnique (run_insert s fault now input t).1.daily
  unfolding run_insert
  run_insert-IsUnique true now input t h = h
  run_insert-IsUnique false now input t h = elim (Option-cases (insert_rows s now input t)) [
    | inl e ↦ rw e h
    | inr (o, e) ↦ rw e (insert_rows-IsUnique now input t o h e)
  ]

  pub run_insert_err :
      (fault : Bool) (now : ℕ) (input : List R) (t : Tables R K V)
      → (run_insert s fault now input t).0 ≡ none
      → (run_insert s fault now input t).1 ≡ t
  unfolding run_insert
  run_insert_err fault now input t h = ground arith

  -- After a run that returned, rows with the same ids are all duplicates and change nothing.
  pub run_insert_idem :
      (fault : Bool) (now now' : ℕ) (input again : List R) (t : Tables R K V) {c : ℕ × ℕ}
      → ((i : I) → has_id s i again ≡ true → has_id s i input ≡ true)
      → (run_insert s fault now input t).0 ≡ some c
      → run_insert s false now' again (run_insert s fault now input t).1
        ≡ (some (0, length again), (run_insert s fault now input t).1)
  run_insert_idem fault now now' input again t same h =
      let (o, _, e, tables, _, _) = run_insert-some fault now input t h in
      rw tables (
        unfold run_insert in rw (insert_rows_idem s now now' input again t o same e) (ground arith))

  pub run_insert_count :
      (fault : Bool) (now : ℕ) (input : List R) (t : Tables R K V) {c : ℕ × ℕ}
      → (run_insert s fault now input t).0 ≡ some c
      → (c.0 + c.1 ≡ length input)
        × (length (run_insert s fault now input t).1.detail ≡ length t.detail + c.0)
  run_insert_count fault now input t h =
      let (o, _, e, tables, acc, dup) = run_insert-some fault now input t h in
      let n = insert_rows_count s now input t o e in (omega arith, rw tables (omega arith))

  has_id-run_insert :
      (fault : Bool) (now : ℕ) (input : List R) (t : Tables R K V) (i : I) {c : ℕ × ℕ}
      → (run_insert s fault now input t).0 ≡ some c
      → (has_id s i input ≡ true) ⊎ (has_id s i t.detail ≡ true)
      → has_id s i (run_insert s fault now input t).1.detail ≡ true
  has_id-run_insert fault now input t i h p =
      let (o, _, e, tables, _, _) = run_insert-some fault now input t h in
      rw tables (has_id-insert_rows s now input t o i e p)
