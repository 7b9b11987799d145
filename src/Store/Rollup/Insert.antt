-- ===== src/Store/Rollup/Insert.antt =====
-- What one ingest statement does to the tables.
use token_usage.Prelude.{
  ◌⊎◌, ℕ, ◌+◌, ◌≤◌, ◌≡◌, refl, sym, ap, ◌∙◌, true, false, none, some, List, [], ◌∷◌, ◌++◌,
  append_assoc, append-nil, Eq, arith, length, length-append, if◌then◌else◌, Bool-cases, inl, inr,
}
use token_usage.Table.{lookup}
use token_usage.Store.Rollup.{
  Stream, Tables, Outcome, has_id, accept, group, upsert_all, insert_rows, rollup, IsConsistent,
  HasUniqueIds,
}
use token_usage.Store.Rollup.Laws.{
  rollup-append, lookup-group, group-IsUnique, merge_option, rollup-merge, sums_of-upsert_all,
}

module _ {R I K V : Type 0} ⦃ei : Eq I⦄ ⦃ek : Eq K⦄ (s : Stream R I K V) where
  has_id-append :
      (i : I) (xs ys : List R)
      → has_id s i (xs ++ ys) ≡ (if has_id s i xs then true else has_id s i ys)
  unfolding has_id
  has_id-append i [] ys = refl
  has_id-append i (x ∷ xs) ys = ground (arith, has_id-append i xs ys)

  -- an id of the input that the table lacks is among the accepted rows
  has_id-accept :
      (i : I) (rs seen : List R)
      → has_id s i rs ≡ true
      → has_id s i seen ≡ false
      → has_id s i (accept s seen rs) ≡ true
  unfolding accept has_id
  has_id-accept i [] seen p q = cc
  has_id-accept i (r ∷ rs) seen p q = ground (
    arith,
    ei.beq_iff (s.id r) i,
    has_id-accept i rs seen,
    has_id-accept i rs (seen ++ r ∷ []),
    has_id-append i seen (r ∷ []),
  )

  accept-nil :
      (rs seen : List R)
      → ((i : I) → has_id s i rs ≡ true → has_id s i seen ≡ true)
      → accept s seen rs ≡ []
  unfolding accept has_id
  accept-nil [] seen h = refl
  accept-nil (r ∷ rs) seen h = ground (
    arith,
    h (s.id r),
    ei.beq_iff (s.id r) (s.id r),
    accept-nil rs seen (λ i p. h i (ground (arith, p))),
  )

  length-accept : (rs seen : List R) → length (accept s seen rs) ≤ length rs
  unfolding accept
  length-accept [] seen = omega arith
  length-accept (r ∷ rs) seen =
      ground (arith, length-accept rs seen, length-accept rs (seen ++ r ∷ []))

  -- What a statement that returns has done: the parts of its outcome.
  pub record Inserted (now : ℕ) (input : List R) (t : Tables R K V) (o : Outcome R K V)
      : Type 0 where
    pub detail : o.tables.detail ≡ t.detail ++ accept s t.detail input
    pub daily :
        upsert_all s now (group s (accept s t.detail input) []) t.daily ≡ some o.tables.daily
    pub accepted : o.accepted ≡ length (accept s t.detail input)
    pub considered : o.considered ≡ length input

  pub insert_rows-inv :
      (now : ℕ) (input : List R) (t : Tables R K V) (o : Outcome R K V)
      → insert_rows s now input t ≡ some o
      → Inserted now input t o
  unfolding insert_rows
  insert_rows-inv now input t o h =
      ground (arith, upsert_all s now (group s (accept s t.detail input) []) t.daily)

  -- A statement that returns keeps the daily table consistent with the detail table.
  pub insert_rows-IsConsistent :
      (now : ℕ) (input : List R) (t : Tables R K V) (o : Outcome R K V)
      → IsConsistent s t
      → insert_rows s now input t ≡ some o
      → IsConsistent s o.tables
  unfolding lookup
  insert_rows-IsConsistent now input t o c h =
      let d = insert_rows-inv now input t o h in
      let ins = accept s t.detail input in
      record {
        at_key = λ k.
            sums_of-upsert_all s now (group s ins []) t.daily o.tables.daily k
              (group-IsUnique s ins [] tt) d.daily
            ∙ ap (λ x. merge_option s x (lookup k (group s ins []))) (c.at_key k)
            ∙ ap (merge_option s (rollup s k t.detail none)) (lookup-group s k ins [])
            ∙ sym (rollup-merge s k ins (rollup s k t.detail none))
            ∙ sym (rollup-append s k t.detail ins none)
            ∙ ap (λ (l : List R). rollup s k l none) (sym d.detail);
      }

  -- Every id of the input is in the detail table afterwards, and every id that was there still is.
  pub has_id-insert_rows :
      (now : ℕ) (input : List R) (t : Tables R K V) (o : Outcome R K V) (i : I)
      → insert_rows s now input t ≡ some o
      → (has_id s i input ≡ true) ⊎ (has_id s i t.detail ≡ true)
      → has_id s i o.tables.detail ≡ true
  has_id-insert_rows now input t o i h p =
      let d = insert_rows-inv now input t o h in
      rw d.detail (
        ground (
          arith,
          has_id-append i t.detail (accept s t.detail input),
          has_id-accept i input t.detail,
        ))

  -- Rows whose ids were all in a statement before change nothing: all are duplicates.
  pub insert_rows_idem :
      (now now' : ℕ) (input again : List R) (t : Tables R K V) (o : Outcome R K V)
      → ((i : I) → has_id s i again ≡ true → has_id s i input ≡ true)
      → insert_rows s now input t ≡ some o
      → insert_rows s now' again o.tables
        ≡ some (record { tables = o.tables; accepted = 0; considered = length again })
  unfolding insert_rows
  insert_rows_idem now now' input again t o same h =
      let none_left : accept s o.tables.detail again ≡ [] =
        accept-nil again o.tables.detail
          (λ i p. has_id-insert_rows now input t o i h (inl (same i p))) in
      rw (none_left, append-nil)

  HasUniqueIds-append :
      (r : R) (rs : List R)
      → HasUniqueIds s rs
      → has_id s (s.id r) rs ≡ false
      → HasUniqueIds s (rs ++ r ∷ [])
  unfolding has_id
  HasUniqueIds-append r [] h p = (refl, tt)
  HasUniqueIds-append r (x ∷ xs) (hx, hxs) p = ground (
    arith,
    HasUniqueIds-append r xs hxs,
    has_id-append (s.id x) xs (r ∷ []),
    ei.beq_iff (s.id r) (s.id x),
    ei.beq_iff (s.id x) (s.id r),
  )

  accept-HasUniqueIds :
      (rs seen : List R) → HasUniqueIds s seen → HasUniqueIds s (seen ++ accept s seen rs)
  unfolding accept
  accept-HasUniqueIds [] seen h = rw append-nil h
  accept-HasUniqueIds (r ∷ rs) seen h = elim (Bool-cases (has_id s (s.id r) seen)) [
    | inl old ↦ rw (old, accept) (accept-HasUniqueIds rs seen h)
    | inr new ↦
        rw (new, accept)
          (rw append_assoc at
            (accept-HasUniqueIds rs (seen ++ r ∷ []) (HasUniqueIds-append r seen h new)))
  ]

  -- The primary key stays one: no id is inserted twice, not even from within one batch.
  pub insert_rows-HasUniqueIds :
      (now : ℕ) (input : List R) (t : Tables R K V) (o : Outcome R K V)
      → HasUniqueIds s t.detail
      → insert_rows s now input t ≡ some o
      → HasUniqueIds s o.tables.detail
  insert_rows-HasUniqueIds now input t o u h =
      rw (insert_rows-inv now input t o h).detail (accept-HasUniqueIds input t.detail u)

  -- A statement accepts at most the rows that it is given, and the detail table grows by as many.
  pub insert_rows_count :
      (now : ℕ) (input : List R) (t : Tables R K V) (o : Outcome R K V)
      → insert_rows s now input t ≡ some o
      → (o.considered ≡ length input)
        × (o.accepted ≤ length input)
        × (length o.tables.detail ≡ length t.detail + o.accepted)
  insert_rows_count now input t o h =
      let d = insert_rows-inv now input t o h in
      omega (
        arith,
        ap length d.detail,
        length-append t.detail (accept s t.detail input),
        length-accept input t.detail,
        d.accepted,
        d.considered,
      )
