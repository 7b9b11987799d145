-- ===== src/Store/Usage/Insert.antt =====
-- `Store.Insert` on every branch.
use token_usage.Prelude.{
  ℕ, ◌+◌, ◌≡◌, refl, Bool, false, not, none, some, List, [], ◌∷◌, arith, Text, length, length-map,
  ap, ◌∙◌, keep, ◌==◌, text_eq,
}
use token_usage.Types.{UsageRecord}
use token_usage.Store.Keys.{DetailKey, detail_key_eq, daily_key_eq}
use token_usage.Table.{IsUnique}
use token_usage.Store.Rollup.{has_id}
use token_usage.Store.Rollup.Run.{
  IsSound, run_insert-IsSound, run_insert-IsUnique, run_insert_err, run_insert_idem,
  run_insert_count,
}
use token_usage.Store.Usage.{UsageTables, usage_stream, insert, input_rows, input_row, detail_id}

module _ (micros : ℕ → ℕ) (now : ℕ) (machine_id user_id : Text) where
  -- Whether it returns or fails, the daily table keeps saying what the detail rows sum up to, and no
  -- two detail rows have one (message_id, request_id).
  pub insert-IsSound :
      (fault : Bool) (recs : List UsageRecord) (t : UsageTables)
      → IsSound usage_stream t
      → IsSound usage_stream (insert micros now machine_id user_id fault recs t).1
  unfolding insert
  insert-IsSound fault [] t h = h
  insert-IsSound fault (e ∷ recs) t h = run_insert-IsSound usage_stream fault now _ t h

  pub insert-IsUnique :
      (fault : Bool) (recs : List UsageRecord) (t : UsageTables)
      → IsUnique t.daily
      → IsUnique (insert micros now machine_id user_id fault recs t).1.daily
  unfolding insert
  insert-IsUnique fault [] t h = h
  insert-IsUnique fault (e ∷ recs) t h = run_insert-IsUnique usage_stream fault now _ t h

  -- An insert that fails has changed nothing.
  pub insert_err :
      (fault : Bool) (recs : List UsageRecord) (t : UsageTables)
      → (insert micros now machine_id user_id fault recs t).0 ≡ none
      → (insert micros now machine_id user_id fault recs t).1 ≡ t
  unfolding insert
  insert_err fault [] t h = refl
  insert_err fault (e ∷ recs) t h = run_insert_err usage_stream fault now _ t h

  -- An insert that returns accounts for every record that has a message id: it is accepted or a
  -- duplicate, and the detail table grows by the accepted ones.
  insert_count :
      (fault : Bool) (recs : List UsageRecord) (t : UsageTables) {c : ℕ × ℕ}
      → (insert micros now machine_id user_id fault recs t).0 ≡ some c
      → (c.0 + c.1 ≡ length (keep (λ e. not (e.message_id == [])) recs))
        × (length (insert micros now machine_id user_id fault recs t).1.detail
            ≡ length t.detail + c.0)
  unfolding insert
  insert_count fault [] t h = ground arith
  insert_count fault (e ∷ recs) t h =
      unfold input_rows in
      rw (← length-map _ (input_row micros now machine_id user_id)) (
        run_insert_count usage_stream fault now
          (input_rows micros now machine_id user_id (e ∷ recs)) t h)

-- The ids of a batch do not depend on who sends it and when.
has_id-input_rows :
    (micros micros' : ℕ → ℕ) (now now' : ℕ) (machine_id machine_id' user_id user_id' : Text)
    (recs : List UsageRecord) (i : DetailKey)
    → has_id usage_stream i (input_rows micros now machine_id user_id recs)
      ≡ has_id usage_stream i (input_rows micros' now' machine_id' user_id' recs)
unfolding has_id input_rows detail_id
has_id-input_rows micros micros' now now' m m' u u' [] i = refl
has_id-input_rows micros micros' now now' m m' u u' (e ∷ recs) i =
    ground (arith, has_id-input_rows micros micros' now now' m m' u u' recs i)

module _ (micros : ℕ → ℕ) (now now' : ℕ) (machine_id machine_id' user_id user_id' : Text) where
  -- A batch that the server took is all duplicates when it is sent again, at any later time and by
  -- whatever machine or user, and then changes nothing.
  pub insert_idem :
      (fault : Bool) (recs : List UsageRecord) (t : UsageTables) {c : ℕ × ℕ}
      → (insert micros now machine_id user_id fault recs t).0 ≡ some c
      → insert micros now' machine_id' user_id' false recs
          (insert micros now machine_id user_id fault recs t).1
        ≡ (
          some (0, length (keep (λ e. not (e.message_id == [])) recs)),
          (insert micros now machine_id user_id fault recs t).1,
        )
  unfolding insert
  insert_idem fault [] t h = refl
  insert_idem fault (e ∷ recs) t h =
      run_insert_idem usage_stream fault now now'
        (input_rows micros now machine_id user_id (e ∷ recs))
        (input_rows micros now' machine_id' user_id' (e ∷ recs)) t
        (λ i p.
          has_id-input_rows micros micros now now' machine_id machine_id' user_id user_id'
            (e ∷ recs) i
          ∙ p)
        h
      ∙ unfold input_rows in
        ap (λ n. (some (0, n), (insert micros now machine_id user_id fault (e ∷ recs) t).1))
          (length-map _ (input_row micros now' machine_id' user_id'))
