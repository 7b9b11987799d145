-- ===== src/Store/Edits/Insert.antt =====
-- `Store.InsertEdits` on every branch.
use token_usage.Prelude.{
  ℕ, ◌+◌, ◌≡◌, refl, Bool, false, not, none, some, List, [], ◌∷◌, arith, Text, length, length-map,
  ap, ◌∙◌, keep, ◌==◌, text_eq,
}
use token_usage.Types.{EditRecord}
use token_usage.Store.Keys.{daily_key_eq}
use token_usage.Store.Rollup.{has_id}
use token_usage.Store.Rollup.Run.{
  IsSound, run_insert-IsSound, run_insert_err, run_insert_idem, run_insert_count,
}
use token_usage.Store.Edits.{EditTables, edit_stream, insert_edits, edit_rows, edit_row, edit_id}

module _ (micros : ℕ → ℕ) (now : ℕ) (machine_id user_id : Text) where
  -- Whether it returns or fails, the daily table keeps saying what the detail rows sum up to, and no
  -- two detail rows have one event id.
  pub insert_edits-IsSound :
      (fault : Bool) (edits : List EditRecord) (t : EditTables)
      → IsSound edit_stream t
      → IsSound edit_stream (insert_edits micros now machine_id user_id fault edits t).1
  unfolding insert_edits
  insert_edits-IsSound fault [] t h = h
  insert_edits-IsSound fault (e ∷ edits) t h = run_insert-IsSound edit_stream fault now _ t h

  -- An insert that fails has changed nothing.
  pub insert_edits_err :
      (fault : Bool) (edits : List EditRecord) (t : EditTables)
      → (insert_edits micros now machine_id user_id fault edits t).0 ≡ none
      → (insert_edits micros now machine_id user_id fault edits t).1 ≡ t
  unfolding insert_edits
  insert_edits_err fault [] t h = refl
  insert_edits_err fault (e ∷ edits) t h = run_insert_err edit_stream fault now _ t h

  -- An insert that returns accounts for every edit that has an event id: it is accepted or a
  -- duplicate, and the detail table grows by the accepted ones.
  insert_edits_count :
      (fault : Bool) (edits : List EditRecord) (t : EditTables) {c : ℕ × ℕ}
      → (insert_edits micros now machine_id user_id fault edits t).0 ≡ some c
      → (c.0 + c.1 ≡ length (keep (λ e. not (e.event_id == [])) edits))
        × (length (insert_edits micros now machine_id user_id fault edits t).1.detail
            ≡ length t.detail + c.0)
  unfolding insert_edits
  insert_edits_count fault [] t h = ground arith
  insert_edits_count fault (e ∷ edits) t h =
      unfold edit_rows in
      rw (← length-map _ (edit_row micros now machine_id user_id)) (
        run_insert_count edit_stream fault now (edit_rows micros now machine_id user_id (e ∷ edits))
          t h)

-- The ids of a batch do not depend on who sends it and when.
has_id-edit_rows :
    (micros micros' : ℕ → ℕ) (now now' : ℕ) (machine_id machine_id' user_id user_id' : Text)
    (edits : List EditRecord) (i : Text)
    → has_id edit_stream i (edit_rows micros now machine_id user_id edits)
      ≡ has_id edit_stream i (edit_rows micros' now' machine_id' user_id' edits)
unfolding has_id edit_rows edit_id
has_id-edit_rows micros micros' now now' m m' u u' [] i = refl
has_id-edit_rows micros micros' now now' m m' u u' (e ∷ edits) i =
    ground (arith, has_id-edit_rows micros micros' now now' m m' u u' edits i)

module _ (micros : ℕ → ℕ) (now now' : ℕ) (machine_id machine_id' user_id user_id' : Text) where
  -- A batch that the server took is all duplicates when it is sent again, at any later time and by
  -- whatever machine or user, and then changes nothing.
  pub insert_edits_idem :
      (fault : Bool) (edits : List EditRecord) (t : EditTables) {c : ℕ × ℕ}
      → (insert_edits micros now machine_id user_id fault edits t).0 ≡ some c
      → insert_edits micros now' machine_id' user_id' false edits
          (insert_edits micros now machine_id user_id fault edits t).1
        ≡ (
          some (0, length (keep (λ e. not (e.event_id == [])) edits)),
          (insert_edits micros now machine_id user_id fault edits t).1,
        )
  unfolding insert_edits
  insert_edits_idem fault [] t h = refl
  insert_edits_idem fault (e ∷ edits) t h =
      run_insert_idem edit_stream fault now now'
        (edit_rows micros now machine_id user_id (e ∷ edits))
        (edit_rows micros now' machine_id' user_id' (e ∷ edits)) t
        (λ i p.
          has_id-edit_rows micros micros now now' machine_id machine_id' user_id user_id'
            (e ∷ edits) i
          ∙ p)
        h
      ∙ unfold edit_rows in
        ap (λ n. (some (0, n), (insert_edits micros now machine_id user_id fault (e ∷ edits) t).1))
          (length-map _ (edit_row micros now' machine_id' user_id'))
