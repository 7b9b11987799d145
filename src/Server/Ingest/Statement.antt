-- ===== src/Server/Ingest/Statement.antt =====
-- The two inserts of internal/server/store.go as handleIngest needs them: a batch is stored once.
use token_usage.Prelude.{
  ◌⊎◌, inl, inr, ℕ, ◌≡◌, sym, ap, ◌∙◌, Bool, true, false, Option, some, List, [], ◌∷◌, Text,
  text_eq, arith,
}
use token_usage.Types.{UsageRecord, EditRecord, IngestRequest}
use token_usage.Store.Rollup.{run_insert}
use token_usage.Store.Usage.{UsageTables, insert}
use token_usage.Store.Usage.Insert.{insert_idem}
use token_usage.Store.Edits.{EditTables, insert_edits}
use token_usage.Store.Edits.Insert.{insert_edits_idem}

-- A statement that stores a batch at a time for a user, and does nothing once the batch is there.
pub record Statement (T : Type 0) : Type 0 where
  pub run : ℕ → Text → T → Option (ℕ × ℕ) × T
  pub again :
      (now now' : ℕ) (user user' : Text) (t : T) {c : ℕ × ℕ}
      → (run now user t).0 ≡ some c
      → (run now' user' (run now user t).1).1 ≡ (run now user t).1

module _ {T : Type 0} (s : Statement T) where
  abbrev pub Once : T → T → Type 0
  Once t u = (now : ℕ) × (user : Text) × (c : ℕ × ℕ) × (s.run now user t ≡ (some c, u))

  abbrev pub AtMostOnce : T → T → Type 0
  AtMostOnce t u = (u ≡ t) ⊎ Once t u

  Once-again : {t u : T} (now : ℕ) (user : Text) → Once t u → (s.run now user u).1 ≡ u
  Once-again {t} {u} now user (now', user', c, e) =
      ap (λ x. (s.run now user (x.1)).1) (sym e)
      ∙ (s.again now' now user' user t (ap (λ x. x.0) e) ∙ ap (λ x. x.1) e)

  Once-before : {t u v : T} → Once t u → AtMostOnce u v → v ≡ u
  Once-before once (inl e) = e
  Once-before {t} {u} once (inr (now, user, c, e)) =
      ap (λ x. x.1) (sym e) ∙ Once-again {t = t} {u = u} now user once

  pub Once-trans : {t u v : T} → Once t u → AtMostOnce u v → Once t v
  Once-trans {t} {u} {v} once more = rw (Once-before {t = t} {u = u} {v = v} once more) once

  pub AtMostOnce-Once : {t u v : T} → AtMostOnce t u → Once u v → Once t v
  AtMostOnce-Once (inl e) once = rw (← e) once
  AtMostOnce-Once {t} {u} {v} (inr first) once = Once-trans {t = t} {u = u} {v = v} first (inr once)

  pub AtMostOnce-trans : {t u v : T} → AtMostOnce t u → AtMostOnce u v → AtMostOnce t v
  AtMostOnce-trans first (inl e) = rw e first
  AtMostOnce-trans {t} {u} {v} first (inr once) =
      inr (AtMostOnce-Once {t = t} {u = u} {v = v} first once)

module _ (micros : ℕ → ℕ) (req : IngestRequest) where
  abbrev pub usage_statement : Statement UsageTables
  usage_statement = record {
    run = λ now user t. insert micros now req.machine_id user false req.records t;
    again = λ now now' user user' t h.
        ap (λ x. x.1)
          (insert_idem micros now now' req.machine_id req.machine_id user user' false req.records t
            h);
  }

  abbrev pub edits_statement : Statement EditTables
  edits_statement = record {
    run = λ now user t. insert_edits micros now req.machine_id user false req.edits t;
    again = λ now now' user user' t h.
        ap (λ x. x.1)
          (insert_edits_idem micros now now' req.machine_id req.machine_id user user' false
            req.edits t h);
  }

  insert-false :
      (now : ℕ) (user : Text) (fault : Bool) (records : List UsageRecord) (t : UsageTables)
      {c : ℕ × ℕ}
      → (insert micros now req.machine_id user fault records t).0 ≡ some c
      → insert micros now req.machine_id user false records t
        ≡ (some c, (insert micros now req.machine_id user fault records t).1)
  unfolding insert run_insert
  insert-false now user fault [] t h = ground arith
  insert-false now user true (r ∷ records) t h = ground arith
  insert-false now user false (r ∷ records) t h = ground arith

  insert_edits-false :
      (now : ℕ) (user : Text) (fault : Bool) (edits : List EditRecord) (t : EditTables) {c : ℕ × ℕ}
      → (insert_edits micros now req.machine_id user fault edits t).0 ≡ some c
      → insert_edits micros now req.machine_id user false edits t
        ≡ (some c, (insert_edits micros now req.machine_id user fault edits t).1)
  unfolding insert_edits run_insert
  insert_edits-false now user fault [] t h = ground arith
  insert_edits-false now user true (r ∷ edits) t h = ground arith
  insert_edits-false now user false (r ∷ edits) t h = ground arith

  pub insert-Once :
      (now : ℕ) (user : Text) (fault : Bool) (t : UsageTables) {c : ℕ × ℕ}
      → (insert micros now req.machine_id user fault req.records t).0 ≡ some c
      → Once usage_statement t (insert micros now req.machine_id user fault req.records t).1
  insert-Once now user fault t {c} h = (now, user, c, insert-false now user fault req.records t h)

  pub insert_edits-Once :
      (now : ℕ) (user : Text) (fault : Bool) (t : EditTables) {c : ℕ × ℕ}
      → (insert_edits micros now req.machine_id user fault req.edits t).0 ≡ some c
      → Once edits_statement t (insert_edits micros now req.machine_id user fault req.edits t).1
  insert_edits-Once now user fault t {c} h =
      (now, user, c, insert_edits-false now user fault req.edits t h)
