-- ===== src/Server/Ingest/Once.antt =====
-- A batch that is sent until it is answered is stored once, whatever fails between.
use token_usage.Prelude.{
  ◌⊎◌, inl, inr, ℕ, ◌≡◌, ◌≢◌, refl, Bool, true, false, ◌||◌, List, [], ◌∷◌, Text, text_eq, take,
  arith, All, ◌==◌, codes, nat_beq, Option-cases, Bool-cases,
}
use token_usage.Types.{IngestRequest}
use token_usage.Store.Usage.{insert}
use token_usage.Store.Usage.Insert.{insert_err}
use token_usage.Store.Edits.{insert_edits}
use token_usage.Store.Edits.Insert.{insert_edits_err}
use token_usage.Server.Auth.{Resolved, owner, invalid_key, failed, resolve}
use token_usage.Server.Ingest.{
  Database, Request, Circumstances, status, extract_bearer, max_body, store_batch, ingest_body,
  ingest_as, handle_ingest,
}
use token_usage.Server.Ingest.Statement.{
  Once-trans, AtMostOnce-Once, AtMostOnce-trans, usage_statement, edits_statement, insert-Once,
  insert_edits-Once, Once, AtMostOnce,
}

module _ (micros : ℕ → ℕ) (req : IngestRequest) where
  -- What one attempt, or several, made of the database.
  pub record Stored (db db' : Database) (answered : Bool) : Type 0 where
    pub usage : AtMostOnce (usage_statement micros req) db.usage db'.usage
    pub edits : AtMostOnce (edits_statement micros req) db.edits db'.edits
    pub taken :
        answered ≡ true
        → Once (usage_statement micros req) db.usage db'.usage
          × Once (edits_statement micros req) db.edits db'.edits

  store_batch-Stored :
      (e : Circumstances) (user : Text) (db : Database)
      → Stored db
          (store_batch micros e user req db).1
          (nat_beq (status (store_batch micros e user req db).0) 200)
  unfolding store_batch
  store_batch-Stored e user db =
      let t = insert micros e.now req.machine_id user e.insert_fails req.records db.usage in
      let u =
        insert_edits micros e.now req.machine_id user e.insert_edits_fails req.edits db.edits in
      elim (Option-cases t.0) [
        | inl bad ↦
            let same =
              insert_err micros e.now req.machine_id user e.insert_fails req.records db.usage bad in
            rw (store_batch, bad)
              (record { usage = inl same; edits = inl refl; taken = λ h. ground (arith, h) })
        | inr (c, done) ↦
            let first = insert-Once micros req e.now user e.insert_fails db.usage done in
            elim (Option-cases u.0) [
              | inl bad ↦
                  let same =
                    insert_edits_err micros e.now req.machine_id user e.insert_edits_fails req.edits
                      db.edits bad in
                  rw (store_batch, done, bad)
                    (record { usage = inr first; edits = inl same; taken = λ h. ground (arith, h) })
              | inr (d, done') ↦
                  let second =
                    insert_edits-Once micros req e.now user e.insert_edits_fails db.edits done' in
                  rw (store_batch, done, done')
                    (record { usage = inr first; edits = inr second; taken = λ h. (first, second) })
            ]
      ]

  -- Nothing was stored, and the answer is not 200.
  Stored-refl :
      (db db' : Database) (code : ℕ)
      → db'.usage ≡ db.usage
      → db'.edits ≡ db.edits
      → code ≢ 200
      → Stored db db' (nat_beq code 200)
  Stored-refl db db' code u v h = record {
    usage = inl u;
    edits = inl v;
    taken = λ p. ground (arith, p);
  }

  Stored-trans :
      {db db' db'' : Database} {a b : Bool}
      → Stored db db' a
      → Stored db' db'' b
      → Stored db db'' (a || b)
  Stored-trans {db} {db'} {db''} {a} {b} s t = record {
    usage =
        AtMostOnce-trans (usage_statement micros req) {t = db.usage} {u = db'.usage}
          {v = db''.usage} s.usage t.usage;
    edits =
        AtMostOnce-trans (edits_statement micros req) {t = db.edits} {u = db'.edits}
          {v = db''.edits} s.edits t.edits;
    taken = λ h. elim (Bool-cases a) [
      | inl yes_a ↦ (
        Once-trans (usage_statement micros req) {t = db.usage} {u = db'.usage} {v = db''.usage}
            (s.taken yes_a).0 t.usage,
        Once-trans (edits_statement micros req) {t = db.edits} {u = db'.edits} {v = db''.edits}
            (s.taken yes_a).1 t.edits,
      )
      | inr no_a ↦
          let yes_b : b ≡ true = ground (arith, h, no_a) in
          (
            AtMostOnce-Once (usage_statement micros req) {t = db.usage} {u = db'.usage}
                {v = db''.usage} s.usage (t.taken yes_b).0,
            AtMostOnce-Once (edits_statement micros req) {t = db.edits} {u = db'.edits}
                {v = db''.edits} s.edits (t.taken yes_b).1,
          )
    ];
  }

abbrev pub Attempt : Type 0
Attempt = Circumstances × Request

module _ (sha256 : Text → List ℕ) (decode : Text → Text ⊎ IngestRequest) (micros : ℕ → ℕ) where
  ingest_as-Stored :
      (req : IngestRequest) (e : Circumstances) (known : Resolved) (body : Text) (db : Database)
      → decode (take max_body body) ≡ inr req
      → Stored micros req db
          (ingest_as sha256 decode micros e known body db).1
          (nat_beq (status (ingest_as sha256 decode micros e known body db).0) 200)
  unfolding ingest_as ingest_body
  ingest_as-Stored req e invalid_key body db h =
      Stored-refl micros req db db 401 refl refl (omega arith)
  ingest_as-Stored req e failed body db h = Stored-refl micros req db db 500 refl refl (omega arith)
  ingest_as-Stored req e (owner user) body db h = elim (Bool-cases (req.machine_id == [])) [
    | inl empty ↦
        rw (ingest_body, h, empty) (Stored-refl micros req db db 400 refl refl (omega arith))
    | inr named ↦ rw (ingest_body, h, named) (store_batch-Stored micros req e user db)
  ]

  handle_ingest-Stored :
      (req : IngestRequest) (e : Circumstances) (r : Request) (db : Database)
      → decode (take max_body r.body) ≡ inr req
      → Stored micros req db
          (handle_ingest sha256 decode micros e r db).1
          (nat_beq (status (handle_ingest sha256 decode micros e r db).0) 200)
  unfolding handle_ingest
  handle_ingest-Stored req e r db h =
      let bearer = extract_bearer r.authorization in
      let known = resolve sha256 e.resolve_fails e.now bearer db.accounts.keys in
      let touched : Database = record db { accounts = record db.accounts { keys = known.1 } } in
      elim (Bool-cases (r.method == codes "POST")) [
        | inr other ↦
            rw (handle_ingest, other) (Stored-refl micros req db db 405 refl refl (omega arith))
        | inl post ↦ elim (Bool-cases (bearer == [])) [
          | inl missing ↦
              rw (handle_ingest, post, missing)
                (Stored-refl micros req db db 401 refl refl (omega arith))
          | inr given ↦
              let s = ingest_as-Stored req e known.0 r.body touched h in
              rw (handle_ingest, post, given)
                (record { usage = s.usage; edits = s.edits; taken = s.taken })
        ]
      ]

  -- The attempts one after the other, and whether one of them was answered with 200.
  unfoldable pub attempts : List Attempt → Database → Bool × Database
  attempts [] db = (false, db)
  attempts ((e, r) ∷ more) db =
      let one = handle_ingest sha256 decode micros e r db in
      let rest = attempts more one.1 in (nat_beq (status one.0) 200 || rest.0, rest.1)

  abbrev pub AllCarry : Text → List Attempt → Type 0
  AllCarry body = All (λ (a : Attempt). a.1.body ≡ body)

  -- Requests that carry one body, which is a batch, stored it at most once in either table, however many
  -- they were, whoever sent them and whatever failed in them; and if one of them was answered with 200,
  -- both tables are what one successful insert of the batch makes of the tables before the first.
  pub attempts-Stored :
      (req : IngestRequest) (body : Text) (sent : List Attempt) (db : Database)
      → decode (take max_body body) ≡ inr req
      → AllCarry body sent
      → Stored micros req db (attempts sent db).1 (attempts sent db).0
  unfolding attempts
  attempts-Stored req body [] db h same = record {
    usage = inl refl;
    edits = inl refl;
    taken = λ p. ground (arith, p);
  }
  attempts-Stored req body ((e, r) ∷ more) db h (here, rest) =
      let one = handle_ingest sha256 decode micros e r db in
      Stored-trans micros req {db' = one.1} (handle_ingest-Stored req e r db (rw here h))
        (attempts-Stored req body more one.1 h rest)
