-- ===== src/Server/Ingest/Sound.antt =====
-- What no ingest request can break, and what a refused one leaves alone.
use token_usage.Prelude.{
  sum-cases, ◌⊎◌, inl, inr, ℕ, ◌≡◌, ◌≢◌, ◌<◌, refl, List, [], Text, text_eq, take, arith, ◌==◌,
  codes, Option-cases, Bool-cases,
}
use token_usage.Types.{IngestRequest}
use token_usage.Store.Keys.{detail_key_eq, daily_key_eq}
use token_usage.Table.{IsUnique}
use token_usage.Store.Rollup.Run.{IsSound}
use token_usage.Store.Usage.{usage_stream, insert}
use token_usage.Store.Usage.Insert.{insert-IsSound, insert-IsUnique}
use token_usage.Store.Edits.{edit_stream, insert_edits}
use token_usage.Store.Edits.Insert.{insert_edits-IsSound}
use token_usage.Server.Auth.{Resolved, owner, invalid_key, failed, resolve}
use token_usage.Server.Ingest.{
  Database, Request, Circumstances, status, extract_bearer, max_body, store_batch, ingest_body,
  ingest_as, handle_ingest,
}

-- Both pairs of tables are sound, and the daily usage rows have different keys.
pub record AreSound (db : Database) : Type 0 where
  pub usage : IsSound usage_stream db.usage
  pub edits : IsSound edit_stream db.edits
  pub keyed : IsUnique db.usage.daily

module _ (sha256 : Text → List ℕ) (decode : Text → Text ⊎ IngestRequest) (micros : ℕ → ℕ) where
  store_batch-AreSound :
      (e : Circumstances) (user : Text) (req : IngestRequest) (db : Database)
      → AreSound db
      → AreSound (store_batch micros e user req db).1
  unfolding store_batch
  store_batch-AreSound e user req db h =
      let t = insert micros e.now req.machine_id user e.insert_fails req.records db.usage in
      let u =
        insert_edits micros e.now req.machine_id user e.insert_edits_fails req.edits db.edits in
      let first =
        insert-IsSound micros e.now req.machine_id user e.insert_fails req.records db.usage
          h.usage in
      let keyed =
        insert-IsUnique micros e.now req.machine_id user e.insert_fails req.records db.usage
          h.keyed in
      let second =
        insert_edits-IsSound micros e.now req.machine_id user e.insert_edits_fails req.edits
          db.edits h.edits in
      elim (Option-cases t.0) [
        | inl bad ↦ rw (store_batch, bad) (record { usage = first; edits = h.edits; keyed = keyed })
        | inr (c, done) ↦ elim (Option-cases u.0) [
          | inl bad ↦
              rw (store_batch, done, bad) (record { usage = first; edits = second; keyed = keyed })
          | inr (d, done') ↦
              rw (store_batch, done, done')
                (record { usage = first; edits = second; keyed = keyed })
        ]
      ]

  ingest_as-AreSound :
      (e : Circumstances) (known : Resolved) (body : Text) (db : Database)
      → AreSound db
      → AreSound (ingest_as sha256 decode micros e known body db).1
  unfolding ingest_as ingest_body
  ingest_as-AreSound e invalid_key body db h = h
  ingest_as-AreSound e failed body db h = h
  ingest_as-AreSound e (owner user) body db h = elim (sum-cases (decode (take max_body body))) [
    | inl (message, bad) ↦ rw (ingest_body, bad) h
    | inr (req, good) ↦ elim (Bool-cases (req.machine_id == [])) [
      | inl empty ↦ rw (ingest_body, good, empty) h
      | inr named ↦ rw (ingest_body, good, named) (store_batch-AreSound e user req db h)
    ]
  ]

  -- Whatever the request and its answer, the daily tables say what the detail rows sum up to, no id
  -- stands twice, and no two daily usage rows have one key, if this was so before.
  pub handle_ingest-AreSound :
      (e : Circumstances) (r : Request) (db : Database)
      → AreSound db
      → AreSound (handle_ingest sha256 decode micros e r db).1
  unfolding handle_ingest
  handle_ingest-AreSound e r db h =
      let bearer = extract_bearer r.authorization in
      let known = resolve sha256 e.resolve_fails e.now bearer db.accounts.keys in
      let touched : Database = record db { accounts = record db.accounts { keys = known.1 } } in
      let h' : AreSound touched = record { usage = h.usage; edits = h.edits; keyed = h.keyed } in
      elim (Bool-cases (r.method == codes "POST")) [
        | inr other ↦ rw (handle_ingest, other) h
        | inl post ↦ elim (Bool-cases (bearer == [])) [
          | inl missing ↦ rw (handle_ingest, post, missing) h
          | inr given ↦
              rw (handle_ingest, post, given) (ingest_as-AreSound e known.0 r.body touched h')
        ]
      ]

  ingest_as-rejected :
      (e : Circumstances) (known : Resolved) (body : Text) (db : Database)
      → status (ingest_as sha256 decode micros e known body db).0 ≢ 200
      → status (ingest_as sha256 decode micros e known body db).0 < 500
      → (ingest_as sha256 decode micros e known body db).1 ≡ db
  unfolding ingest_as ingest_body store_batch
  ingest_as-rejected e invalid_key body db h h' = refl
  ingest_as-rejected e failed body db h h' = refl
  ingest_as-rejected e (owner user) body db h h' = ground (arith, h, h')

  -- A request that is answered with a status below 500 other than 200 leaves the usage tables and the edit
  -- tables as they were.
  pub handle_ingest-rejected :
      (e : Circumstances) (r : Request) (db : Database)
      → status (handle_ingest sha256 decode micros e r db).0 ≢ 200
      → status (handle_ingest sha256 decode micros e r db).0 < 500
      → ((handle_ingest sha256 decode micros e r db).1.usage ≡ db.usage)
        × ((handle_ingest sha256 decode micros e r db).1.edits ≡ db.edits)
  unfolding handle_ingest
  handle_ingest-rejected e r db h h' =
      let known =
        resolve sha256 e.resolve_fails e.now (extract_bearer r.authorization) db.accounts.keys in
      let touched : Database = record db { accounts = record db.accounts { keys = known.1 } } in
      ground (arith, h, h', ingest_as-rejected e known.0 r.body touched)
