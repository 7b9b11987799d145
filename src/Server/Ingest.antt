-- ===== src/Server/Ingest.antt =====
-- `handleIngest` of internal/server/api.go: who may send a batch, what is refused, and the two statements
-- that store it. SHA-256 and encoding/json, which answers a request or a
-- message, are arguments.
pub mod Statement
pub mod Once
pub mod Sound
use token_usage.Prelude.{
  ◌⊎◌, inl, inr, ℕ, ◌*◌, ◌≡◌, Bool, true, false, Option, none, some, List, [], ◌∷◌, Text, text_eq,
  codes, ◌==◌, has_prefix, drop, take, if◌then◌else◌,
}
use token_usage.Types.{IngestRequest, IngestResponse}
use token_usage.Parsers.Std.{trim_space}
use token_usage.Store.Usage.{UsageTables, insert}
use token_usage.Store.Edits.{EditTables, insert_edits}
use token_usage.Server.Auth.{Accounts, Resolved, owner, invalid_key, failed, resolve}

-- What of the database an ingest request can change.
pub record Database : Type 0 where
  pub accounts : Accounts
  pub usage : UsageTables
  pub edits : EditTables

pub record Request : Type 0 where
  pub method : Text
  pub authorization : Text
  pub body : Text

-- The clock and the failing statements of one request: `now` is the NOW() of its transactions.
pub record Circumstances : Type 0 where
  pub now : ℕ
  pub resolve_fails : Bool
  pub insert_fails : Bool
  pub insert_edits_fails : Bool

pub data Reply : Type 0 where
  http_error : ℕ → Text → Reply
  json : IngestResponse → Reply

abbrev pub status : Reply → ℕ
status (http_error code text) = code
status (json body) = 200

-- `extractBearer`
unfoldable pub extract_bearer : Text → Text
unfolding trim_space
extract_bearer h = if has_prefix h (codes "Bearer ") then trim_space (drop 7 h) else []

-- 16<<20
abbrev max_body : ℕ
max_body = 16 * 1_048_576

abbrev store_error : Reply
store_error = http_error 500 (codes "store error")

module _ (micros : ℕ → ℕ) where
  -- the two statements, and the answer
  unfoldable pub store_batch : Circumstances → Text → IngestRequest → Database → Reply × Database
  store_batch e user req db =
      let usage = insert micros e.now req.machine_id user e.insert_fails req.records db.usage in
      let edits =
        insert_edits micros e.now req.machine_id user e.insert_edits_fails req.edits db.edits in
      elim usage.0 [
        | none ↦ (store_error, record db { usage = usage.1 })
        | some counts ↦ elim edits.0 [
          | none ↦ (store_error, record db { usage = usage.1; edits = edits.1 })
          | some edit_counts ↦ (
            json (record {
              accepted = counts.0;
              duplicates = counts.1;
              edits_accepted = edit_counts.0;
              edits_duplicates = edit_counts.1;
            }),
            record db { usage = usage.1; edits = edits.1 },
          )
        ]
      ]

module _ (sha256 : Text → List ℕ) (decode : Text → Text ⊎ IngestRequest) (micros : ℕ → ℕ) where
  -- of a caller whose key is valid
  unfoldable pub ingest_body : Circumstances → Text → Text → Database → Reply × Database
  unfolding store_batch
  ingest_body e user body db = elim (decode (take max_body body)) [
    | inl message ↦ (http_error 400 message, db)
    | inr req ↦
        if req.machine_id == []
        then (http_error 400 (codes "machine_id required"), db)
        else store_batch micros e user req db
  ]

  -- of a caller whose key was looked up
  unfoldable pub ingest_as : Circumstances → Resolved → Text → Database → Reply × Database
  unfolding ingest_body
  ingest_as e invalid_key body db = (http_error 401 (codes "invalid or revoked api key"), db)
  ingest_as e failed body db = (http_error 500 (codes "auth error"), db)
  ingest_as e (owner user) body db = ingest_body e user body db

  -- `handleIngest`
  unfoldable pub handle_ingest : Circumstances → Request → Database → Reply × Database
  unfolding ingest_as extract_bearer
  handle_ingest e r db =
      let bearer = extract_bearer r.authorization in
      let known = resolve sha256 e.resolve_fails e.now bearer db.accounts.keys in
      let touched = record db { accounts = record db.accounts { keys = known.1 } } in
      if r.method == codes "POST"
      then if bearer == []
        then (http_error 401 (codes "missing api key (Authorization: Bearer tuk_...)"), db)
        else ingest_as e known.0 r.body touched
      else (http_error 405 (codes "method not allowed"), db)
