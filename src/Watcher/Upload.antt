-- ===== src/Watcher/Upload.antt =====
-- internal/watcher/uploader.go: posting a batch, spooling it to disk when that fails, and sending the
-- spool again. What the network, the clock and the disk do is an argument, `Outside`; the world keeps
-- the spool folder and the requests made so far.
--
-- A spooled file `batch-<n>.json` is an entry with the stamp n. `ReadDir` lists names in lexicographic
-- order, which is the order of the stamps while they have the same number of digits, as readings in
-- nanoseconds have from 2001 to 2286. What the log lines say is not modelled.
pub mod Durable
pub mod Send
pub mod Flush
use token_usage.Prelude.{
  ℕ, ◌+◌, ◌-◌, ◌/◌, Bool, true, false, not, ◌&&◌, ◌||◌, Option, none, some, List, [], ◌∷◌, ◌++◌,
  Text, codes, ltb, nat_beq, length, take, drop, has_prefix, text_beq, if◌then◌else◌, ◌==◌, text_eq,
}
use token_usage.Types.{UsageRecord, EditRecord, IngestRequest, IngestResponse}
use token_usage.Parsers.Std.{itoa, trim_space}

-- What `Client.Do` gives back: an error, whose text net/http's url.Error begins with `Post ` (the message
-- is the rest), or a status of three digits, a body, and what the body decodes to (all zero if it does
-- not decode).
pub data Reply : Type 0 where
  transport : (message : Text) → Reply
  answer : (status : ℕ) (body : Text) (ack : IngestResponse) → Reply

-- Where writing a file and renaming it stopped, with the error's text.
pub data DiskStep : Type 0 where
  stored : DiskStep
  no_folder : (message : Text) → DiskStep
  no_write : (message : Text) → DiskStep
  no_rename : (message : Text) → DiskStep

pub record Outside : Type 1 where
  pub Env : Type 0
  pub Body : Type 0
  -- json.Marshal
  pub marshal : IngestRequest → Option Body
  pub serve : Env → Body → Env × Reply
  -- time.Now().UnixNano()
  pub time : Env → ℕ
  -- MkdirAll, WriteFile and Rename
  pub write : Env → Env × DiskStep
  -- os.Remove: whether the file is gone
  pub remove : Env → Env × Bool
  -- whether ReadDir gives the spool folder's entries
  pub readable : Env → Bool

pub record SendResult : Type 0 where
  pub accepted : ℕ
  pub duplicates : ℕ
  pub edits_accepted : ℕ
  pub edits_duplicates : ℕ
  pub spooled : Bool
  pub spool_reason : Option Text

-- the pair (SendResult, error)
pub data Sent : Type 0 where
  sent : SendResult → Sent
  failed : Text → Sent

pub record Uploader : Type 0 where
  pub machine_id : Text
  pub buffer_dir : Text

abbrev pub no_result : SendResult
no_result = record {
  accepted = 0;
  duplicates = 0;
  edits_accepted = 0;
  edits_duplicates = 0;
  spooled = false;
  spool_reason = none;
}

-- isHTTPRejection, of the text of an error
unfoldable pub is_http_rejection : Text → Bool
is_http_rejection s =
    if ltb (length s) 10 || not (has_prefix s (codes "server "))
    then false
    else let code = take 3 (drop 7 s) in
      (code == codes "400")
      || (code == codes "404")
      || (code == codes "410")
      || (code == codes "413")
      || (code == codes "422")

-- `SendResult{Accepted: ack.Accepted, ...}`
abbrev pub of_ack : IngestResponse → SendResult
of_ack ack = record {
  accepted = ack.accepted;
  duplicates = ack.duplicates;
  edits_accepted = ack.edits_accepted;
  edits_duplicates = ack.edits_duplicates;
  spooled = false;
  spool_reason = none;
}

-- what `post` makes of a reply
unfoldable pub reply_result : Reply → Sent
reply_result (transport message) = failed (codes "Post " ++ message)
reply_result (answer status body ack) =
    if nat_beq (status / 100) 2
    then sent (of_ack ack)
    else failed (codes "server " ++ itoa status ++ codes ": " ++ trim_space (take 512 body))

abbrev pub count_edits : Bool → SendResult → SendResult
count_edits edits_batch res =
    if edits_batch
    then record res { accepted = res.edits_accepted; duplicates = res.edits_duplicates }
    else res

-- A file of the spool folder; `is_skipped` says that it is a folder or has the extension `.tmp`.
-- A batch that cannot be read has no body.
pub record Entry (B : Type 0) : Type 0 where
  pub stamp : ℕ
  pub is_skipped : Bool
  pub body : Option B

abbrev pub batch_file : {B : Type 0} → ℕ → Bool → B → Entry B
batch_file stamp is_temp b = record { stamp = stamp; is_skipped = is_temp; body = some b }

unfoldable pub same : {B : Type 0} → Entry B → Entry B → Bool
same x e =
    nat_beq x.stamp e.stamp && elim x.is_skipped [ true ↦ e.is_skipped | false ↦ not e.is_skipped ]

-- A file takes the place of the one with its name.
unfoldable pub put : {B : Type 0} → Entry B → List (Entry B) → List (Entry B)
put e [] = e ∷ []
put e (x ∷ xs) =
    let rest = put e xs in
    if ltb e.stamp x.stamp then e ∷ x ∷ xs else if same x e then e ∷ xs else x ∷ rest

unfoldable pub without : {B : Type 0} → Entry B → List (Entry B) → List (Entry B)
without e [] = []
without e (x ∷ xs) = let rest = without e xs in if same x e then rest else x ∷ rest

-- The counters of Flush.
pub record Tally : Type 0 where
  pub drained : ℕ
  pub dropped : ℕ
  pub total_accepted : ℕ
  pub total_duplicates : ℕ
  pub last_error : Option Text

abbrev no_tally : Tally
no_tally = record {
  drained = 0;
  dropped = 0;
  total_accepted = 0;
  total_duplicates = 0;
  last_error = none;
}

module _ (o : Outside) where
  pub record World : Type 0 where
    pub env : o.Env
    pub buffer : List (Entry o.Body)
    pub posts : List (o.Body × Reply)

  unfoldable pub post : World → o.Body → World × Sent
  post w b =
      let served = o.serve w.env b in
      (
        record { env = served.0; buffer = w.buffer; posts = (b, served.1) ∷ w.posts },
        reply_result served.1,
      )

  -- What is left where writing the batch stopped: the error's text, or nothing if it is on disk. A
  -- file under a `.tmp` name is never read again.
  unfoldable pub spooled_at : World → o.Body → o.Env → DiskStep → World × Option Text
  spooled_at w b env stored = (
    record {
      env = env;
      buffer = put (batch_file (o.time w.env) false b) w.buffer;
      posts = w.posts;
    },
    none,
  )
  spooled_at w b env (no_folder m) =
      (record { env = env; buffer = w.buffer; posts = w.posts }, some m)
  spooled_at w b env (no_write m) =
      (record { env = env; buffer = w.buffer; posts = w.posts }, some m)
  spooled_at w b env (no_rename m) = (
    record { env = env; buffer = put (batch_file (o.time w.env) true b) w.buffer; posts = w.posts },
    some m,
  )

  unfoldable pub spool : World → o.Body → World × Option Text
  spool w b = spooled_at w b (o.write w.env).0 (o.write w.env).1

  -- the part of sendRequest behind a failed post
  unfoldable pub send_spooled : Uploader → World → o.Body → Text → World × Sent
  send_spooled u w b err =
      let spooled = spool w b in
      if u.buffer_dir == [] then (w, failed err) else elim spooled.1 [
        | some werr ↦ (
          spooled.0,
          failed (
              codes "post failed ("
              ++ err
              ++ codes ") and could not buffer ("
              ++ werr
              ++ codes ")"),
        )
        | none ↦ (spooled.0, sent (record no_result { spooled = true; spool_reason = some err }))
      ]

  -- The text of an error of json.Marshal is not modelled.
  unfoldable pub send_request : Uploader → World → IngestRequest → Bool → World × Sent
  send_request u w req edits_batch = elim (o.marshal req) [
    | none ↦ (w, failed (codes "json"))
    | some b ↦
        let posted = post w b in
        elim posted.1 [
          | sent res ↦ (posted.0, sent (count_edits edits_batch res))
          | failed err ↦ send_spooled u posted.0 b err
        ]
  ]

  -- Send
  unfoldable pub send : Uploader → World → List UsageRecord → World × Sent
  send u w [] = (w, sent no_result)
  send u w (r ∷ rs) =
      send_request u w (record { machine_id = u.machine_id; records = r ∷ rs; edits = [] }) false

  -- SendEdits
  unfoldable pub send_edits : Uploader → World → List EditRecord → World × Sent
  send_edits u w [] = (w, sent no_result)
  send_edits u w (e ∷ es) =
      send_request u w (record { machine_id = u.machine_id; records = []; edits = e ∷ es }) true

  -- `_ = os.Remove(p)`
  unfoldable pub remove_entry : Entry o.Body → World → World
  remove_entry e w =
      let removed = o.remove w.env in
      record {
        env = removed.0;
        buffer = if removed.1 then without e w.buffer else w.buffer;
        posts = w.posts;
      }

  -- The loop of Flush over the entries that ReadDir listed.
  unfoldable pub flush_each : List (Entry o.Body) → World → Tally → World × Tally
  flush_each [] w tally = (w, tally)
  flush_each (e ∷ es) w tally = elim e.is_skipped [
    | true ↦ flush_each es w tally
    | false ↦ elim e.body [
      | none ↦ flush_each es w tally
      | some b ↦
          let posted = post w b in
          elim posted.1 [
            | failed err ↦ elim (is_http_rejection err) [
              | true ↦
                  flush_each es (remove_entry e posted.0)
                    (record tally { dropped = tally.dropped + 1; last_error = some err })
              | false ↦ (posted.0, record tally { last_error = some err })
            ]
            | sent res ↦ flush_each es (remove_entry e posted.0) (record tally {
              drained = tally.drained + 1;
              total_accepted = tally.total_accepted + res.accepted;
              total_duplicates = tally.total_duplicates + res.duplicates;
            })
          ]
    ]
  ]

  unfoldable pub flush : Uploader → World → World × Tally
  flush u w =
      let all = flush_each w.buffer w no_tally in
      if u.buffer_dir == [] then (w, no_tally) else if o.readable w.env then all else (w, no_tally)
