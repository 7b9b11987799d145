-- ===== src/Examples/Uploads.antt =====
-- internal/watcher/uploader.go and a tick of cmd/watcher/cli/run.go against a scripted server.
use token_usage.Prelude.{
  ◌⊎◌, ℕ, zero, suc, ◌≡◌, refl, true, false, some, List, [], ◌∷◌, Text, codes, All, arith, inl,
  text_beq,
}
use token_usage.Prelude.Int.{pos}
use token_usage.Types.{UsageRecord, EditRecord, IngestRequest, IngestResponse}
use token_usage.Parsers.Std.{ScanResult, FileState}
use token_usage.Watcher.Upload.{
  Reply, answer, transport, stored, Outside, Uploader, batch_file, World, Sent, sent, SendResult,
  send_request, flush, same,
}
use token_usage.Watcher.Upload.Durable.{IsClocked, IsFresh, Keeps, Durable, Settled}
use token_usage.Watcher.Upload.Send.{send_request-Durable}
use token_usage.Watcher.Upload.Flush.{flush-Settled}
use token_usage.Watcher.Run.{Checkpoint, run_once, set_all, save}
use token_usage.Watcher.Run.Batches.{Carried}
use token_usage.Watcher.Run.Tick.{
  CanSpool, records_of, edits_of, run_once-Carried, run_once-CanSpool,
}

abbrev pub ack : IngestResponse
ack = record { accepted = 1; duplicates = 0; edits_accepted = 0; edits_duplicates = 0 }

-- The server takes a request, then is out of reach; the number is the clock.
abbrev pub reply_at : ℕ → Reply
reply_at zero = answer 200 [] ack
reply_at (suc n) = transport (codes "dial tcp: connection refused")

abbrev pub outside : Outside
outside = record {
  Env = ℕ;
  Body = IngestRequest;
  marshal = λ req. some req;
  serve = λ n b. (suc n, reply_at n);
  time = λ n. n;
  write = λ n. (suc n, stored);
  remove = λ n. (suc n, true);
  readable = λ n. true;
}

pub outside-IsClocked : IsClocked outside
outside-IsClocked = record {
  serve-time = λ n b. omega arith;
  write-time = λ n. omega arith;
  remove-time = λ n. omega arith;
}

abbrev pub uploader : Uploader
uploader = record { machine_id = codes "pc"; buffer_dir = codes "/buffer" }

can_spool : CanSpool outside uploader
unfolding text_beq
can_spool = record { folder = refl; encoded = λ req. (req, refl); written = λ n. refl }

abbrev pub usage : UsageRecord
usage = record {
  message_id = codes "a";
  request_id = codes "r";
  session_id = codes "s";
  tool = codes "codex";
  model = codes "m";
  timestamp = 1000;
  input_tokens = pos 10;
  output_tokens = pos 5;
  cache_creation_tokens = pos 0;
  cache_creation_1h_tokens = pos 0;
  cache_read_tokens = pos 0;
  project_path = [];
  backfill = false;
}

abbrev pub edit : EditRecord
edit = record {
  event_id = codes "e";
  session_id = codes "s";
  tool = codes "codex";
  timestamp = 1000;
  lang = codes "go";
  lines_added = pos 3;
  lines_removed = pos 1;
  project_path = [];
  backfill = false;
}

abbrev pub request : IngestRequest
request = record { machine_id = codes "pc"; records = usage ∷ []; edits = [] }

abbrev pub new_world : World outside
new_world = record { env = 0; buffer = []; posts = [] }

abbrev later_world : World outside
later_world = record { env = 5; buffer = batch_file 3 false request ∷ []; posts = [] }

abbrev request_sent : World outside × Sent
request_sent = send_request outside uploader later_world request false

send_request-Durable_example :
    Keeps outside later_world request_sent.0
    × ((res : SendResult)
        → request_sent.1 ≡ sent res
        → (b : IngestRequest) × (some request ≡ some b) × Durable outside request_sent.0 b)
send_request-Durable_example =
    send_request-Durable outside outside-IsClocked uploader later_world request false
      (omega arith, tt)

flush-Settled_example : Settled outside (flush outside uploader later_world).0 request
unfolding same
flush-Settled_example =
    flush-Settled outside uploader later_world request ((λ e. refl, tt), tt) (inl (refl, refl))

abbrev scanned : ScanResult
scanned = record { usage = usage ∷ usage ∷ usage ∷ []; edits = edit ∷ [] }

abbrev pending : List (Text × FileState)
pending = (codes "/a.jsonl", record { inode = 4; offset = 90 }) ∷ []

abbrev checkpoint : Checkpoint
checkpoint = record { files = []; saved = [] }

run_once-Carried_example :
    (v : World outside) × (after : Checkpoint) × (run_once outside uploader 2 new_world scanned
        pending true checkpoint
      ≡ some (v, after))
    × IsFresh outside v
    × ((after ≡ checkpoint)
        ⊎ ((after ≡ save (set_all checkpoint pending) true)
            × All (Carried outside records_of v) (usage ∷ usage ∷ usage ∷ [])
            × All (Carried outside edits_of v) (edit ∷ [])))
run_once-Carried_example =
    run_once-Carried outside outside-IsClocked uploader 2 new_world scanned pending true checkpoint
      (omega arith) tt (omega arith)

run_once-CanSpool_example :
    (v : World outside) × (run_once outside uploader 2 new_world scanned pending true checkpoint
      ≡ some (v, save (set_all checkpoint pending) true))
run_once-CanSpool_example =
    run_once-CanSpool outside outside-IsClocked uploader 2 new_world scanned pending true checkpoint
      can_spool (omega arith) tt (omega arith)
