-- ===== src/Examples/Requests.antt =====
-- internal/server/auth.go and internal/server/api.go on one user, one key, and a batch that is sent twice.
use token_usage.Prelude.{
  ◌⊎◌, inl, inr, ℕ, ◌/◌, ◌≡◌, refl, Bool, true, false, none, some, List, [], ◌∷◌, Text, text_eq,
  codes, ◌==◌, text_beq, if◌then◌else◌, arith,
}
use token_usage.Prelude.Int.{pos}
use token_usage.Types.{EditRecord, IngestRequest}
use token_usage.Server.Auth.{
  Accounts, Shown, invalid_key, owner, resolve, create_api_key, new_api_key, encode_base64,
  base64_char, has_hash, has_user, hash_key, encode_hex, hex_digit,
}
use token_usage.Server.Auth.Live.{
  Call, present, withdraw, any_withdraws, calls_after, create_api_key-lifetime,
}
use token_usage.Server.Ingest.{Database, Request, Circumstances, handle_ingest, status}
use token_usage.Server.Ingest.Once.{Attempt, Stored, attempts, attempts-Stored}
use token_usage.Server.Ingest.Sound.{AreSound, handle_ingest-rejected}
use token_usage.Store.Rollup.{rollup}
use token_usage.Store.Keys.{detail_key_eq, daily_key_eq}
use token_usage.Table.{lookup}

-- stands for SHA-256
abbrev pub digest : Text → List ℕ
digest text = text

abbrev zeros : List ℕ
zeros =
    0 ∷ 0 ∷ 0 ∷ 0 ∷ 0 ∷ 0 ∷ 0 ∷ 0 ∷ 0 ∷ 0 ∷ 0 ∷ 0 ∷ 0 ∷ 0 ∷ 0 ∷ 0 ∷ 0 ∷ 0 ∷ 0 ∷ 0 ∷ 0 ∷ 0 ∷ 0 ∷ 0
    ∷ []

abbrev one_user : Accounts
one_user = record {
  users = record { user_id = codes "ann"; email = none; created_at = 1; disabled_at = none } ∷ [];
  keys = [];
}

abbrev key : Shown
key = record { raw = codes "tuk_AAAAAAAAAAAAAAAAAAAAAAAAAAAAAAAA"; prefix = codes "tuk_AAAAAAAA" }

abbrev pub with_key : Accounts
with_key = (create_api_key digest false 2 (some zeros) (codes "ann") [] one_user).1

key_created : (create_api_key digest false 2 (some zeros) (codes "ann") [] one_user).0 ≡ some key
unfolding create_api_key new_api_key encode_base64 base64_char has_hash has_user hash_key encode_hex
    hex_digit text_beq
key_created = refl

abbrev later_calls : List Call
later_calls = present false 3 key.raw ∷ withdraw false 4 key.raw ∷ present false 5 key.raw ∷ []

create_api_key-lifetime_example :
    (resolve digest false 6 key.raw (calls_after digest later_calls with_key).keys).0
    ≡ (if any_withdraws key.prefix later_calls then invalid_key else owner (codes "ann"))
create_api_key-lifetime_example =
    create_api_key-lifetime digest false 2 6 (some zeros) (codes "ann") [] one_user later_calls
      key_created

abbrev edited : EditRecord
edited = record {
  event_id = codes "x";
  session_id = codes "s";
  tool = codes "codex";
  timestamp = 5000;
  lang = codes "go";
  lines_added = pos 2;
  lines_removed = pos 1;
  project_path = [];
  backfill = false;
}

abbrev request_body : IngestRequest
request_body = record { machine_id = codes "pc"; records = []; edits = edited ∷ [] }

-- stands for encoding/json
abbrev read_body : Text → Text ⊎ IngestRequest
read_body text = if text == codes "{}" then inr request_body else inl (codes "EOF")

abbrev to_micros : ℕ → ℕ
to_micros n = n / 1000

abbrev pub database : Database
database = record {
  accounts = with_key;
  usage = record { detail = []; daily = [] };
  edits = record { detail = []; daily = [] };
}

abbrev pub post_of : Text → Request
post_of body = record {
  method = codes "POST";
  authorization = codes "Bearer tuk_AAAAAAAAAAAAAAAAAAAAAAAAAAAAAAAA";
  body = body;
}

abbrev pub at_time : ℕ → Bool → Circumstances
at_time now fails = record {
  now = now;
  resolve_fails = false;
  insert_fails = false;
  insert_edits_fails = fails;
}

abbrev sent_thrice : List Attempt
sent_thrice =
    (at_time 7 true, post_of (codes "{}"))
    ∷ (at_time 8 false, post_of (codes "{}"))
    ∷ (at_time 9 false, post_of (codes "{}"))
    ∷ []

read_request : read_body (codes "{}") ≡ inr request_body
unfolding text_beq
read_request = refl

attempts-Stored_example :
    Stored to_micros request_body database
      (attempts digest read_body to_micros sent_thrice database).1
      (attempts digest read_body to_micros sent_thrice database).0
attempts-Stored_example =
    attempts-Stored digest read_body to_micros request_body (codes "{}") sent_thrice database
      read_request (refl, (refl, (refl, tt)))

pub database-AreSound : AreSound database
unfolding lookup rollup
database-AreSound = record {
  usage = record { consistent = record { at_key = λ k. refl }; unique = tt };
  keyed = tt;
  edits = record { consistent = record { at_key = λ k. refl }; unique = tt };
}

abbrev get_request : Request
get_request = record (post_of (codes "{}")) { method = codes "GET" }

refused :
    status (handle_ingest digest read_body to_micros (at_time 7 false) get_request database).0 ≡ 405
unfolding handle_ingest text_beq
refused = refl

handle_ingest-rejected_example :
    ((handle_ingest digest read_body to_micros (at_time 7 false) get_request database).1.usage
      ≡ database.usage)
    × ((handle_ingest digest read_body to_micros (at_time 7 false) get_request database).1.edits
        ≡ database.edits)
handle_ingest-rejected_example =
    handle_ingest-rejected digest read_body to_micros (at_time 7 false) get_request database
      (rw refused (omega arith)) (rw refused (omega arith))
