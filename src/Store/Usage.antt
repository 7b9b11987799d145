-- ===== src/Store/Usage.antt =====
-- usage_detail and usage_daily (internal/server/schema.go) and `Store.Insert` of
-- internal/server/store.go. The database's conversion of a time to `timestamptz` is the argument
-- `micros`: microseconds since Go's zero time.
pub mod Rebuild
pub mod Insert
use Prim.Native.Nat.{max}
use token_usage.Prelude.{
  ℕ, ◌+◌, ◌/◌, ◌^◌, min, ◌≡◌, Bool, true, false, not, ◌&&◌, Option, none, some, List, [], ◌∷◌, Eq,
  ◌==◌, text_eq, arith, map, keep, Text, codes, ltb, if◌then◌else◌,
}
use token_usage.Prelude.Int.{ℤ, pos, ◌+ℤ◌, +ℤ_assoc, fits64, ltb_ℤ}
use token_usage.Types.{UsageRecord}
use token_usage.Store.Rollup.{Stream, Tables, run_insert}
use token_usage.Store.Keys.{DetailKey, DailyKey, detail_key_eq, daily_key_eq}

pub record UsageDetail : Type 0 where
  pub message_id : Text
  pub request_id : Text
  pub session_id : Text
  pub user_id : Text
  pub machine_id : Text
  pub tool : Text
  pub model : Text
  pub ts : ℕ
  pub input_tokens : ℤ
  pub output_tokens : ℤ
  pub cache_creation_tokens : ℤ
  pub cache_creation_1h_tokens : ℤ
  pub cache_read_tokens : ℤ
  pub project_path : Option Text
  pub backfill : Bool
  pub received_at : ℕ

-- The summed columns of usage_daily.
pub record UsageSums : Type 0 where
  pub input_tokens : ℤ
  pub output_tokens : ℤ
  pub cache_creation_tokens : ℤ
  pub cache_creation_1h_tokens : ℤ
  pub cache_read_tokens : ℤ
  pub messages : ℕ
  pub first_ts : ℕ
  pub last_ts : ℕ

abbrev pub day_micros : ℕ
day_micros = 86_400_000_000

-- (ts AT TIME ZONE 'UTC')::date, as days since 0001-01-01
unfoldable pub utc_date : ℕ → ℕ
utc_date ts = ts / day_micros

unfoldable pub detail_id : UsageDetail → DetailKey
detail_id r = record { message_id = r.message_id; request_id = r.request_id }

unfoldable pub daily_key : UsageDetail → DailyKey
unfolding utc_date
daily_key r = record {
  day = utc_date r.ts;
  user_id = r.user_id;
  machine_id = r.machine_id;
  tool = r.tool;
  label = r.model;
}

-- what one row counts for in the aggregates of `agg`
unfoldable pub single : UsageDetail → UsageSums
single r = record {
  input_tokens = r.input_tokens;
  output_tokens = r.output_tokens;
  cache_creation_tokens = r.cache_creation_tokens;
  cache_creation_1h_tokens = r.cache_creation_1h_tokens;
  cache_read_tokens = r.cache_read_tokens;
  messages = 1;
  first_ts = r.ts;
  last_ts = r.ts;
}

unfoldable pub merge : UsageSums → UsageSums → UsageSums
merge a b = record {
  input_tokens = a.input_tokens +ℤ b.input_tokens;
  output_tokens = a.output_tokens +ℤ b.output_tokens;
  cache_creation_tokens = a.cache_creation_tokens +ℤ b.cache_creation_tokens;
  cache_creation_1h_tokens = a.cache_creation_1h_tokens +ℤ b.cache_creation_1h_tokens;
  cache_read_tokens = a.cache_read_tokens +ℤ b.cache_read_tokens;
  messages = a.messages + b.messages;
  first_ts = min a.first_ts b.first_ts;
  last_ts = max a.last_ts b.last_ts;
}

-- the columns are BIGINT
unfoldable pub sums_fit : UsageSums → Bool
unfolding fits64
sums_fit a =
    fits64 a.input_tokens
    && (fits64 a.output_tokens
        && (fits64 a.cache_creation_tokens
            && (fits64 a.cache_creation_1h_tokens
                && (fits64 a.cache_read_tokens && ltb a.messages (2 ^ 63)))))

pub merge_assoc : (a b c : UsageSums) → merge (merge a b) c ≡ merge a (merge b c)
unfolding merge
merge_assoc a b c = ground (
  arith,
  +ℤ_assoc a.input_tokens b.input_tokens c.input_tokens,
  +ℤ_assoc a.output_tokens b.output_tokens c.output_tokens,
  +ℤ_assoc a.cache_creation_tokens b.cache_creation_tokens c.cache_creation_tokens,
  +ℤ_assoc a.cache_creation_1h_tokens b.cache_creation_1h_tokens c.cache_creation_1h_tokens,
  +ℤ_assoc a.cache_read_tokens b.cache_read_tokens c.cache_read_tokens,
)

abbrev pub usage_stream : Stream UsageDetail DetailKey DailyKey UsageSums
usage_stream = record {
  id = detail_id;
  key = daily_key;
  single = single;
  merge = merge;
  fits = sums_fit;
  merge_assoc = merge_assoc;
}

abbrev pub UsageTables : Type 0
UsageTables = Tables UsageDetail DailyKey UsageSums

-- NULLIF(s, '')
abbrev pub null_if_empty : Text → Option Text
null_if_empty s = if s == [] then none else some s

-- LEAST over `bigint`
abbrev pub least : ℤ → ℤ → ℤ
least a b = if ltb_ℤ b a then b else a

module _ (micros : ℕ → ℕ) (now : ℕ) (machine_id user_id : Text) where
  -- a row of the CTE `input`
  unfoldable pub input_row : UsageRecord → UsageDetail
  input_row e = record {
    message_id = e.message_id;
    request_id = e.request_id;
    session_id = e.session_id;
    user_id = user_id;
    machine_id = machine_id;
    tool = if e.tool == [] then codes "claude-code" else e.tool;
    model = e.model;
    ts = micros e.timestamp;
    input_tokens = e.input_tokens;
    output_tokens = e.output_tokens;
    cache_creation_tokens = e.cache_creation_tokens;
    cache_creation_1h_tokens = least e.cache_creation_1h_tokens e.cache_creation_tokens;
    cache_read_tokens = e.cache_read_tokens;
    project_path = null_if_empty e.project_path;
    backfill = e.backfill;
    received_at = now;
  }

  -- WHERE COALESCE(e->>'message_id', '') <> ''
  unfoldable pub input_rows : List UsageRecord → List UsageDetail
  unfolding input_row
  input_rows recs = map input_row (keep (λ e. not (e.message_id == [])) recs)

  -- `Store.Insert`: (accepted, duplicates), or an error, and the tables afterwards
  unfoldable pub insert : Bool → List UsageRecord → UsageTables → Option (ℕ × ℕ) × UsageTables
  unfolding run_insert input_rows
  insert fault [] t = (some (0, 0), t)
  insert fault (e ∷ recs) t = run_insert usage_stream fault now (input_rows (e ∷ recs)) t
