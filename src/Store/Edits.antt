-- ===== src/Store/Edits.antt =====
-- edit_detail and edit_daily (internal/server/schema.go) and `Store.InsertEdits` of
-- internal/server/store.go, over the same interface as the usage tables.
pub mod Insert
use token_usage.Prelude.{
  ℕ, ◌+◌, ◌^◌, ◌≡◌, Bool, not, ◌&&◌, Option, none, some, List, [], ◌∷◌, Eq, ◌==◌, text_eq, arith,
  map, keep, Text, codes, ltb, if◌then◌else◌,
}
use token_usage.Prelude.Int.{ℤ, ◌+ℤ◌, +ℤ_assoc, fits64}
use token_usage.Types.{EditRecord}
use token_usage.Store.Rollup.{Stream, Tables, run_insert}
use token_usage.Store.Keys.{DailyKey, daily_key_eq}
use token_usage.Store.Usage.{utc_date, null_if_empty}

pub record EditDetail : Type 0 where
  pub event_id : Text
  pub session_id : Text
  pub user_id : Text
  pub machine_id : Text
  pub tool : Text
  pub lang : Text
  pub ts : ℕ
  pub lines_added : ℤ
  pub lines_removed : ℤ
  pub project_path : Option Text
  pub backfill : Bool
  pub received_at : ℕ

-- The summed columns of edit_daily.
pub record EditSums : Type 0 where
  pub lines_added : ℤ
  pub lines_removed : ℤ
  pub edits : ℕ

unfoldable pub edit_id : EditDetail → Text
edit_id r = r.event_id

unfoldable pub edit_key : EditDetail → DailyKey
unfolding utc_date
edit_key r = record {
  day = utc_date r.ts;
  user_id = r.user_id;
  machine_id = r.machine_id;
  tool = r.tool;
  label = r.lang;
}

-- what one row counts for in the aggregates of `agg`
unfoldable pub single_edit : EditDetail → EditSums
single_edit r = record { lines_added = r.lines_added; lines_removed = r.lines_removed; edits = 1 }

unfoldable pub merge_edits : EditSums → EditSums → EditSums
merge_edits a b = record {
  lines_added = a.lines_added +ℤ b.lines_added;
  lines_removed = a.lines_removed +ℤ b.lines_removed;
  edits = a.edits + b.edits;
}

unfoldable pub edit_sums_fit : EditSums → Bool
unfolding fits64
edit_sums_fit a = fits64 a.lines_added && (fits64 a.lines_removed && ltb a.edits (2 ^ 63))

pub merge_edits_assoc :
    (a b c : EditSums) → merge_edits (merge_edits a b) c ≡ merge_edits a (merge_edits b c)
unfolding merge_edits
merge_edits_assoc a b c = ground (
  arith,
  +ℤ_assoc a.lines_added b.lines_added c.lines_added,
  +ℤ_assoc a.lines_removed b.lines_removed c.lines_removed,
)

abbrev pub edit_stream : Stream EditDetail Text DailyKey EditSums
edit_stream = record {
  id = edit_id;
  key = edit_key;
  single = single_edit;
  merge = merge_edits;
  fits = edit_sums_fit;
  merge_assoc = merge_edits_assoc;
}

abbrev pub EditTables : Type 0
EditTables = Tables EditDetail DailyKey EditSums

module _ (micros : ℕ → ℕ) (now : ℕ) (machine_id user_id : Text) where
  -- a row of the CTE `input`
  unfoldable pub edit_row : EditRecord → EditDetail
  edit_row e = record {
    event_id = e.event_id;
    session_id = e.session_id;
    user_id = user_id;
    machine_id = machine_id;
    tool = if e.tool == [] then codes "claude-code" else e.tool;
    lang = if e.lang == [] then codes "other" else e.lang;
    ts = micros e.timestamp;
    lines_added = e.lines_added;
    lines_removed = e.lines_removed;
    project_path = null_if_empty e.project_path;
    backfill = e.backfill;
    received_at = now;
  }

  -- WHERE COALESCE(e->>'event_id', '') <> ''
  unfoldable pub edit_rows : List EditRecord → List EditDetail
  unfolding edit_row
  edit_rows edits = map edit_row (keep (λ e. not (e.event_id == [])) edits)

  -- `Store.InsertEdits`: (accepted, duplicates), or an error, and the tables afterwards
  unfoldable pub insert_edits : Bool → List EditRecord → EditTables → Option (ℕ × ℕ) × EditTables
  unfolding run_insert edit_rows
  insert_edits fault [] t = (some (0, 0), t)
  insert_edits fault (e ∷ edits) t = run_insert edit_stream fault now (edit_rows (e ∷ edits)) t
