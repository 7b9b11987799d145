-- ===== src/Store/Repair.antt =====
-- internal/server/store_repair.go: `Store.RepairCodexUsage`, which sets the token counts of a machine's
-- Codex rows to those of the records parsed again from its session files. The lock and the temporary
-- table are those of one transaction. Statistics that do not fit their variables are an error, after which
-- the source returns those read so far and the model returns none.
pub mod Laws
pub mod Rows
pub mod Run
use token_usage.Prelude.{
  ◌⊎◌, inl, inr, ℕ, ◌+◌, ◌*◌, ◌≡◌, Bool, true, false, not, ◌&&◌, ◌||◌, Option, none, some, List, [],
  ◌∷◌, ◌++◌, map, Text, text_eq, codes, ◌==◌, keep, length, ltb, nat_beq, min, if◌then◌else◌,
}
use Prim.Native.Nat.{max}
use token_usage.Prelude.Int.{ℤ, pos, sum_by, pos_part, neg_part, fits64}
use token_usage.Types.{UsageRecord}
use token_usage.Store.Keys.{DetailKey, detail_key_eq}
use token_usage.Store.Usage.{UsageDetail, UsageTables, detail_id}
use token_usage.Store.Usage.Rebuild.{rebuild_daily_tx}

-- A row of codex_repair_stage.
pub record StageRow : Type 0 where
  pub message_id : Text
  pub request_id : Text
  pub input_tokens : ℤ
  pub output_tokens : ℤ
  pub cache_creation_tokens : ℤ
  pub cache_read_tokens : ℤ

pub record CodexRepairStats : Type 0 where
  pub parsed : ℕ
  pub database_rows : ℕ
  pub matched : ℕ
  pub changed : ℕ
  pub missing_source : ℕ
  pub missing_db : ℕ
  pub old_input : ℤ
  pub new_input : ℤ
  pub old_output : ℤ
  pub new_output : ℤ
  pub cache_read : ℤ
  pub from : Option ℕ
  pub to : Option ℕ
  pub applied : Bool

abbrev no_stats : CodexRepairStats
no_stats = record {
  parsed = 0;
  database_rows = 0;
  matched = 0;
  changed = 0;
  missing_source = 0;
  missing_db = 0;
  old_input = pos 0;
  new_input = pos 0;
  old_output = pos 0;
  new_output = pos 0;
  cache_read = pos 0;
  from = none;
  to = none;
  applied = false;
}

abbrev stage_id : StageRow → DetailKey
stage_id s = record { message_id = s.message_id; request_id = s.request_id }

-- The row of a primary key.
unfoldable pub find_stage : DetailKey → List StageRow → Option StageRow
find_stage k [] = none
find_stage k (s ∷ stage) = let rest = find_stage k stage in if stage_id s == k then some s else rest

abbrev stage_row : UsageRecord → StageRow
stage_row e = record {
  message_id = e.message_id;
  request_id = e.request_id;
  input_tokens = e.input_tokens;
  output_tokens = e.output_tokens;
  cache_creation_tokens = e.cache_creation_tokens;
  cache_read_tokens = e.cache_read_tokens;
}

-- loadCodexRepairStageSQL: of the records with one id the first is taken, behind `stage`
unfoldable pub load_stage : List StageRow → List UsageRecord → List StageRow
load_stage stage [] = stage
load_stage stage (e ∷ records) =
    let row : StageRow = stage_row e in
    let skipped = load_stage stage records in
    let taken = load_stage (stage ++ row ∷ []) records in
    if e.message_id == []
    then skipped
    else elim (find_stage (stage_id row) stage) [ some s ↦ skipped | none ↦ taken ]

abbrev int_beq : ℤ → ℤ → Bool
int_beq a b = nat_beq (pos_part a + neg_part b) (pos_part b + neg_part a)

-- IS DISTINCT FROM, of one of the four columns
unfoldable pub differs : StageRow → UsageDetail → Bool
differs s r = not (
    int_beq r.input_tokens s.input_tokens
    && (int_beq r.output_tokens s.output_tokens
        && (int_beq r.cache_creation_tokens s.cache_creation_tokens
            && int_beq r.cache_read_tokens s.cache_read_tokens)))

-- MIN(ts) and MAX(ts)
abbrev min_ts : List UsageDetail → Option ℕ
min_ts [] = none
min_ts (r ∷ rows) =
    let rest = min_ts rows in elim rest [ none ↦ some r.ts | some t ↦ some (min r.ts t) ]

abbrev max_ts : List UsageDetail → Option ℕ
max_ts [] = none
max_ts (r ∷ rows) =
    let rest = max_ts rows in elim rest [ none ↦ some r.ts | some t ↦ some (max r.ts t) ]

module _ (user_id machine_id : Text) where
  -- the CTE `scoped`
  unfoldable pub is_scoped : UsageDetail → Bool
  is_scoped r = r.tool == codes "codex" && (r.user_id == user_id && r.machine_id == machine_id)

  module _ (stage : List StageRow) where
    -- the row of the stage that a scoped row is joined with
    unfoldable pub match_of : UsageDetail → Option StageRow
    unfolding is_scoped
    match_of r = if is_scoped r then find_stage (detail_id r) stage else none

    unfoldable pub is_matched : UsageDetail → Bool
    unfolding match_of
    is_matched r = elim (match_of r) [ none ↦ false | some s ↦ true ]

    -- the CTE `changed`
    unfoldable pub is_changed : UsageDetail → Bool
    unfolding match_of
    is_changed r = elim (match_of r) [ none ↦ false | some s ↦ differs s r ]

    -- SET of updateCodexRepairSQL
    abbrev set_row : StageRow → UsageDetail → UsageDetail
    set_row s r = record r {
      input_tokens = s.input_tokens;
      output_tokens = s.output_tokens;
      cache_creation_tokens = s.cache_creation_tokens;
      cache_read_tokens = s.cache_read_tokens;
    }

    unfoldable pub update_row : UsageDetail → UsageDetail
    unfolding match_of
    update_row r = elim (match_of r) [ none ↦ r | some s ↦ set_row s r ]

    -- a column of the joined row's stage, where there is one
    abbrev staged : (StageRow → ℤ) → UsageDetail → ℤ
    staged f r = elim (match_of r) [ none ↦ pos 0 | some s ↦ f s ]

    abbrev has_detail : List UsageDetail → StageRow → Bool
    has_detail [] s = false
    has_detail (r ∷ rows) s = (is_scoped r && (stage_id s == detail_id r)) || has_detail rows s

    -- codexRepairStatsSQL
    unfoldable pub repair_stats : List UsageDetail → CodexRepairStats
    unfolding is_scoped is_matched is_changed
    repair_stats rows =
        let scoped = keep is_scoped rows in
        let matched = keep is_matched rows in
        let changed = keep is_changed rows in
        record {
          parsed = length stage;
          database_rows = length scoped;
          matched = length matched;
          changed = length changed;
          missing_source = length (keep (λ r. not (is_matched r)) scoped);
          missing_db = length (keep (λ s. not (has_detail rows s)) stage);
          old_input = sum_by (λ (r : UsageDetail). r.input_tokens) matched;
          new_input = sum_by (staged (λ (s : StageRow). s.input_tokens)) matched;
          old_output = sum_by (λ (r : UsageDetail). r.output_tokens) matched;
          new_output = sum_by (staged (λ (s : StageRow). s.output_tokens)) matched;
          cache_read = sum_by (staged (λ (s : StageRow). s.cache_read_tokens)) matched;
          from = min_ts changed;
          to = max_ts changed;
          applied = false;
        }

-- `stats` scanned into 64-bit integers
abbrev pub stats_fit : CodexRepairStats → Bool
stats_fit st =
    fits64 st.old_input
    && (fits64 st.new_input
        && (fits64 st.old_output && (fits64 st.new_output && fits64 st.cache_read)))

abbrev is_set : Option ℕ → Bool
is_set none = false
is_set (some t) = true

-- `validateCodexRepair`; `none` is no error
unfoldable pub validate_codex_repair : CodexRepairStats → Option Text
validate_codex_repair st =
    if ltb 0 st.missing_source
    then some (codes "repair source is incomplete; no changes were applied")
    else if ltb 0 st.changed && not (is_set st.from && is_set st.to)
    then some (codes "changed rows have no timestamp range")
    else none

abbrev nanos : Option ℕ → ℕ
nanos none = 0
nanos (some t) = t * 1000

-- `applyCodexRepair`: the rows, and the daily rows of the days that changed rows lie in
unfoldable pub apply_codex_repair :
    ℕ → Text → Text → List StageRow → CodexRepairStats → UsageTables → Option UsageTables
unfolding update_row
apply_codex_repair now user_id machine_id stage st t =
    elim (rebuild_daily_tx now (nanos st.from) (nanos st.to)
      (record t { detail = map (update_row user_id machine_id stage) t.detail })) [
        | none ↦ none
        | some (rows, t') ↦ some t'
      ]

pub record Repaired : Type 0 where
  pub stats : CodexRepairStats
  pub error : Option Text

-- What fails besides the statements' own errors: the encoding, the transaction's start or the stage;
-- the update; the commit, which may have taken effect all the same (`committed`).
pub record RepairFaults : Type 0 where
  pub staging : Bool
  pub update : Bool
  pub commit : Bool
  pub committed : Bool

abbrev repair_error : CodexRepairStats → Repaired
repair_error st = record { stats = st; error = some (codes "repair failed") }

-- behind the statistics
unfoldable pub finish_repair :
    RepairFaults
    → ℕ
    → Text
    → Text
    → List StageRow
    → Bool
    → CodexRepairStats
    → UsageTables
    → Repaired × UsageTables
unfolding validate_codex_repair apply_codex_repair
finish_repair f now user_id machine_id stage false st t = (record { stats = st; error = none }, t)
finish_repair f now user_id machine_id stage true st t = elim (validate_codex_repair st) [
  | some message ↦ (record { stats = st; error = some message }, t)
  | none ↦
      if nat_beq st.changed 0
      then (record { stats = st; error = none }, t)
      else elim (apply_codex_repair now user_id machine_id stage st t) [
        | none ↦ (repair_error st, t)
        | some t' ↦
            if f.update
            then (repair_error st, t)
            else if f.commit
            then (repair_error st, if f.committed then t' else t)
            else (record { stats = record st { applied = true }; error = none }, t')
      ]
]

-- `RepairCodexUsage`
unfoldable pub repair_codex_usage :
    RepairFaults → ℕ → Text → Text → List UsageRecord → Bool → UsageTables → Repaired × UsageTables
unfolding load_stage repair_stats finish_repair
repair_codex_usage f now user_id machine_id records apply t =
    let stage = load_stage [] records in
    let st = repair_stats user_id machine_id stage t.detail in
    if user_id == [] || machine_id == []
    then (
      record { stats = no_stats; error = some (codes "user_id and machine_id are required") },
      t,
    )
    else if f.staging || not (stats_fit st)
    then (repair_error no_stats, t)
    else finish_repair f now user_id machine_id stage apply st t
