-- ===== src/Examples/Ingest.antt =====
-- internal/server/store.go on a batch of three records, one of them twice, and on a batch of edits.
use token_usage.Prelude.{
  ℕ, ◌/◌, ◌≡◌, refl, true, false, not, ◌==◌, text_eq, Option, none, some, List, [], ◌∷◌, Text,
  codes, length, keep, if◌then◌else◌, text_beq,
}
use token_usage.Prelude.Int.{ℤ, pos, ◌+ℤ◌, fits64}
use token_usage.Types.{UsageRecord, EditRecord}
use token_usage.Table.{lookup, alter}
use token_usage.Store.Keys.{DailyKey, detail_key_beq, daily_key_beq, daily_key_eq, detail_key_eq}
use token_usage.Store.Rollup.{
  has_id, accept, group, upsert_all, insert_rows, run_insert, rollup, sums_of,
}
use token_usage.Store.Rollup.Run.{IsSound}
use token_usage.Store.Usage.{
  UsageTables, usage_stream, insert, input_row, input_rows, detail_id, daily_key, utc_date, single,
  merge, sums_fit,
}
use token_usage.Store.Usage.Insert.{insert-IsSound, insert_idem}
use token_usage.Store.Usage.Rebuild.{
  in_days, delete_days, detail_of_days, insert_all, rebuild_daily_tx, rebuild_daily,
  rebuild_daily_lem, day_nanos,
}
use token_usage.Store.Edits.{
  EditTables, insert_edits, edit_row, edit_rows, edit_id, edit_key, single_edit, merge_edits,
  edit_sums_fit,
}

abbrev to_micros : ℕ → ℕ
to_micros n = n / 1000

abbrev message : Text → ℕ → UsageRecord
message id at = record {
  message_id = id;
  request_id = codes "r";
  session_id = codes "s";
  tool = [];
  model = codes "m";
  timestamp = at;
  input_tokens = pos 10;
  output_tokens = pos 5;
  cache_creation_tokens = pos 4;
  cache_creation_1h_tokens = pos 9;
  cache_read_tokens = pos 0;
  project_path = [];
  backfill = false;
}

abbrev batch : List UsageRecord
batch =
    message (codes "a") 5000
    ∷ message (codes "b") 9000
    ∷ message (codes "a") 5000
    ∷ message [] 1000
    ∷ []

abbrev no_tables : UsageTables
no_tables = record { detail = []; daily = [] }

abbrev inserted : Option (ℕ × ℕ) × UsageTables
inserted = insert to_micros 7 (codes "pc") (codes "ann") false batch no_tables

-- The repeated id is a duplicate, and the record without an id counts for nothing.
insert_taken : inserted.0 ≡ some (2, 1)
unfolding insert run_insert insert_rows accept has_id group upsert_all input_rows input_row
    detail_id daily_key utc_date single merge sums_fit fits64 alter lookup text_beq detail_key_beq
    daily_key_beq ◌+ℤ◌
insert_taken = refl

no_tables-IsSound : IsSound usage_stream no_tables
unfolding lookup rollup
no_tables-IsSound = record { consistent = record { at_key = λ k. refl }; unique = tt }

insert-IsSound_example : IsSound usage_stream inserted.1
insert-IsSound_example =
    insert-IsSound to_micros 7 (codes "pc") (codes "ann") false batch no_tables no_tables-IsSound

abbrev huge_batch : List UsageRecord
huge_batch =
    record (message (codes "c") 5000) { input_tokens = pos 0x7fff_ffff_ffff_ffff }
    ∷ message (codes "d") 5000
    ∷ []

abbrev overflown : Option (ℕ × ℕ) × UsageTables
overflown = insert to_micros 7 (codes "pc") (codes "ann") false huge_batch no_tables

-- A sum beyond the column's range fails the batch.
insert_failed : overflown.0 ≡ none
unfolding insert run_insert insert_rows accept has_id group upsert_all input_rows input_row
    detail_id daily_key utc_date single merge sums_fit fits64 alter lookup text_beq detail_key_beq
    daily_key_beq ◌+ℤ◌
insert_failed = refl

insert_idem_example :
    insert to_micros 8 (codes "laptop") (codes "bob") false batch inserted.1
    ≡ (some (0, length (keep (λ e. not (e.message_id == [])) batch)), inserted.1)
insert_idem_example =
    insert_idem to_micros 7 8 (codes "pc") (codes "laptop") (codes "ann") (codes "bob") false batch
      no_tables insert_taken

abbrev rebuilt : Option ℕ × UsageTables
rebuilt = rebuild_daily false 9 0 0 inserted.1

rebuild_daily_ran : rebuilt.0 ≡ some 1
unfolding rebuild_daily rebuild_daily_tx detail_of_days delete_days insert_all insert run_insert
    insert_rows accept has_id group upsert_all input_rows input_row detail_id daily_key utc_date
    single merge sums_fit fits64 alter lookup text_beq detail_key_beq daily_key_beq ◌+ℤ◌
rebuild_daily_ran = refl

rebuild_daily_lem_example :
    (rebuilt.1.detail ≡ inserted.1.detail)
    × ((k : DailyKey)
        → sums_of (lookup k rebuilt.1.daily) ≡ (
            if in_days (0 / day_nanos) (0 / day_nanos) k.day
            then rollup usage_stream k inserted.1.detail none
            else sums_of (lookup k inserted.1.daily)))
rebuild_daily_lem_example = rebuild_daily_lem false 9 0 0 inserted.1 rebuild_daily_ran

abbrev edit : Text → ℤ → EditRecord
edit id added = record {
  event_id = id;
  session_id = codes "s";
  tool = codes "codex";
  timestamp = 5000;
  lang = [];
  lines_added = added;
  lines_removed = pos 1;
  project_path = codes "/p";
  backfill = true;
}

abbrev edit_batch : List EditRecord
edit_batch = edit (codes "x") (pos 3) ∷ edit (codes "x") (pos 3) ∷ edit [] (pos 2) ∷ []

abbrev no_edits : EditTables
no_edits = record { detail = []; daily = [] }

abbrev edits_inserted : Option (ℕ × ℕ) × EditTables
edits_inserted = insert_edits to_micros 7 (codes "pc") (codes "ann") false edit_batch no_edits

insert_edits_taken : edits_inserted.0 ≡ some (1, 1)
unfolding insert_edits run_insert insert_rows accept has_id group upsert_all edit_rows edit_row
    edit_id edit_key utc_date single_edit merge_edits edit_sums_fit fits64 alter lookup text_beq
    detail_key_beq daily_key_beq ◌+ℤ◌
insert_edits_taken = refl
