-- ===== src/Examples/Repairs.antt =====
-- internal/server/store_repair.go on one Codex row that was counted wrong.
use token_usage.Prelude.{
  ℕ, ◌/◌, ◌≡◌, refl, Bool, true, false, text_eq, [], ◌∷◌, codes, text_beq, has_suffix, Text, some,
  List,
}
use token_usage.Prelude.Int.{pos, ◌+ℤ◌, fits64}
use token_usage.Types.{UsageRecord}
use token_usage.Table.{lookup, alter}
use token_usage.Store.Keys.{detail_key_beq, daily_key_beq, daily_key_eq, detail_key_eq}
use token_usage.Store.Rollup.{has_id, accept, group, upsert_all, insert_rows, run_insert, rollup}
use token_usage.Store.Rollup.Run.{IsSound}
use token_usage.Store.Usage.{
  UsageTables, usage_stream, insert, input_row, input_rows, detail_id, daily_key, utc_date, single,
  merge, sums_fit,
}
use token_usage.Store.Usage.Insert.{insert-IsSound}
use token_usage.Store.Usage.Rebuild.{delete_days, detail_of_days, insert_all, rebuild_daily_tx}
use token_usage.Store.Repair.{
  Repaired, RepairFaults, find_stage, load_stage, differs, is_scoped, match_of, is_matched,
  is_changed, update_row, repair_stats, validate_codex_repair, apply_codex_repair, finish_repair,
  repair_codex_usage,
}
use token_usage.Store.Repair.Run.{repair_codex_usage_idem}
use token_usage.Watcher.Run.{get}
use token_usage.Watcher.Scan.{Parser, Tree, scan, scan_file, prev_state}
use token_usage.Store.Repair.Rows.{AreRepaired}
use token_usage.Server.Admin.{
  new_checkpoint, sessions_of, RepairRun, codex_repair, repair_report, repair_mode,
}
use token_usage.Server.Admin.Honest.{IsHonest, mode_of, codex_repair-IsHonest}

abbrev to_micros : ℕ → ℕ
to_micros n = n / 1000

abbrev counted : ℕ → UsageRecord
counted input = record {
  message_id = codes "a";
  request_id = codes "r";
  session_id = codes "s";
  tool = codes "codex";
  model = codes "m";
  timestamp = 5000;
  input_tokens = pos input;
  output_tokens = pos 5;
  cache_creation_tokens = pos 0;
  cache_creation_1h_tokens = pos 0;
  cache_read_tokens = pos 2;
  project_path = [];
  backfill = false;
}

abbrev empty_tables : UsageTables
empty_tables = record { detail = []; daily = [] }

abbrev miscounted : UsageTables
miscounted = (insert to_micros 7 (codes "pc") (codes "ann") false (counted 12 ∷ []) empty_tables).1

empty_tables-IsSound : IsSound usage_stream empty_tables
unfolding lookup rollup
empty_tables-IsSound = record { consistent = record { at_key = λ k. refl }; unique = tt }

miscounted-IsSound : IsSound usage_stream miscounted
miscounted-IsSound =
    insert-IsSound to_micros 7 (codes "pc") (codes "ann") false (counted 12 ∷ []) empty_tables
      empty_tables-IsSound

abbrev no_faults : RepairFaults
no_faults = record { staging = false; update = false; commit = false; committed = false }

abbrev repaired : Bool → Repaired × UsageTables
repaired apply =
    repair_codex_usage no_faults 9 (codes "ann") (codes "pc") (counted 10 ∷ []) apply miscounted

repair_applied : (repaired true).0.stats.applied ≡ true
unfolding repair_codex_usage finish_repair apply_codex_repair validate_codex_repair repair_stats
    load_stage find_stage differs is_scoped match_of is_matched is_changed update_row
    rebuild_daily_tx detail_of_days delete_days insert_all insert run_insert insert_rows accept
    has_id group upsert_all input_rows input_row detail_id daily_key utc_date single merge sums_fit
    fits64 alter lookup text_beq detail_key_beq daily_key_beq ◌+ℤ◌
repair_applied = refl

repair_codex_usage_idem_example :
    AreRepaired
      (codes "ann")
      (codes "pc")
      (load_stage [] (counted 10 ∷ []))
      miscounted.detail
      (repaired true).1.detail
    × ((repair_codex_usage no_faults 11
          (codes "ann")
          (codes "pc")
          (counted 10 ∷ [])
          true
          (repaired true).1).1
        ≡ (repaired true).1)
repair_codex_usage_idem_example =
    repair_codex_usage_idem 9 11 (codes "ann") (codes "pc") no_faults no_faults (counted 10 ∷ [])
      true true miscounted repair_applied

-- one transcript, whose parser finds the record
abbrev sessions : Tree
sessions = record {
  stat = λ path. some true;
  walk = λ path. record { path = codes "/s/a.jsonl"; failed = false; is_dir = false } ∷ [];
}

abbrev registry : List (Text × Parser)
registry =
    (codes "codex", λ path tool prev. (record { usage = counted 10 ∷ []; edits = [] }, prev, false))
    ∷ []

abbrev repair_run : RepairRun × UsageTables
repair_run =
    codex_repair registry sessions true no_faults 9 (codes "/s") (codes "ann") (codes "pc") true
      miscounted

applied_said : mode_of repair_run.0 ≡ some (codes "APPLIED")
unfolding codex_repair scan scan_file prev_state get has_suffix repair_report repair_mode
    repair_codex_usage finish_repair apply_codex_repair validate_codex_repair repair_stats
    load_stage find_stage differs is_scoped match_of is_matched is_changed update_row
    rebuild_daily_tx detail_of_days delete_days insert_all insert run_insert insert_rows accept
    has_id group upsert_all input_rows input_row detail_id daily_key utc_date single merge sums_fit
    fits64 alter lookup text_beq detail_key_beq daily_key_beq ◌+ℤ◌
applied_said = refl

codex_repair-IsHonest_example :
    IsHonest no_faults
      (codes "ann")
      (codes "pc")
      (scan registry sessions new_checkpoint (sessions_of (codes "/s"))).0.usage
      true
      miscounted
      repair_run
    × IsSound usage_stream repair_run.1
codex_repair-IsHonest_example =
    codex_repair-IsHonest registry sessions true no_faults 9 (codes "/s") (codes "ann") (codes "pc")
      true miscounted miscounted-IsSound
