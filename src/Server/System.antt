-- ===== src/Server/System.antt =====
-- `runServer` of cmd/server/main.go, which puts the API and the worker on one store, and codex-repair, which
-- works on the same database: what each of them does to it, in whatever order they come. The two inserts of
-- a request are one event, since they write different tables.
use token_usage.Prelude.{◌⊎◌, ℕ, Bool, List, [], ◌∷◌, Text}
use token_usage.Types.{UsageRecord, IngestRequest}
use token_usage.Store.Keys.{daily_key_eq, detail_key_eq}
use token_usage.Store.Usage.Rebuild.{rebuild_daily, rebuild_daily-IsConsistent}
use token_usage.Store.Usage.Rebuild.Keyed.{rebuild_daily-IsUnique, rebuild_daily-HasUniqueIds}
use token_usage.Store.Repair.{RepairFaults, repair_codex_usage}
use token_usage.Store.Repair.Run.{repair_codex_usage-IsSound, repair_codex_usage-IsUnique}
use token_usage.Server.Ingest.{Database, Request, Circumstances, handle_ingest}
use token_usage.Server.Ingest.Sound.{AreSound, handle_ingest-AreSound}
use token_usage.Server.Worker.{utc_day, first_deep_day, rebuild_today, rebuild_deep}

-- A request to /ingest, a run of a loop of the worker at a reading of the clock, or a run of codex-repair.
pub data Event : Type 0 where
  ingests : Circumstances → Request → Event
  rebuilds_today : (fault : Bool) (now clock : ℕ) → Event
  rebuilds_deep : (fault : Bool) (now deep_days clock : ℕ) → Event
  repairs :
      (f : RepairFaults) (now : ℕ) (user_id machine_id : Text) (records : List UsageRecord)
      (apply : Bool)
      → Event

module _ (sha256 : Text → List ℕ) (decode : Text → Text ⊎ IngestRequest) (micros : ℕ → ℕ) where
  unfoldable pub handle_event : Event → Database → Database
  unfolding handle_ingest rebuild_today rebuild_deep repair_codex_usage
  handle_event (ingests e r) db = (handle_ingest sha256 decode micros e r db).1
  handle_event (rebuilds_today fault now clock) db = record db {
    usage = (rebuild_today fault now clock db.usage).1;
  }
  handle_event (rebuilds_deep fault now deep_days clock) db = record db {
    usage = (rebuild_deep fault now deep_days clock db.usage).1;
  }
  handle_event (repairs f now user_id machine_id records apply) db = record db {
    usage = (repair_codex_usage f now user_id machine_id records apply db.usage).1;
  }

  -- the events one after the other
  unfoldable pub run_events : List Event → Database → Database
  unfolding handle_event
  run_events [] db = db
  run_events (e ∷ events) db = run_events events (handle_event e db)

  rebuilt-AreSound :
      (fault : Bool) (now from to : ℕ) (db : Database)
      → AreSound db
      → AreSound (record db { usage = (rebuild_daily fault now from to db.usage).1 })
  rebuilt-AreSound fault now from to db h = record {
    usage = record {
      consistent = rebuild_daily-IsConsistent fault now from to db.usage h.usage.consistent;
      unique = rebuild_daily-HasUniqueIds fault now from to db.usage h.usage.unique;
    };
    edits = h.edits;
    keyed = rebuild_daily-IsUnique fault now from to db.usage h.keyed;
  }

  handle_event-AreSound : (e : Event) (db : Database) → AreSound db → AreSound (handle_event e db)
  unfolding handle_event rebuild_today rebuild_deep
  handle_event-AreSound (ingests e r) db h = handle_ingest-AreSound sha256 decode micros e r db h
  handle_event-AreSound (rebuilds_today fault now clock) db h =
      rebuilt-AreSound fault now (utc_day clock) (utc_day clock) db h
  handle_event-AreSound (rebuilds_deep fault now deep_days clock) db h =
      rebuilt-AreSound fault now (first_deep_day deep_days clock) (utc_day clock) db h
  handle_event-AreSound (repairs f now user_id machine_id records apply) db h = record {
    usage = repair_codex_usage-IsSound now user_id machine_id f records apply db.usage h.usage;
    edits = h.edits;
    keyed = repair_codex_usage-IsUnique now user_id machine_id f records apply db.usage h.keyed;
  }

  -- Whatever requests come, whenever the worker rebuilds and codex-repair runs, in whatever order, and
  -- whatever fails in them: the daily tables say what the detail rows sum up to, no id stands twice, and no
  -- two daily usage rows have one key, if this was so before.
  pub run_events-AreSound :
      (events : List Event) (db : Database) → AreSound db → AreSound (run_events events db)
  unfolding run_events
  run_events-AreSound [] db h = h
  run_events-AreSound (e ∷ events) db h =
      run_events-AreSound events (handle_event e db) (handle_event-AreSound e db h)
