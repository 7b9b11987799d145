-- ===== src/Watcher/Run.antt =====
-- cmd/watcher/cli/run.go runOnce and sendBatched, and internal/watcher/checkpoint.go: one tick of the
-- watcher. What `Scanner.Scan` found, and whether the checkpoint's file can be written, are arguments of
-- the tick; the log lines are not modelled.
pub mod Batches
pub mod Tick
pub mod Advance
use token_usage.Prelude.{
  ℕ, zero, suc, ◌+◌, ◌-◌, Bool, true, false, ◌&&◌, Option, none, some, List, [], ◌∷◌, Text, text_eq,
  ltb, nat_beq, length, take, drop, min, if◌then◌else◌, ◌>>=◌,
}
use token_usage.Table.{alter, lookup}
use token_usage.Types.{UsageRecord, EditRecord}
use token_usage.Parsers.Std.{ScanResult, FileState}
use token_usage.Watcher.Upload.{
  Outside, World, Uploader, Sent, sent, failed, send, send_edits, flush,
}

-- The map of the checkpoint, and what its file on disk holds.
pub record Checkpoint : Type 0 where
  pub files : List (Text × FileState)
  pub saved : List (Text × FileState)

-- Checkpoint.Get
unfoldable pub get : Checkpoint → Text → Option FileState
get c path = lookup path c.files

-- Checkpoint.Set
unfoldable pub set : Checkpoint → Text → FileState → Checkpoint
set c path s = record c { files = alter path (λ _. s) c.files }

-- Checkpoint.Save: the file is replaced as a whole, or stays.
unfoldable pub save : Checkpoint → Bool → Checkpoint
save c works = if works then record c { saved = c.files } else c

-- for p, s := range pending { ckpt.Set(p, s) }
unfoldable pub set_all : Checkpoint → List (Text × FileState) → Checkpoint
set_all c [] = c
set_all c ((path, s) ∷ pending) = set_all (set c path s) pending

module _ (o : Outside) where
  -- The loop of sendBatched from `start`. `none` is running out of fuel.
  unfoldable pub send_windows :
      ℕ → ℕ → ℕ → ℕ → (World o → ℕ → ℕ → World o × Sent) → World o → Option (World o × Bool)
  send_windows zero start n batch_size send_range w = if ltb start n then none else some (w, true)
  send_windows (suc fuel) start n batch_size send_range w =
      let step = send_range w start (min (start + batch_size) n) in
      let rest = send_windows fuel (start + batch_size) n batch_size send_range step.0 in
      if ltb start n
      then elim step.1 [ failed err ↦ some (step.0, false) | sent res ↦ rest ]
      else some (w, true)

  -- sendBatched; `none` is the division by zero of a batch size of 0.
  unfoldable pub send_batched :
      ℕ → ℕ → (World o → ℕ → ℕ → World o × Sent) → World o → Option (World o × Bool)
  send_batched n batch_size send_range w =
      if nat_beq n 0
      then some (w, true)
      else if nat_beq batch_size 0
      then none
      else send_windows n 0 n batch_size send_range w

  -- recs[start:end] and the Send of it
  unfoldable pub send_records : Uploader → List UsageRecord → World o → ℕ → ℕ → World o × Sent
  send_records u recs w start end = send o u w (take (end - start) (drop start recs))

  unfoldable pub send_edit_records : Uploader → List EditRecord → World o → ℕ → ℕ → World o × Sent
  send_edit_records u edits w start end = send_edits o u w (take (end - start) (drop start edits))

  -- The usage batches, then the edit batches.
  unfoldable pub send_all : Uploader → ℕ → ScanResult → World o → Option (World o × Bool)
  send_all u batch_size scanned w =
      send_batched (length scanned.usage) batch_size (send_records u scanned.usage) w >>= (λ usage.
        elim usage.1 [
          | false ↦ some usage
          | true ↦
              send_batched (length scanned.edits) batch_size (send_edit_records u scanned.edits)
                usage.0
        ])

  -- The checkpoint advances only if every batch is durable.
  unfoldable pub send_and_save :
      Uploader → ℕ → ScanResult → World o → Checkpoint → Checkpoint → Option (World o × Checkpoint)
  send_and_save u batch_size scanned w advanced c =
      send_all u batch_size scanned w >>= (λ done. some (done.0, if done.1 then advanced else c))

  unfoldable pub run_once :
      Uploader
      → ℕ
      → World o
      → ScanResult
      → List (Text × FileState)
      → Bool
      → Checkpoint
      → Option (World o × Checkpoint)
  run_once u batch_size w scanned pending save_works c =
      let flushed = (flush o u w).0 in
      let advanced = save (set_all c pending) save_works in
      if nat_beq (length scanned.usage) 0 && nat_beq (length scanned.edits) 0
      then (if nat_beq (length pending) 0 then some (flushed, c) else some (flushed, advanced))
      else send_and_save u batch_size scanned flushed advanced c
