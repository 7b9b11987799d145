-- ===== src/Watcher/Scan/Ticks.antt =====
-- The watcher over time: files that grow, ticks of `runOnce` with its scan, and restarts from the saved
-- checkpoint. The parsers are those of the transcripts that are read by their tail; what a line yields may
-- depend on the time of the scan, and a read may fail.
pub mod Cover
pub mod Safe
use token_usage.Prelude.{
  ◌⊎◌, inl, inr, ℕ, ◌<◌, ◌≡◌, refl, ap, ◌∙◌, sym, Bool, true, false, Option, none, some, List, [],
  ◌∷◌, ◌++◌, append_assoc, append-nil, drop, Option-cases, arith, All, Text, text_eq, if◌then◌else◌,
}
use mathlib.Core.Path.{subst}
use token_usage.Table.{lookup, IsUnique}
use token_usage.Parsers.Std.{ScanResult, FileState}
use token_usage.Parsers.Tail.{empty, append, tail_scan}
use token_usage.Parsers.Tail.Lined.{complete, consumed}
use token_usage.Parsers.Tail.Resume.{file, new_file, collect, first_scan, resume}
use token_usage.Watcher.Upload.{Outside, World, Uploader}
use token_usage.Watcher.Upload.Durable.{IsClocked, IsFresh, AllNamed}
use token_usage.Watcher.Run.{Checkpoint, get, set, set_all, save, run_once}
use token_usage.Watcher.Run.Batches.{All-append}
use token_usage.Watcher.Run.Tick.{records_of, edits_of}
use token_usage.Watcher.Run.Advance.{
  Accounted, AllAccounted, Proceeds, AllAccounted-Proceeds, Advances, run_once-Advances,
}
use token_usage.Watcher.Scan.{Source, Parser, Tree, Pending, prev_state, copy, scan}
use token_usage.Watcher.Scan.Pass.{Visit, lookup-copy}
use token_usage.Watcher.Scan.Order.{all_visits, scan-IsUnique}
use token_usage.Watcher.Scan.Coverage.{Reads, IsRead, scan-IsRead}

-- `runOnce` with the scan that it makes
unfoldable pub tick :
    (o : Outside)
    → Uploader
    → ℕ
    → List (Text × Parser)
    → Tree
    → List Source
    → Bool
    → World o
    → Checkpoint
    → Option (World o × Checkpoint)
tick o u batch_size registry tree sources save_works w c =
    let found = scan registry tree c sources in
    run_once o u batch_size w found.0 found.1 save_works c

-- The watcher and the files that it reads.
pub record System (o : Outside) : Type 0 where
  pub world : World o
  pub checkpoint : Checkpoint
  pub texts : Text → Text

-- `emit` is what a line of a path yields for a tool at the time of a scan.
module _ (emit : ℕ → Text → Text → Text → ScanResult) (inode : Text → ℕ) where
  -- The tail scan of a path for a tool, at a time; reading some of the paths fails.
  abbrev pub tail_of :
      ℕ → (Text → Bool) → (Text → Text) → Text → Text → FileState → ScanResult × FileState × Bool
  tail_of now fails texts path tool prev =
      tail_scan (emit now tool path)
        (record (file (inode path) (texts path)) { read_fails = fails path }) prev

  module _ (o : Outside) (u : Uploader) (batch_size : ℕ) where
    pub data Step (s : System o) : System o → Type 0 where
      grows : (more : Text → Text) → Step s (record s { texts = λ path. s.texts path ++ more path })
      restarts : Step s (record s {
        checkpoint = record { files = s.checkpoint.saved; saved = s.checkpoint.saved };
      })
      ticks :
          (registry : List (Text × Parser)) (tree : Tree) (sources : List Source)
          (save_works : Bool) (now : ℕ) (fails : Text → Bool) (out : World o × Checkpoint)
          → Reads (tail_of now fails s.texts) (all_visits registry tree s.checkpoint sources)
          → tick o u batch_size registry tree sources save_works s.world s.checkpoint ≡ some out
          → Step s (record s { world = out.0; checkpoint = out.1 })

    pub data Reach (s : System o) : System o → Type 0 where
      here : Reach s s
      next : {t v : System o} → Reach s t → Step t v → Reach s v

    -- Every line yielded records at the time of some scan, and they are accounted for.
    abbrev pub LinesAccounted : World o → Text → List Text → Type 0
    LinesAccounted w path =
        All (λ (l : Text). (now : ℕ) × (tool : Text) × AllAccounted o w (emit now tool path l))

    -- A saved state stands at the end of a line of its file, and what the lines up to there yielded is
    -- accounted for.
    abbrev pub IsCovered : World o → (Text → Text) → Text → FileState → Type 0
    IsCovered w texts path s =
        (read : Text) × (rest : Text) × (texts path ≡ read ++ rest)
        × (s ≡ record { inode = inode path; offset = consumed read })
        × LinesAccounted w path (complete read)

    abbrev pub AllCovered : World o → (Text → Text) → List (Text × FileState) → Type 0
    AllCovered w texts files =
        (path : Text) (s : FileState) → lookup path files ≡ some s → IsCovered w texts path s

    pub record IsSafe (s : System o) : Type 0 where
      pub fresh : IsFresh o s.world
      pub named : AllNamed o s.world
      pub files : AllCovered s.world s.texts s.checkpoint.files
      pub saved : AllCovered s.world s.texts s.checkpoint.saved
