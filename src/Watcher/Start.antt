-- ===== src/Watcher/Start.antt =====
-- `DoRun` of cmd/watcher/cli/run.go and `LoadCheckpoint` of internal/watcher/checkpoint.go: from the flags to
-- the loop of ticks. Files, their decoding and the host's name are arguments; the loop is given what each
-- round finds, and ends with the last round, when the context is done. A negative batch size is outside.
pub mod Safe
use token_usage.Prelude.{
  ◌⊎◌, inl, inr, ℕ, Bool, true, false, Option, none, some, List, [], ◌∷◌, Text, text_eq, ◌==◌,
  if◌then◌else◌,
}
use token_usage.Parsers.Std.{FileState}
use token_usage.Watcher.Upload.{Outside, World, Uploader}
use token_usage.Watcher.Run.{Checkpoint}
use token_usage.Watcher.Scan.{Source, Parser, Tree}
use token_usage.Watcher.Scan.Ticks.{tick}
use token_usage.Watcher.Sources.{RunConfig, resolve_sources}

-- What os.ReadFile says.
pub data FileRead : Type 0 where
  missing unreadable : FileRead
  content : Text → FileRead

-- `LoadCheckpoint`; `none` is an error, and a map that is null is empty
unfoldable pub load_checkpoint :
    (Text → Option (List (Text × FileState))) → FileRead → Option Checkpoint
load_checkpoint decode missing = some (record { files = []; saved = [] })
load_checkpoint decode unreadable = none
load_checkpoint decode (content text) = elim (decode text) [
  | none ↦ none
  | some files ↦ some (record { files = files; saved = files })
]

-- What a round of the loop meets: the files have grown by `more`, which the parsers of the round read.
pub record Round : Type 0 where
  pub more : Text → Text
  pub registry : List (Text × Parser)
  pub tree : Tree
  pub save_works : Bool

pub data RunError : Type 0 where
  bad_source : Text → RunError
  no_api_key no_hostname bad_checkpoint : RunError

-- The flags of `RunConfig` behind those of the sources, and the name of the host.
pub record RunFlags : Type 0 where
  pub sources : RunConfig
  pub api_key : Text
  pub buffer_dir : Text
  pub batch : ℕ
  pub once : Bool

module _ (o : Outside) where
  -- the loop of `DoRun`: a round, and further rounds unless --once is given
  unfoldable pub run_loop :
      Uploader
      → ℕ
      → Bool
      → List Source
      → Round
      → List Round
      → World o
      → Checkpoint
      → Option (World o × Checkpoint)
  unfolding tick
  run_loop u batch once sources r [] w c = tick o u batch r.registry r.tree sources r.save_works w c
  run_loop u batch once sources r (next ∷ rounds) w c =
      elim (tick o u batch r.registry r.tree sources r.save_works w c) [
        | none ↦ none
        | some out ↦ elim once [
          | true ↦ some out
          | false ↦ run_loop u batch false sources next rounds out.0 out.1
        ]
      ]

  -- `DoRun`: an error, or how the loop ends; `none` there is the division by zero of a batch size of 0
  unfoldable pub do_run :
      (Text → Option (List (Text × FileState)))
      → RunFlags
      → List Source
      → Text
      → FileRead
      → Round
      → List Round
      → World o
      → RunError ⊎ Option (World o × Checkpoint)
  unfolding resolve_sources load_checkpoint run_loop
  do_run decode flags detected hostname checkpoint_file first rounds w =
      elim (resolve_sources flags.sources detected) [
        | inl spec ↦ inl (bad_source spec)
        | inr sources ↦
            if flags.api_key == []
            then inl no_api_key
            else if hostname == []
            then inl no_hostname
            else elim (load_checkpoint decode checkpoint_file) [
              | none ↦ inl bad_checkpoint
              | some c ↦ inr (
                  run_loop (record { machine_id = hostname; buffer_dir = flags.buffer_dir })
                    flags.batch flags.once sources first rounds w c)
            ]
      ]
