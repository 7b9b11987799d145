-- ===== src/Examples/Scans.antt =====
-- internal/watcher/scanner.go: a source of two transcripts, scanned and sent tick by tick.
use token_usage.Prelude.{
  inr, ◌≡◌, refl, ℕ, Bool, true, false, none, some, List, [], ◌∷◌, ◌++◌, Text, text_eq, codes,
  arith, has_suffix, text_beq, has_prefix, ◌==◌, if◌then◌else◌,
}
use token_usage.Table.{lookup}
use token_usage.Parsers.Std.{ScanResult}
use token_usage.Watcher.Upload.{World}
use token_usage.Watcher.Run.{Checkpoint}
use token_usage.Watcher.Run.Advance.{run_once-Advances}
use token_usage.Watcher.Scan.{Source, Parser, Tree, WalkEntry, source_root, scan}
use token_usage.Watcher.Scan.Pass.{pass_results, pass_state}
use token_usage.Watcher.Scan.Order.{all_visits, error_of, scan_lem}
use token_usage.Watcher.Scan.Coverage.{Reads}
use token_usage.Watcher.Scan.Ticks.{System, tick, tail_of, grows, ticks, here, next, Reach, IsSafe}
use token_usage.Watcher.Scan.Ticks.Safe.{Reach-IsSafe}
use token_usage.Watcher.Sources.{resolve_sources, parse_sources, parse_source, index_byte}
use token_usage.Watcher.Start.{missing, load_checkpoint, Round, RunFlags, do_run}
use token_usage.Watcher.Start.Safe.{do_run-Ends}
use token_usage.Examples.Uploads.{outside, outside-IsClocked, uploader}
use token_usage.Examples.Ticks.{one}

abbrev emit : ℕ → Text → Text → Text → ScanResult
emit now tool path line = one (tool ++ line)

-- a file that cannot be read
abbrev fails : Text → Bool
fails path = path == codes "/s/c.jsonl"

abbrev inode : Text → ℕ
inode path = 7

abbrev texts : Text → Text
texts path = codes "first\nsec"

abbrev parser : Parser
parser path tool prev = tail_of emit inode 5 fails texts path tool prev

abbrev registry : List (Text × Parser)
registry = (codes "claude-code", parser) ∷ []

abbrev entry : Text → Bool → WalkEntry
entry path is_dir = record { path = path; failed = false; is_dir = is_dir }

abbrev tree : Tree
tree = record {
  stat = λ root. if root == codes "/s" then some true else none;
  walk = λ root.
      entry (codes "/s") true
      ∷ entry (codes "/s/a.jsonl") false
      ∷ entry (codes "/s/b.md") false
      ∷ [];
}

abbrev sources : List Source
sources =
    record { tool = codes "claude-code"; root = codes "/s" }
    ∷ record { tool = codes "codex"; root = codes "/none" }
    ∷ []

abbrev checkpoint : Checkpoint
checkpoint = record { files = []; saved = [] }

-- The second source has no parser of its own and its root is not there.
scan_error : (scan registry tree checkpoint sources).2 ≡ some (source_root (codes "codex"))
unfolding scan text_beq
scan_error = refl

scan_lem_example :
    let out = scan registry tree checkpoint sources in
    let visits = all_visits registry tree checkpoint sources in
    (out.0 ≡ pass_results checkpoint visits)
    × ((path : Text) → lookup path out.1 ≡ pass_state checkpoint path visits)
    × (out.2 ≡ error_of registry tree checkpoint sources)
scan_lem_example = scan_lem registry tree checkpoint sources

abbrev start : System outside
start = record {
  world = record { env = 0; buffer = []; posts = [] };
  checkpoint = checkpoint;
  texts = texts;
}

start-IsSafe : IsSafe emit inode outside uploader 2 start
unfolding lookup
start-IsSafe = record {
  fresh = tt;
  named = tt;
  files = λ path s e. absurd (ground (arith, e));
  saved = λ path s e. absurd (ground (arith, e));
}

first-Reads : Reads (tail_of emit inode 5 fails texts) (all_visits registry tree checkpoint sources)
unfolding all_visits text_beq has_suffix has_prefix lookup
first-Reads = (λ prev. refl, tt)

first_tick :
    (out : World outside × Checkpoint) × (tick outside uploader 2 registry tree sources true
        start.world checkpoint
      ≡ some out)
unfolding tick
first_tick =
    let ran =
      run_once-Advances outside outside-IsClocked uploader 2 start.world
        (scan registry tree checkpoint sources).0 (scan registry tree checkpoint sources).1 true
        checkpoint (omega arith) tt tt in
    (ran.0, ran.1)

abbrev after : System outside
after = record start { world = first_tick.0.0; checkpoint = first_tick.0.1 }

Reach-IsSafe_example :
    IsSafe emit inode outside uploader 2
      (record after { texts = λ path. texts path ++ codes "ond\n" })
Reach-IsSafe_example =
    Reach-IsSafe emit inode outside uploader 2 outside-IsClocked (omega arith) start-IsSafe (
      next
        (next here (ticks registry tree sources true 5 fails first_tick.0 first-Reads first_tick.1))
        (grows (λ path. codes "ond\n")))

-- the second line is finished, and then nothing more is written
abbrev rounds_texts : Text → Text
rounds_texts path = texts path ++ codes "ond\n"

abbrev reader : (Text → Text) → List (Text × Parser)
reader files =
    (codes "claude-code", λ path tool prev. tail_of emit inode 6 (λ p. false) files path tool prev)
    ∷ []

abbrev first_round : Round
first_round = record {
  more = λ path. codes "ond\n";
  registry = reader rounds_texts;
  tree = tree;
  save_works = false;
}

abbrev next_round : Round
next_round = record {
  more = λ path. [];
  registry = reader (λ path. rounds_texts path ++ []);
  tree = tree;
  save_works = true;
}

abbrev flags : RunFlags
flags = record {
  sources = record {
    sources = codes "claude-code=/s" ∷ [];
    root = [];
    tool = [];
    is_single = false;
  };
  api_key = codes "tuk_A";
  buffer_dir = codes "b";
  batch = 2;
  once = false;
}

flags_sources :
    resolve_sources flags.sources []
    ≡ inr (record { tool = codes "claude-code"; root = codes "/s" } ∷ [])
unfolding resolve_sources parse_sources parse_source index_byte
flags_sources = refl

key_given : flags.api_key == [] ≡ false
unfolding text_beq
key_given = refl

host_named : codes "pc" == [] ≡ false
unfolding text_beq
host_named = refl

nothing_saved : load_checkpoint (λ text. none) missing ≡ some checkpoint
unfolding load_checkpoint
nothing_saved = refl

abbrev one_source : List Source
one_source = record { tool = codes "claude-code"; root = codes "/s" } ∷ []

first_round-Reads :
    (c : Checkpoint)
    → Reads
        (tail_of emit inode 6 (λ p. false) rounds_texts)
        (all_visits first_round.registry tree c one_source)
unfolding all_visits text_beq has_suffix has_prefix lookup
first_round-Reads c = (λ prev. refl, tt)

next_round-Reads :
    (c : Checkpoint)
    → Reads
        (tail_of emit inode 6 (λ p. false) (λ path. rounds_texts path ++ []))
        (all_visits next_round.registry tree c one_source)
unfolding all_visits text_beq has_suffix has_prefix lookup
next_round-Reads c = (λ prev. refl, tt)

do_run-Ends_example :
    (end : System outside) × (do_run outside
        (λ text. none)
        flags
        []
        (codes "pc")
        missing
        first_round
        (next_round ∷ [])
        start.world
      ≡ inr (some (end.world, end.checkpoint)))
    × Reach emit inode outside
        (record { machine_id = codes "pc"; buffer_dir = codes "b" })
        2
        start
        end
    × IsSafe emit inode outside (record { machine_id = codes "pc"; buffer_dir = codes "b" }) 2 end
do_run-Ends_example =
    do_run-Ends emit inode outside outside-IsClocked (λ text. none) flags []
      (record { tool = codes "claude-code"; root = codes "/s" } ∷ []) (codes "pc") missing
      first_round (next_round ∷ []) start (omega arith) flags_sources key_given host_named
      nothing_saved ((6, (λ p. false), first_round-Reads), (6, (λ p. false), next_round-Reads))
      (record { fresh = tt; named = tt; files = start-IsSafe.files; saved = start-IsSafe.saved })
