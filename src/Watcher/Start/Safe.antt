-- ===== src/Watcher/Start/Safe.antt =====
-- The watcher from its start: its loop is made of the steps of Scan.Ticks.
use token_usage.Prelude.{
  inr, ℕ, ◌<◌, ◌≡◌, refl, ap, Bool, true, false, Option, some, List, [], ◌∷◌, ◌++◌, Text, text_eq,
  ◌==◌,
}
use token_usage.Parsers.Std.{ScanResult, FileState}
use token_usage.Watcher.Upload.{Outside, World, Uploader}
use token_usage.Watcher.Upload.Durable.{IsClocked}
use token_usage.Watcher.Run.{Checkpoint}
use token_usage.Watcher.Run.Advance.{run_once-Advances}
use token_usage.Watcher.Scan.{Source, scan}
use token_usage.Watcher.Scan.Ticks.{
  System, tick, tail_of, grows, restarts, ticks, Reach, here, next, IsSafe,
}
use token_usage.Watcher.Scan.Ticks.Safe.{Reach-IsSafe}
use token_usage.Watcher.Sources.{resolve_sources}
use token_usage.Watcher.Start.{FileRead, load_checkpoint, Round, RunFlags, run_loop, do_run}
use token_usage.Watcher.Scan.Order.{all_visits}
use token_usage.Watcher.Scan.Coverage.{Reads}

module _ (emit : ℕ → Text → Text → Text → ScanResult) (inode : Text → ℕ) where
  abbrev pub grown : (Text → Text) → Round → Text → Text
  grown texts r path = texts path ++ r.more path

  -- The files that a round visits are read by their tail, as they are then; some of the reads may fail.
  abbrev pub IsTail : List Source → (Text → Text) → Round → Type 0
  IsTail sources texts r =
      (now : ℕ) × (fails : Text → Bool) × ((c : Checkpoint)
        → Reads (tail_of emit inode now fails (grown texts r))
            (all_visits r.registry r.tree c sources))

  abbrev pub AllTail : List Source → (Text → Text) → Round → List Round → Type 0
  AllTail sources texts r [] = IsTail sources texts r
  AllTail sources texts r (n ∷ rounds) =
      IsTail sources texts r × AllTail sources (grown texts r) n rounds

  module _ (o : Outside) (c : IsClocked o) (u : Uploader) (batch : ℕ) (size : 0 < batch) where
    -- Where the loop ends: a state that is reached, and is safe.
    abbrev Ends : System o → Option (World o × Checkpoint) → Type 0
    Ends s result =
        (end : System o) × (result ≡ some (end.world, end.checkpoint))
        × Reach emit inode o u batch s end
        × IsSafe emit inode o u batch end

    Reach-trans :
        {s t v : System o}
        → Reach emit inode o u batch s t
        → Reach emit inode o u batch t v
        → Reach emit inode o u batch s v
    Reach-trans r here = r
    Reach-trans r (next q st) = next (Reach-trans r q) st

    Ends-after :
        {s t : System o} {result : Option (World o × Checkpoint)}
        → Reach emit inode o u batch s t
        → Ends t result
        → Ends s result
    Ends-after r (end, e, q, safe) = (end, e, Reach-trans r q, safe)

    -- a round ends, with the state that its tick steps to
    round-Ends :
        (sources : List Source) (r : Round) (s : System o)
        → IsTail sources s.texts r
        → IsSafe emit inode o u batch s
        → (out : World o × Checkpoint) × (tick o u batch r.registry r.tree sources r.save_works
              s.world s.checkpoint
            ≡ some out)
          × Reach emit inode o u batch s
              (record { world = out.0; checkpoint = out.1; texts = grown s.texts r })
    unfolding tick
    round-Ends sources r s (now, fails, reads) safe =
        let found = scan r.registry r.tree s.checkpoint sources in
        let ran =
          run_once-Advances o c u batch s.world found.0 found.1 r.save_works s.checkpoint size
            safe.fresh safe.named in
        (
          ran.0,
          ran.1,
          next (next here (grows r.more)) (
              ticks r.registry r.tree sources r.save_works now fails ran.0 (reads s.checkpoint)
                ran.1),
        )

    run_loop-Ends :
        (once : Bool) (sources : List Source) (r : Round) (rounds : List Round) (s : System o)
        → AllTail sources s.texts r rounds
        → IsSafe emit inode o u batch s
        → Ends s (run_loop o u batch once sources r rounds s.world s.checkpoint)
    unfolding run_loop
    run_loop-Ends once sources r [] s reads safe =
        let (out, ran, reach) = round-Ends sources r s reads safe in
        (
          record { world = out.0; checkpoint = out.1; texts = grown s.texts r },
          ran,
          reach,
          Reach-IsSafe emit inode o u batch c size safe reach,
        )
    run_loop-Ends true sources r (n ∷ rounds) s (reads, later) safe =
        let (out, ran, reach) = round-Ends sources r s reads safe in
        (
          record { world = out.0; checkpoint = out.1; texts = grown s.texts r },
          rw (run_loop, ran) refl,
          reach,
          Reach-IsSafe emit inode o u batch c size safe reach,
        )
    run_loop-Ends false sources r (n ∷ rounds) s (reads, later) safe =
        let (out, ran, reach) = round-Ends sources r s reads safe in
        let mid : System o = record {
          world = out.0;
          checkpoint = out.1;
          texts = grown s.texts r;
        } in
        rw (run_loop, ran)
          (Ends-after reach (
            run_loop-Ends false sources n rounds mid later
              (Reach-IsSafe emit inode o u batch c size safe reach)))

  -- A run of the watcher whose flags are right, on a host with a name, and whose checkpoint file holds what
  -- the watcher before it has saved, does not fail: the loop ends, having made steps of the watcher only,
  -- and what its checkpoint passes over is not lost. The files that it visits are read by their tail, as
  -- the transcripts of claude-code and pi are, do not grow during a scan and keep their inode, the clock
  -- moves on, and the batch size is not 0.
  pub do_run-Ends :
      (o : Outside) (c : IsClocked o) (decode : Text → Option (List (Text × FileState)))
      (flags : RunFlags) (detected sources : List Source) (hostname : Text) (file : FileRead)
      (first : Round) (rounds : List Round) (s : System o)
      → let u : Uploader = record { machine_id = hostname; buffer_dir = flags.buffer_dir } in
        0 < flags.batch
        → resolve_sources flags.sources detected ≡ inr sources
        → flags.api_key == [] ≡ false
        → hostname == [] ≡ false
        → load_checkpoint decode file
          ≡ some (record { files = s.checkpoint.saved; saved = s.checkpoint.saved })
        → AllTail sources s.texts first rounds
        → IsSafe emit inode o u flags.batch s
        → (end : System o) × (do_run o decode flags detected hostname file first rounds s.world
            ≡ inr (some (end.world, end.checkpoint)))
          × Reach emit inode o u flags.batch s end
          × IsSafe emit inode o u flags.batch end
  unfolding do_run
  do_run-Ends o c decode flags detected sources hostname file first rounds s size found key host
        loaded reads safe =
      let u : Uploader = record { machine_id = hostname; buffer_dir = flags.buffer_dir } in
      let saved : Checkpoint = record { files = s.checkpoint.saved; saved = s.checkpoint.saved } in
      let started : System o = record s { checkpoint = saved } in
      let restart : Reach emit inode o u flags.batch s started = next here restarts in
      let (end, ran, reach, still) = Ends-after o c u flags.batch size restart (
        run_loop-Ends o c u flags.batch size flags.once sources first rounds started reads
          (Reach-IsSafe emit inode o u flags.batch c size safe restart)) in
      (end, rw (do_run, found, key, host, loaded) (ap inr ran), reach, still)
