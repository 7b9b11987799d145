-- ===== src/Watcher/Scan/Ticks/Safe.antt =====
-- Nothing that a checkpoint says was read is lost, whatever happens between the ticks.
use token_usage.Prelude.{inl, inr, ℕ, ◌<◌, ◌≡◌, Bool, true, false, some, List, arith, Text, text_eq}
use mathlib.Core.Path.{subst}
use token_usage.Table.{IsUnique}
use token_usage.Parsers.Std.{ScanResult}
use token_usage.Watcher.Upload.{Outside, World, Uploader}
use token_usage.Watcher.Upload.Durable.{IsClocked}
use token_usage.Watcher.Run.{Checkpoint, set_all, save}
use token_usage.Watcher.Run.Tick.{records_of, edits_of}
use token_usage.Watcher.Run.Advance.{Accounted, Proceeds, run_once-Advances}
use token_usage.Watcher.Scan.{Source, Parser, Tree, Pending, scan}
use token_usage.Watcher.Scan.Order.{all_visits, scan-IsUnique}
use token_usage.Watcher.Scan.Coverage.{Reads, scan-IsRead}
use token_usage.Watcher.Scan.Ticks.{
  System, tick, tail_of, Step, grows, restarts, ticks, Reach, here, next, AllCovered, IsSafe,
}
use token_usage.Watcher.Scan.Ticks.Cover.{
  IsCovered-grows, IsRead-Covered, set_all-copy, set_all-saved, AllCovered-copy,
  AllCovered-Proceeds,
}

module _ (emit : ℕ → Text → Text → Text → ScanResult) (inode : Text → ℕ) where
  module _ (o : Outside) (u : Uploader) (batch_size : ℕ) where
    module _ (c : IsClocked o) (size : 0 < batch_size) where
      -- the checkpoint that takes the states of a scan
      advanced-IsSafe :
          (s : System o) (v : World o) (pending : Pending) (save_works : Bool)
          → IsSafe emit inode o u batch_size s
          → Proceeds o s.world v
          → IsUnique pending
          → AllCovered emit inode o u batch_size v s.texts pending
          → IsSafe emit inode o u batch_size
              (record s { world = v; checkpoint = save (set_all s.checkpoint pending) save_works })
      unfolding save
      advanced-IsSafe s v pending save_works safe p unique new =
          let old =
            AllCovered-Proceeds emit inode o u batch_size s.world v s.texts s.checkpoint.files p
              safe.files in
          let kept =
            AllCovered-Proceeds emit inode o u batch_size s.world v s.texts s.checkpoint.saved p
              safe.saved in
          let files : AllCovered emit inode o u batch_size v s.texts
              (set_all s.checkpoint pending).files =
            rw (set_all-copy emit inode o u batch_size s.checkpoint pending) (
              AllCovered-copy emit inode o u batch_size v s.texts s.checkpoint.files pending unique
                old new) in
          elim save_works
            as (λ b.
              IsSafe emit inode o u batch_size
                (record s { world = v; checkpoint = save (set_all s.checkpoint pending) b })) [
                  | true ↦ record { fresh = p.fresh; named = p.named; files = files; saved = files }
                  | false ↦ record {
                    fresh = p.fresh;
                    named = p.named;
                    files = files;
                    saved = rw (set_all-saved emit inode o u batch_size s.checkpoint pending) kept;
                  }
                ]

      tick-IsSafe :
          (s : System o) (registry : List (Text × Parser)) (tree : Tree) (sources : List Source)
          (save_works : Bool) (now : ℕ) (fails : Text → Bool) (out : World o × Checkpoint)
          → Reads
              (tail_of emit inode now fails s.texts)
              (all_visits registry tree s.checkpoint sources)
          → tick o u batch_size registry tree sources save_works s.world s.checkpoint ≡ some out
          → IsSafe emit inode o u batch_size s
          → IsSafe emit inode o u batch_size (record s { world = out.0; checkpoint = out.1 })
      unfolding tick
      tick-IsSafe s registry tree sources save_works now fails out reads done safe =
          let found = scan registry tree s.checkpoint sources in
          let (end, ran, (p, d)) =
            run_once-Advances o c u batch_size s.world found.0 found.1 save_works s.checkpoint size
              safe.fresh safe.named in
          let same : end ≡ out = ground (arith, ran, done) in
          let before =
            AllCovered-Proceeds emit inode o u batch_size s.world end.0 s.texts s.checkpoint.files p
              safe.files in
          subst (λ r. IsSafe emit inode o u batch_size (record s { world = r.0; checkpoint = r.1 }))
            same
            (elim d [
              | inl stays ↦ rw stays (record {
                fresh = p.fresh;
                named = p.named;
                files = before;
                saved =
                    AllCovered-Proceeds emit inode o u batch_size s.world end.0 s.texts
                      s.checkpoint.saved p safe.saved;
              })
              | inr (moved, all) ↦ rw moved (
                  advanced-IsSafe s end.0 found.1 save_works safe p
                    (scan-IsUnique registry tree s.checkpoint sources)
                    (λ path st e.
                      IsRead-Covered emit inode o u batch_size end.0 s.texts s.checkpoint now fails
                        before path st
                        (scan-IsRead (Accounted o records_of end.0) (Accounted o edits_of end.0)
                          (tail_of emit inode now fails s.texts) s.checkpoint registry tree sources
                          reads all path st e)))
            ])

      Step-IsSafe :
          {s t : System o}
          → Step emit inode o u batch_size s t
          → IsSafe emit inode o u batch_size s
          → IsSafe emit inode o u batch_size t
      Step-IsSafe {s} (grows more) safe = record {
        fresh = safe.fresh;
        named = safe.named;
        files = λ path st e.
            IsCovered-grows emit inode o u batch_size s.world s.texts more path st
              (safe.files path st e);
        saved = λ path st e.
            IsCovered-grows emit inode o u batch_size s.world s.texts more path st
              (safe.saved path st e);
      }
      Step-IsSafe {s} restarts safe = record {
        fresh = safe.fresh;
        named = safe.named;
        files = safe.saved;
        saved = safe.saved;
      }
      Step-IsSafe {s} (ticks registry tree sources save_works now fails out reads done) safe =
          tick-IsSafe s registry tree sources save_works now fails out reads done safe

      -- The watcher loses nothing that its checkpoint passes over. From a state in which this holds, as at
      -- the first start, and through any ticks that end, at any times and with reads that fail, growth of
      -- files and restarts from the saved checkpoint: each file state in the checkpoint, in memory or
      -- saved, stands at the end of a line of its file, and every usage record and edit that the lines up
      -- to there yielded to a scan, each line at the time of that scan, is in a batch that the server has
      -- taken, or refused with the status 400, 404, 410, 413 or 422, or that is in the spool folder. The
      -- files are read by their tail, do not change where they were read, do not grow during a scan and
      -- keep their inode, the clock moves on, and the batch size is not 0.
      pub Reach-IsSafe :
          {s t : System o}
          → IsSafe emit inode o u batch_size s
          → Reach emit inode o u batch_size s t
          → IsSafe emit inode o u batch_size t
      Reach-IsSafe safe here = safe
      Reach-IsSafe safe (next r st) = Step-IsSafe st (Reach-IsSafe safe r)
