-- ===== src/Watcher/Run/Advance.antt =====
-- A tick against the whole history of the spool: what becomes of earlier batches.
use token_usage.Prelude.{
  ◌⊎◌, inl, inr, ℕ, ◌<◌, ◌≡◌, refl, Bool, true, ◌&&◌, some, List, [], ◌∷◌, arith, All, length,
  nat_beq, Bool-cases, Text,
}
use mathlib.Core.List.{Memᴰ}
use token_usage.Types.{IngestRequest}
use token_usage.Parsers.Std.{ScanResult, FileState}
use token_usage.Watcher.Upload.{Outside, World, Uploader, flush}
use token_usage.Watcher.Upload.Durable.{IsClocked, IsFresh, AllNamed, Settled, Keeps}
use token_usage.Watcher.Upload.Flush.{flush-IsFresh, flush-AllNamed, flush-stays}
use token_usage.Watcher.Run.{Checkpoint, set_all, save, send_and_save, run_once}
use token_usage.Watcher.Run.Batches.{Carried, All-map}
use token_usage.Watcher.Run.Tick.{records_of, edits_of, send_all-AllSent}

All-empty : {A : Type 0} (P : A → Type 0) (xs : List A) → length xs ≡ 0 → All P xs
All-empty P [] h = tt
All-empty P (x ∷ xs) h = absurd (omega (arith, h))

module _ (o : Outside) where
  module _ {A : Type 0} (part : IngestRequest → List A) where
    -- A record is in a batch that the server has taken, or refused as wrong, or that is in the spool.
    abbrev pub Accounted : World o → A → Type 0
    Accounted w r =
        (b : o.Body) × (req : IngestRequest) × (o.marshal req ≡ some b)
        × Memᴰ r (part req)
        × Settled o w b

    Carried-Accounted : (w : World o) (r : A) → Carried o part w r → Accounted w r
    Carried-Accounted w r (b, req, e, m, inl d) = (b, req, e, m, inl d)
    Carried-Accounted w r (b, req, e, m, inr d) = (b, req, e, m, inr (inr d))

  abbrev pub AllAccounted : World o → ScanResult → Type 0
  AllAccounted w res = All (Accounted records_of w) res.usage × All (Accounted edits_of w) res.edits

  -- The spool is in order, and what was settled stays settled.
  pub record Proceeds (w v : World o) : Type 0 where
    pub fresh : IsFresh o v
    pub named : AllNamed o v
    pub settled : (b : o.Body) → Settled o w b → Settled o v b

  Accounted-Proceeds :
      {A : Type 0} (part : IngestRequest → List A) (w v : World o)
      → Proceeds w v
      → (r : A) → Accounted part w r
      → Accounted part v r
  Accounted-Proceeds part w v p r (b, req, e, m, d) = (b, req, e, m, p.settled b d)

  pub AllAccounted-Proceeds :
      (w v : World o) (res : ScanResult) → Proceeds w v → AllAccounted w res → AllAccounted v res
  AllAccounted-Proceeds w v res p (hu, he) = (
    All-map _ _ res.usage (Accounted-Proceeds records_of w v p) hu,
    All-map _ _ res.edits (Accounted-Proceeds edits_of w v p) he,
  )

  no_records :
      (w : World o) (res : ScanResult)
      → (nat_beq (length res.usage) 0 && nat_beq (length res.edits) 0) ≡ true
      → AllAccounted w res
  no_records w res h =
      (All-empty _ res.usage (ground (arith, h)), All-empty _ res.edits (ground (arith, h)))

  Proceeds-Keeps : (u w v : World o) → Proceeds u w → Keeps o w v → Proceeds u v
  Proceeds-Keeps u w v p k = record {
    fresh = k.fresh;
    named = k.named p.named;
    settled = λ b s. k.settled b (p.settled b s);
  }

  -- What a tick that ends leaves.
  abbrev pub Advances :
      World o
      → ScanResult
      → List (Text × FileState)
      → Bool
      → Checkpoint
      → World o × Checkpoint
      → Type 0
  Advances w scanned pending works ckpt out =
      Proceeds w out.0
      × ((out.1 ≡ ckpt)
          ⊎ ((out.1 ≡ save (set_all ckpt pending) works) × AllAccounted out.0 scanned))

  module _ (c : IsClocked o) (u : Uploader) where
    flush-Proceeds : (w : World o) → IsFresh o w → AllNamed o w → Proceeds w (flush o u w).0
    flush-Proceeds w h n = record {
      fresh = flush-IsFresh o c u w h;
      named = flush-AllNamed o u w n;
      settled = λ b s. flush-stays o u w b n s;
    }

    pub run_once-Advances :
        (batch_size : ℕ) (w : World o) (scanned : ScanResult) (pending : List (Text × FileState))
        → (works : Bool) (ckpt : Checkpoint) → 0 < batch_size
        → IsFresh o w
        → AllNamed o w
        → (out : World o × Checkpoint) × (run_once o u batch_size w scanned pending works ckpt
            ≡ some out)
          × Advances w scanned pending works ckpt out
    unfolding run_once send_and_save
    run_once-Advances batch_size w scanned pending works ckpt size h n =
        let p = flush-Proceeds w h n in
        let out = send_all-AllSent o c u batch_size scanned (flush o u w).0 size p.fresh in
        elim (Bool-cases (nat_beq (length scanned.usage) 0 && nat_beq (length scanned.edits) 0)) [
          | inl none_found ↦
              let nothing : AllAccounted (flush o u w).0 scanned =
                no_records (flush o u w).0 scanned none_found in
              elim (Bool-cases (nat_beq (length pending) 0)) [
                | inl k ↦ rw (none_found, k) (((flush o u w).0, ckpt), refl, (p, inl refl))
                | inr k ↦ rw (none_found, k) (((flush o u w).0, _), refl, (p, inr (refl, nothing)))
              ]
          | inr found ↦
              let next = Proceeds-Keeps w (flush o u w).0 out.0 p out.3 in
              elim (Bool-cases out.1) [
                | inr bad ↦ rw (found, out.2, bad) ((out.0, ckpt), refl, (next, inl refl))
                | inl ok ↦
                    let all = out.4 ok in
                    rw (found, out.2, ok)
                      (
                        (out.0, _),
                        refl,
                        (
                          next,
                          inr (
                            refl,
                            (
                              All-map _ _ scanned.usage (Carried-Accounted records_of out.0) all.0,
                              All-map _ _ scanned.edits (Carried-Accounted edits_of out.0) all.1,
                            ),
                          ),
                        ),
                      )
              ]
        ]
