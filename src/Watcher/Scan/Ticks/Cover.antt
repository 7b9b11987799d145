-- ===== src/Watcher/Scan/Ticks/Cover.antt =====
-- What a tail read from the checkpoint's state covers, and that it stays covered.
use token_usage.Prelude.{
  inl, inr, ℕ, ◌≡◌, refl, ap, ◌∙◌, sym, false, none, some, List, [], ◌∷◌, ◌++◌, append_assoc,
  append-nil, drop, Option-cases, Bool, true, length, nat_beq, arith, Bool-cases, Text, text_eq,
}
use mathlib.Core.Path.{subst}
use token_usage.Table.{lookup, IsUnique}
use token_usage.Parsers.Std.{ScanResult, FileState}
use token_usage.Parsers.Tail.{tail_scan, start_offset}
use token_usage.Parsers.Tail.Lined.{complete, consumed, complete-append}
use token_usage.Parsers.Tail.Resume.{file, new_file, collect, first_scan, resume}
use token_usage.Watcher.Upload.{Outside, World, Uploader}
use token_usage.Watcher.Run.{Checkpoint, get, set, set_all}
use token_usage.Watcher.Run.Batches.{All-append}
use token_usage.Watcher.Run.Tick.{records_of, edits_of}
use token_usage.Watcher.Run.Advance.{Accounted, AllAccounted, Proceeds, AllAccounted-Proceeds}
use token_usage.Watcher.Scan.{Pending, prev_state, copy}
use token_usage.Watcher.Scan.Pass.{lookup-copy}
use token_usage.Watcher.Scan.Coverage.{IsRead, All-left, All-right}
use token_usage.Watcher.Scan.Ticks.{tail_of, LinesAccounted, IsCovered, AllCovered}

module _ (emit : ℕ → Text → Text → Text → ScanResult) (inode : Text → ℕ) where
  module _ (o : Outside) (u : Uploader) (batch_size : ℕ) where
    LinesAccounted-collect :
        (w : World o) (now : ℕ) (tool path : Text) (lines : List Text)
        → AllAccounted o w (collect (emit now tool path) lines)
        → LinesAccounted emit inode o u batch_size w path lines
    unfolding collect
    LinesAccounted-collect w now tool path [] h = tt
    LinesAccounted-collect w now tool path (l ∷ lines) h =
        let one = emit now tool path l in
        let rest = collect (emit now tool path) lines in
        (
          (now, tool, (All-left _ one.usage rest.usage h.0, All-left _ one.edits rest.edits h.1)),
          LinesAccounted-collect w now tool path lines
              (All-right _ one.usage rest.usage h.0, All-right _ one.edits rest.edits h.1),
        )

    LinesAccounted-Proceeds :
        (w v : World o) (path : Text) (lines : List Text)
        → Proceeds o w v
        → LinesAccounted emit inode o u batch_size w path lines
        → LinesAccounted emit inode o u batch_size v path lines
    LinesAccounted-Proceeds w v path [] p h = tt
    LinesAccounted-Proceeds w v path (l ∷ lines) p ((now, tool, a), rest) = (
      (now, tool, AllAccounted-Proceeds o w v (emit now tool path l) p a),
      LinesAccounted-Proceeds w v path lines p rest,
    )

    IsCovered-Proceeds :
        (w v : World o) (texts : Text → Text) (path : Text) (s : FileState)
        → Proceeds o w v
        → IsCovered emit inode o u batch_size w texts path s
        → IsCovered emit inode o u batch_size v texts path s
    IsCovered-Proceeds w v texts path s p (read, rest, e, es, a) =
        (read, rest, e, es, LinesAccounted-Proceeds w v path (complete read) p a)

    pub IsCovered-grows :
        (w : World o) (texts more : Text → Text) (path : Text) (s : FileState)
        → IsCovered emit inode o u batch_size w texts path s
        → IsCovered emit inode o u batch_size w (λ p. texts p ++ more p) path s
    IsCovered-grows w texts more path s (read, rest, e, es, a) =
        (read, rest ++ more path, rw e (append_assoc read rest (more path)), es, a)

    prev_state-none :
        (c : Checkpoint) (path : Text) → lookup path c.files ≡ none → prev_state c path ≡ new_file
    unfolding prev_state get
    prev_state-none c path e = rw (prev_state, e) refl

    prev_state-some :
        (c : Checkpoint) (path : Text) (s : FileState)
        → lookup path c.files ≡ some s
        → prev_state c path ≡ s
    unfolding prev_state get
    prev_state-some c path s e = rw (prev_state, e) refl

    -- A read without an error is that of a file that can be read.
    tail_scan-ok :
        (yields : Text → ScanResult) (inode' : ℕ) (text : Text) (fails : Bool) (prev : FileState)
        → (tail_scan yields (record (file inode' text) { read_fails = fails }) prev).2 ≡ false
        → tail_scan yields (record (file inode' text) { read_fails = fails }) prev
          ≡ tail_scan yields (file inode' text) prev
    unfolding tail_scan
    tail_scan-ok yields inode' text false prev h = refl
    tail_scan-ok yields inode' text true prev h =
        elim (Bool-cases (nat_beq (length text) (start_offset prev inode' (length text)))) [
          | inl k ↦ rw k refl
          | inr k ↦ absurd (ground (arith, h, k))
        ]

    -- the scan of a path in the two cases
    tail_of-new :
        (texts : Text → Text) (c : Checkpoint) (now : ℕ) (tool path : Text)
        → lookup path c.files ≡ none
        → tail_scan (emit now tool path) (file (inode path) (texts path)) (prev_state c path) ≡ (
          collect (emit now tool path) (complete (texts path)),
          record { inode = inode path; offset = consumed (texts path) },
          false,
        )
    tail_of-new texts c now tool path e =
        rw (prev_state-none c path e) (first_scan (emit now tool path) (inode path) (texts path))

    tail_of-resumed :
        (texts : Text → Text) (c : Checkpoint) (now : ℕ) (tool path : Text) (s : FileState)
        (read rest : Text)
        → lookup path c.files ≡ some s
        → texts path ≡ read ++ rest
        → s ≡ record { inode = inode path; offset = consumed read }
        → tail_scan (emit now tool path) (file (inode path) (texts path)) (prev_state c path) ≡ (
          collect (emit now tool path) (complete (drop (consumed read) read ++ rest)),
          record { inode = inode path; offset = consumed (read ++ rest) },
          false,
        )
    tail_of-resumed texts c now tool path s read rest e t es =
        rw (prev_state-some c path s e, es, t) (resume (emit now tool path) (inode path) read rest)

    -- A read from a covered state covers the whole text.
    pub IsRead-Covered :
        (w : World o) (texts : Text → Text) (c : Checkpoint) (now : ℕ) (fails : Text → Bool)
        → AllCovered emit inode o u batch_size w texts c.files
        → (path : Text) (s : FileState)
        → IsRead
            (Accounted o records_of w)
            (Accounted o edits_of w)
            (tail_of emit inode now fails texts)
            c
            path
            s
        → IsCovered emit inode o u batch_size w texts path s
    IsRead-Covered w texts c now fails covered path s (tool, state, good, found) =
        let ok =
          tail_scan-ok (emit now tool path) (inode path) (texts path) (fails path)
            (prev_state c path) good in
        elim (Option-cases (lookup path c.files)) [
          | inl e ↦
              let out = ok ∙ tail_of-new texts c now tool path e in
              (
                texts path,
                [],
                sym (append-nil (texts path)),
                sym state ∙ ap (λ r. r.1) out,
                LinesAccounted-collect w now tool path (complete (texts path))
                    (subst (λ r. AllAccounted o w r) (ap (λ r. r.0) out) found),
              )
          | inr (old, e) ↦
              let (read, rest, t, es, before) = covered path old e in
              let out = ok ∙ tail_of-resumed texts c now tool path old read rest e t es in
              (
                texts path,
                [],
                sym (append-nil (texts path)),
                rw t (sym state ∙ ap (λ r. r.1) out),
                rw t (
                    subst (λ ls. LinesAccounted emit inode o u batch_size w path ls)
                      (sym (complete-append read rest))
                      (All-append _ (complete read) _ before (
                        LinesAccounted-collect w now tool path _
                          (subst (λ r. AllAccounted o w r) (ap (λ r. r.0) out) found)))),
              )
        ]

    pub set_all-copy :
        (c : Checkpoint) (pending : Pending) → (set_all c pending).files ≡ copy c.files pending
    unfolding set_all set copy
    set_all-copy c [] = refl
    set_all-copy c ((path, s) ∷ pending) = set_all-copy (set c path s) pending

    pub set_all-saved : (c : Checkpoint) (pending : Pending) → (set_all c pending).saved ≡ c.saved
    unfolding set_all set
    set_all-saved c [] = refl
    set_all-saved c ((path, s) ∷ pending) = set_all-saved (set c path s) pending

    pub AllCovered-copy :
        (w : World o) (texts : Text → Text) (files pending : List (Text × FileState))
        → IsUnique pending
        → AllCovered emit inode o u batch_size w texts files
        → AllCovered emit inode o u batch_size w texts pending
        → AllCovered emit inode o u batch_size w texts (copy files pending)
    AllCovered-copy w texts files pending unique old new path s e =
        let known = sym (lookup-copy path files pending unique) ∙ e in
        elim (Option-cases (lookup path pending)) [
          | inl k ↦ old path s (rw k at known)
          | inr (v, k) ↦ new path s (k ∙ (rw k at known))
        ]

    pub AllCovered-Proceeds :
        (w v : World o) (texts : Text → Text) (files : List (Text × FileState))
        → Proceeds o w v
        → AllCovered emit inode o u batch_size w texts files
        → AllCovered emit inode o u batch_size v texts files
    AllCovered-Proceeds w v texts files p h path s e =
        IsCovered-Proceeds w v texts path s p (h path s e)
