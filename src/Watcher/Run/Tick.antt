-- ===== src/Watcher/Run/Tick.antt =====
-- One tick of the watcher: when the checkpoint advances.
use token_usage.Prelude.{
  ◌⊎◌, inl, inr, ℕ, ◌+◌, ◌<◌, ◌≡◌, refl, sym, ◌∙◌, Bool, true, false, Option, some, List, [], ◌∷◌,
  arith, All, length, nat_beq, Bool-cases, Text, text_eq, ◌==◌, ◌&&◌,
}
use token_usage.Types.{UsageRecord, EditRecord, IngestRequest}
use token_usage.Parsers.Std.{ScanResult, FileState}
use token_usage.Watcher.Upload.{
  Outside, World, Uploader, SendResult, stored, sent, post, spool, spooled_at, send_spooled,
  send_request, send, send_edits, flush,
}
use token_usage.Watcher.Upload.Durable.{IsClocked, IsFresh, Keeps, Durable, Keeps-refl, Keeps-trans}
use token_usage.Watcher.Upload.Send.{Sent-cases, send_request-Durable}
use token_usage.Watcher.Upload.Flush.{flush-IsFresh}
use token_usage.Watcher.Run.{
  Checkpoint, set_all, save, send_records, send_edit_records, send_all, send_and_save, run_once,
}
use token_usage.Watcher.Run.Batches.{Carried, Sends, All-Mem, All-map, Carried-Keeps, batched-Ends}

abbrev pub records_of : IngestRequest → List UsageRecord
records_of req = req.records

abbrev pub edits_of : IngestRequest → List EditRecord
edits_of req = req.edits

module _ (o : Outside) where
  -- Every batch can be encoded and written to the spool folder.
  pub record CanSpool (u : Uploader) : Type 0 where
    pub folder : (u.buffer_dir == []) ≡ false
    pub encoded : (req : IngestRequest) → (b : o.Body) × (o.marshal req ≡ some b)
    pub written : (e : o.Env) → (o.write e).1 ≡ stored

  send_spooled-sent :
      (u : Uploader) (w : World o) (b : o.Body) (err : Text)
      → CanSpool u
      → (res : SendResult) × ((send_spooled o u w b err).1 ≡ sent res)
  unfolding send_spooled spool spooled_at
  send_spooled-sent u w b err s = rw (s.folder, s.written w.env) (_, refl)

  send_request-sent :
      (u : Uploader) (w : World o) (req : IngestRequest) (edits_batch : Bool)
      → CanSpool u
      → (res : SendResult) × ((send_request o u w req edits_batch).1 ≡ sent res)
  unfolding send_request
  send_request-sent u w req edits_batch s =
      let b = s.encoded req in
      elim (Sent-cases (post o w b.0).1) [
        | inl (res, k) ↦ rw (send_request, b.1, k) (_, refl)
        | inr (err, k) ↦ rw (send_request, b.1, k) (send_spooled-sent u (post o w b.0).0 b.0 err s)
      ]

  Carried-All :
      {A : Type 0} (part : IngestRequest → List A) (req : IngestRequest) (v : World o) (b : o.Body)
      → o.marshal req ≡ some b
      → Durable o v b
      → All (Carried o part v) (part req)
  Carried-All part req v b e d = All-Mem (Carried o part v) (part req) (λ r m. (b, req, e, m, d))

  send-sent :
      (u : Uploader) (w : World o) (rs : List UsageRecord)
      → CanSpool u
      → (res : SendResult) × ((send o u w rs).1 ≡ sent res)
  unfolding send
  send-sent u w [] s = (_, refl)
  send-sent u w (r ∷ rs) s = send_request-sent u w _ false s

  send_edits-sent :
      (u : Uploader) (w : World o) (es : List EditRecord)
      → CanSpool u
      → (res : SendResult) × ((send_edits o u w es).1 ≡ sent res)
  unfolding send_edits
  send_edits-sent u w [] s = (_, refl)
  send_edits-sent u w (e ∷ es) s = send_request-sent u w _ true s

  module _ (c : IsClocked o) (u : Uploader) where
    request-Sends :
        {A : Type 0} (part : IngestRequest → List A) (req : IngestRequest) (edits_batch : Bool)
        → (w : World o) → IsFresh o w
        → Sends o part w (send_request o u w req edits_batch) (part req)
    request-Sends part req edits_batch w h =
        let done = send_request-Durable o c u w req edits_batch h in
        (
          done.0,
          (λ res e.
              let batch = done.1 res e in
              Carried-All part req (send_request o u w req edits_batch).0 batch.0 batch.1 batch.2),
        )

    send-Sends :
        (w : World o) (rs : List UsageRecord)
        → IsFresh o w
        → Sends o records_of w (send o u w rs) rs
    unfolding send
    send-Sends w [] h = (Keeps-refl o w h, (λ _ _. tt))
    send-Sends w (r ∷ rs) h =
        request-Sends records_of
          (record { machine_id = u.machine_id; records = r ∷ rs; edits = [] }) false w h

    send_edits-Sends :
        (w : World o) (es : List EditRecord)
        → IsFresh o w
        → Sends o edits_of w (send_edits o u w es) es
    unfolding send_edits
    send_edits-Sends w [] h = (Keeps-refl o w h, (λ _ _. tt))
    send_edits-Sends w (e ∷ es) h =
        request-Sends edits_of (record { machine_id = u.machine_id; records = []; edits = e ∷ es })
          true w h

    -- The sending of a whole scan.
    abbrev pub AllSent : ScanResult → World o → Option (World o × Bool) → Type 0
    AllSent scanned w out =
        (v : World o) × (ok : Bool) × (out ≡ some (v, ok))
        × Keeps o w v
        × (ok ≡ true
            → All (Carried o records_of v) scanned.usage × All (Carried o edits_of v) scanned.edits)
        × (CanSpool u → ok ≡ true)

    pub send_all-AllSent :
        (batch_size : ℕ) (scanned : ScanResult) (w : World o)
        → 0 < batch_size
        → IsFresh o w
        → AllSent scanned w (send_all o u batch_size scanned w)
    unfolding send_all
    send_all-AllSent batch_size scanned w size h =
        let first =
          batched-Ends o records_of scanned.usage (send_records o u scanned.usage)
            (unfold send_records in (λ v s t k. send-Sends v _ k)) batch_size size w h in
        let next =
          batched-Ends o edits_of scanned.edits (send_edit_records o u scanned.edits)
            (unfold send_edit_records in (λ v s t k. send_edits-Sends v _ k)) batch_size size
            first.0 first.3.fresh in
        elim (Bool-cases first.1) [
          | inr stop ↦
              rw (first.2, stop)
                (
                  first.0,
                  false,
                  refl,
                  first.3,
                  (λ k. ground (arith, k)),
                  (λ s. sym stop ∙ first.5 (unfold send_records in (λ v a b. send-sent u v _ s))),
                )
          | inl on ↦
              rw (first.2, on, next.2)
                (
                  next.0,
                  next.1,
                  refl,
                  Keeps-trans o w first.0 next.0 first.3 next.3,
                  (λ k. (
                    All-map (Carried o records_of first.0) (Carried o records_of next.0)
                        scanned.usage (Carried-Keeps o records_of first.0 next.0 next.3)
                        (first.4 on),
                    next.4 k,
                  )),
                  (λ s. next.5 (unfold send_edit_records in (λ v a b. send_edits-sent u v _ s))),
                )
        ]

    -- A tick whose scan found something comes to its end. Then either the checkpoint is as it was, or it
    -- has taken the scan's file states and every usage record and every edit of the scan is in a batch
    -- that the server has taken or that is in the spool folder. Spooled files are to be older than the
    -- clock, and the batch size is not 0.
    pub run_once-Carried :
        (batch_size : ℕ) (w : World o) (scanned : ScanResult) (pending : List (Text × FileState))
        → (works : Bool) (ckpt : Checkpoint) → 0 < batch_size
        → IsFresh o w
        → 0 < length scanned.usage + length scanned.edits
        → (v : World o) × (after : Checkpoint) × (run_once o u batch_size w scanned pending works
              ckpt
            ≡ some (v, after))
          × IsFresh o v
          × ((after ≡ ckpt)
              ⊎ ((after ≡ save (set_all ckpt pending) works)
                  × All (Carried o records_of v) scanned.usage
                  × All (Carried o edits_of v) scanned.edits))
    unfolding run_once send_and_save
    run_once-Carried batch_size w scanned pending works ckpt size h found =
        let something : nat_beq (length scanned.usage) 0 && nat_beq (length scanned.edits) 0
            ≡ false =
          ground arith in
        let out =
          send_all-AllSent batch_size scanned (flush o u w).0 size (flush-IsFresh o c u w h) in
        elim (Bool-cases out.1) [
          | inl ok ↦
              rw (something, out.2, ok)
                (out.0, _, refl, out.3.fresh, inr (refl, (out.4 ok).0, (out.4 ok).1))
          | inr bad ↦ rw (something, out.2, bad) (out.0, ckpt, refl, out.3.fresh, inl refl)
        ]

    -- While every batch can be encoded and written to the spool folder, a tick whose scan has file states
    -- comes to its end and the checkpoint takes them, whatever the server answers. Spooled files are to
    -- be older than the clock, and the batch size is not 0.
    pub run_once-CanSpool :
        (batch_size : ℕ) (w : World o) (scanned : ScanResult) (pending : List (Text × FileState))
        → (works : Bool) (ckpt : Checkpoint) → CanSpool u
        → 0 < batch_size
        → IsFresh o w
        → 0 < length pending
        → (v : World o) × (run_once o u batch_size w scanned pending works ckpt
            ≡ some (v, save (set_all ckpt pending) works))
    unfolding run_once send_and_save
    run_once-CanSpool batch_size w scanned pending works ckpt s size h found =
        let out =
          send_all-AllSent batch_size scanned (flush o u w).0 size (flush-IsFresh o c u w h) in
        let some_pending : nat_beq (length pending) 0 ≡ false = ground arith in
        elim (Bool-cases (nat_beq (length scanned.usage) 0 && nat_beq (length scanned.edits) 0)) [
          | inl e ↦ rw (e, some_pending) (_, refl)
          | inr e ↦ rw (e, out.2, out.5 s) (out.0, refl)
        ]
