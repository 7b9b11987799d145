-- ===== src/Watcher/Upload/Flush.antt =====
-- Sending the spool again: no batch is lost on the way.
use token_usage.Prelude.{
  ◌⊎◌, inl, inr, ◌≡◌, true, some, List, [], ◌∷◌, arith, All, Bool-cases, Option-cases, ◌==◌,
  text_eq,
}
use mathlib.Core.Path.{subst}
use token_usage.Watcher.Upload.{
  Outside, Sent, Uploader, Entry, Tally, World, same, without, post, remove_entry, flush_each,
  flush, sent, failed, is_http_rejection,
}
use token_usage.Watcher.Upload.Durable.{
  IsClocked, IsFresh, Buffered, IsNamed, AllNamed, Settled, post-Settled, post-Keeps,
  post-Delivered, post-Rejected, IsBelow-≤,
}
use token_usage.Watcher.Upload.Send.{Sent-cases}

module _ {B : Type 0} where
  Buffered-without :
      (b : B) (e : Entry B) (es : List (Entry B))
      → IsNamed es e
      → Buffered b es
      → Buffered b (without e es) ⊎ (e.body ≡ some b)
  unfolding without
  Buffered-without b e [] h found = inl found
  Buffered-without b e (x ∷ xs) (hx, hs) found = ground (arith, Buffered-without b e xs)

  All-without :
      (P : Entry B → Type 0) (e : Entry B) (es : List (Entry B)) → All P es → All P (without e es)
  unfolding without
  All-without P e [] h = tt
  All-without P e (x ∷ xs) (hx, hs) = elim (Bool-cases (same x e)) [
    | inl k ↦ rw k (All-without P e xs hs)
    | inr k ↦ rw k (hx, All-without P e xs hs)
  ]

  IsNamed-without :
      (e : Entry B) (buffer es : List (Entry B))
      → All (IsNamed buffer) es
      → All (IsNamed (without e buffer)) es
  IsNamed-without e buffer [] h = tt
  IsNamed-without e buffer (x ∷ xs) (hx, hs) =
      (All-without _ e buffer hx, IsNamed-without e buffer xs hs)

module _ (o : Outside) where
  -- An answer that lets Flush remove the batch.
  abbrev IsFinal : Sent → Type 0
  IsFinal (sent res) = Unit
  IsFinal (failed err) = is_http_rejection err ≡ true

  final-Settled :
      (w : World o) (b : o.Body) (e : Entry o.Body)
      → IsFinal (post o w b).1
      → Settled o (remove_entry o e (post o w b).0) b
  unfolding post remove_entry
  final-Settled w b e h = elim (Sent-cases (post o w b).1) [
    | inl (res, k) ↦ inl (post-Delivered o w b res k)
    | inr (err, k) ↦ inr (inl (post-Rejected o w b err k (rw k at h)))
  ]

  remove_entry-Settled :
      (w : World o) (b d : o.Body) (e : Entry o.Body)
      → IsNamed w.buffer e
      → e.body ≡ some b
      → IsFinal (post o w b).1
      → Settled o w d
      → Settled o (remove_entry o e (post o w b).0) d
  unfolding post remove_entry
  remove_entry-Settled w b d e h k f (inl x) = inl (inr x)
  remove_entry-Settled w b d e h k f (inr (inl x)) = inr (inl (inr x))
  remove_entry-Settled w b d e h k f (inr (inr x)) =
      elim (Bool-cases (o.remove (o.serve w.env b).0).1) [
        | inr kept ↦ inr (inr (rw kept x))
        | inl gone ↦ elim (Buffered-without d e w.buffer h x) [
          | inl y ↦ inr (inr (rw gone y))
          | inr y ↦
              let one : b ≡ d = ground (arith, k, y) in
              subst (Settled o (remove_entry o e (post o w b).0)) one (final-Settled w b e f)
        ]
      ]

  IsNamed-still :
      (w : World o) (b : o.Body) (e : Entry o.Body) (es : List (Entry o.Body))
      → All (IsNamed w.buffer) es
      → All (IsNamed (remove_entry o e (post o w b).0).buffer) es
  unfolding post remove_entry
  IsNamed-still w b e es h = elim (Bool-cases (o.remove (o.serve w.env b).0).1) [
    | inl gone ↦ rw gone (IsNamed-without e w.buffer es h)
    | inr kept ↦ rw kept h
  ]

  flush_each-Settled :
      (es : List (Entry o.Body)) (w : World o) (tally : Tally) (d : o.Body)
      → All (IsNamed w.buffer) es
      → Settled o w d
      → Settled o (flush_each o es w tally).0 d
  unfolding flush_each
  flush_each-Settled [] w tally d h s = s
  flush_each-Settled (e ∷ es) w tally d (he, hs) s = elim (Bool-cases e.is_skipped) [
    | inl skip ↦ rw skip (flush_each-Settled es w tally d hs s)
    | inr take ↦ elim (Option-cases e.body) [
      | inl k ↦ rw (take, k) (flush_each-Settled es w tally d hs s)
      | inr (b, k) ↦
          let gone = remove_entry-Settled w b d e he k in
          let named = IsNamed-still w b e es hs in
          elim (Sent-cases (post o w b).1) [
            | inl (res, a) ↦
                rw (take, k, flush_each, a) (flush_each-Settled es _ _ d named (gone (rw a tt) s))
            | inr (err, a) ↦ elim (Bool-cases (is_http_rejection err)) [
              | inl r ↦
                  rw (take, k, flush_each, a, r)
                    (flush_each-Settled es _ _ d named (gone (rw a r) s))
              | inr r ↦ rw (take, k, flush_each, a, r) (post-Settled o w b d s)
            ]
          ]
    ]
  ]

  pub flush-stays :
      (u : Uploader) (w : World o) (b : o.Body)
      → AllNamed o w
      → Settled o w b
      → Settled o (flush o u w).0 b
  unfolding flush
  flush-stays u w b h s = elim (Bool-cases (u.buffer_dir == [])) [
    | inl e ↦ rw e s
    | inr e ↦ elim (Bool-cases (o.readable w.env)) [
      | inl r ↦ rw (e, r) (flush_each-Settled w.buffer w _ b h s)
      | inr r ↦ rw (e, r) s
    ]
  ]

  -- Flush loses no batch: one that was in the spool folder is still there, or the server has taken it,
  -- or has refused it with the status 400, 404, 410, 413 or 422. Each name of the folder stands for one
  -- file.
  pub flush-Settled :
      (u : Uploader) (w : World o) (b : o.Body)
      → All (IsNamed w.buffer) w.buffer
      → Buffered b w.buffer
      → Settled o (flush o u w).0 b
  flush-Settled u w b h found = flush-stays u w b h (inr (inr found))

  remove_entry-AllNamed :
      (w : World o) (e : Entry o.Body) → AllNamed o w → AllNamed o (remove_entry o e w)
  unfolding remove_entry
  remove_entry-AllNamed w e h = elim (Bool-cases (o.remove w.env).1) [
    | inl gone ↦ rw gone (All-without _ e w.buffer (IsNamed-without e w.buffer w.buffer h))
    | inr kept ↦ rw kept h
  ]

  flush_each-AllNamed :
      (es : List (Entry o.Body)) (w : World o) (tally : Tally)
      → AllNamed o w
      → AllNamed o (flush_each o es w tally).0
  unfolding flush_each
  flush_each-AllNamed [] w tally h = h
  flush_each-AllNamed (e ∷ es) w tally h = elim (Bool-cases e.is_skipped) [
    | inl skip ↦ rw skip (flush_each-AllNamed es w tally h)
    | inr take ↦ elim (Option-cases e.body) [
      | inl k ↦ rw (take, k) (flush_each-AllNamed es w tally h)
      | inr (b, k) ↦
          let posted : AllNamed o (post o w b).0 = unfold post in h in
          let gone = remove_entry-AllNamed (post o w b).0 e posted in
          elim (Sent-cases (post o w b).1) [
            | inl (res, a) ↦ rw (take, k, flush_each, a) (flush_each-AllNamed es _ _ gone)
            | inr (err, a) ↦ elim (Bool-cases (is_http_rejection err)) [
              | inl r ↦ rw (take, k, flush_each, a, r) (flush_each-AllNamed es _ _ gone)
              | inr r ↦ rw (take, k, flush_each, a, r) posted
            ]
          ]
    ]
  ]

  pub flush-AllNamed : (u : Uploader) (w : World o) → AllNamed o w → AllNamed o (flush o u w).0
  unfolding flush
  flush-AllNamed u w h = elim (Bool-cases (u.buffer_dir == [])) [
    | inl e ↦ rw e h
    | inr e ↦ elim (Bool-cases (o.readable w.env)) [
      | inl r ↦ rw (e, r) (flush_each-AllNamed w.buffer w _ h)
      | inr r ↦ rw (e, r) h
    ]
  ]

  module _ (c : IsClocked o) where
    remove_entry-IsFresh :
        (w : World o) (e : Entry o.Body) → IsFresh o w → IsFresh o (remove_entry o e w)
    unfolding remove_entry
    remove_entry-IsFresh w e h =
        let later = IsBelow-≤ (o.time w.env) _ w.buffer (c.remove-time w.env) h in
        elim (Bool-cases (o.remove w.env).1) [
          | inl k ↦ rw k (All-without _ e w.buffer later)
          | inr k ↦ rw k later
        ]

    flush_each-IsFresh :
        (es : List (Entry o.Body)) (w : World o) (tally : Tally)
        → IsFresh o w
        → IsFresh o (flush_each o es w tally).0
    unfolding flush_each
    flush_each-IsFresh [] w tally h = h
    flush_each-IsFresh (e ∷ es) w tally h = elim (Bool-cases e.is_skipped) [
      | inl skip ↦ rw skip (flush_each-IsFresh es w tally h)
      | inr take ↦ elim (Option-cases e.body) [
        | inl k ↦ rw (take, k) (flush_each-IsFresh es w tally h)
        | inr (b, k) ↦
            let posted = (post-Keeps o c w b h).fresh in
            let gone = remove_entry-IsFresh (post o w b).0 e posted in
            elim (Sent-cases (post o w b).1) [
              | inl (res, a) ↦ rw (take, k, flush_each, a) (flush_each-IsFresh es _ _ gone)
              | inr (err, a) ↦ elim (Bool-cases (is_http_rejection err)) [
                | inl r ↦ rw (take, k, flush_each, a, r) (flush_each-IsFresh es _ _ gone)
                | inr r ↦ rw (take, k, flush_each, a, r) posted
              ]
            ]
      ]
    ]

    pub flush-IsFresh : (u : Uploader) (w : World o) → IsFresh o w → IsFresh o (flush o u w).0
    unfolding flush
    flush-IsFresh u w h = elim (Bool-cases (u.buffer_dir == [])) [
      | inl e ↦ rw e h
      | inr e ↦ elim (Bool-cases (o.readable w.env)) [
        | inl r ↦ rw (e, r) (flush_each-IsFresh w.buffer w _ h)
        | inr r ↦ rw (e, r) h
      ]
    ]
