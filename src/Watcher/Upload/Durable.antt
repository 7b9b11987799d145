-- ===== src/Watcher/Upload/Durable.antt =====
-- What it means that a batch is not lost, and that the uploader keeps it so.
use mathlib.Core.Path.{subst}
use token_usage.Prelude.{
  ◌⊎◌, inl, inr, ℕ, ◌<◌, ◌≤◌, ◌≡◌, refl, sym, Bool, true, false, none, some, List, [], ◌∷◌, ◌++◌,
  arith, All, Bool-cases, Option-cases, ◌==◌, text_eq, Text, codes, has_prefix, take, drop,
  append_assoc, ap, ◌∙◌, ◌/◌, nat_beq, ◌≢◌,
}
use token_usage.Types.{IngestResponse}
use token_usage.Parsers.Std.{itoa, trim_space}
use token_usage.Watcher.Upload.{
  Reply, transport, answer, DiskStep, Outside, SendResult, Uploader, Entry, batch_file, World,
  is_http_rejection, failed, reply_result, same, put, post, spooled_at, spool, send_spooled, sent,
  stored, no_folder, no_write, no_rename,
}

-- The clock never goes back, and it has moved on when a file has been written.
pub record IsClocked (o : Outside) : Type 0 where
  pub serve-time : (e : o.Env) (b : o.Body) → o.time e ≤ o.time (o.serve e b).0
  pub write-time : (e : o.Env) → o.time e < o.time (o.write e).0
  pub remove-time : (e : o.Env) → o.time e ≤ o.time (o.remove e).0

-- The statuses that say that the batch itself is wrong, as the digits of the status.
abbrev pub IsRefusal : Text → Type 0
IsRefusal digits =
    (digits ≡ codes "400")
    ⊎ ((digits ≡ codes "404")
        ⊎ ((digits ≡ codes "410") ⊎ ((digits ≡ codes "413") ⊎ (digits ≡ codes "422"))))

module _ {B : Type 0} where
  -- The server has refused the batch with one of these statuses.
  abbrev pub Rejected : B → List (B × Reply) → Type 0
  Rejected b [] = ⊥
  Rejected b ((c, r) ∷ ps) =
      ((c ≡ b)
        × ((status : ℕ) × (body : Text) × (ack : IngestResponse) × (r ≡ answer status body ack)
            × IsRefusal (take 3 (itoa status))))
      ⊎ Rejected b ps

  -- A listed name stands for one file.
  abbrev pub IsNamed : List (Entry B) → Entry B → Type 0
  IsNamed buffer e = All (λ x. same x e ≡ true → x.body ≡ e.body) buffer

module _ {B : Type 0} (b : B) where
  -- The batch is in the spool folder, where Flush finds it.
  abbrev pub Buffered : List (Entry B) → Type 0
  Buffered [] = ⊥
  Buffered (e ∷ es) = ((e.is_skipped ≡ false) × (e.body ≡ some b)) ⊎ Buffered es

  -- The server has answered the batch with 2xx.
  abbrev pub Delivered : List (B × Reply) → Type 0
  Delivered [] = ⊥
  Delivered ((c, r) ∷ ps) =
      ((c ≡ b)
        × ((status : ℕ) × (body : Text) × (ack : IngestResponse) × (r ≡ answer status body ack)
            × (200 ≤ status)
            × (status < 300)))
      ⊎ Delivered ps

  abbrev IsBelow : ℕ → List (Entry B) → Type 0
  IsBelow n = All (λ e. e.stamp < n)

  Buffered-put :
      (e : Entry B) (es : List (Entry B))
      → All (λ x. x.stamp < e.stamp) es
      → Buffered es
      → Buffered (put e es)
  unfolding put same
  Buffered-put e [] h found = absurd found
  Buffered-put e (x ∷ xs) (hx, hs) found = ground (arith, Buffered-put e xs)

  Buffered-put_new :
      (e : Entry B) (es : List (Entry B))
      → e.is_skipped ≡ false
      → e.body ≡ some b
      → Buffered (put e es)
  unfolding put
  Buffered-put_new e [] h k = inl (h, k)
  Buffered-put_new e (x ∷ xs) h k = ground (arith, Buffered-put_new e xs)

-- A reply that is taken as one to a batch that was accepted has a status of 200 to 299.
sent-2xx :
    (r : Reply) (res : SendResult)
    → reply_result r ≡ sent res
    → (status : ℕ) × (body : Text) × (ack : IngestResponse) × (r ≡ answer status body ack)
      × (200 ≤ status)
      × (status < 300)
unfolding reply_result
sent-2xx (transport message) res e = absurd (ground (arith, e))
sent-2xx (answer status body ack) res e = elim (Bool-cases (nat_beq (status / 100) 2)) [
  | inl k ↦ (status, body, ack, refl, ground (arith, k), ground (arith, k))
  | inr k ↦ absurd (ground (arith, e, k))
]

take_three :
    (x y : Text) (a b c : ℕ)
    → a ≢ b':'
    → b ≢ b':'
    → c ≢ b':'
    → take 3 (x ++ b':' ∷ y) ≡ a ∷ b ∷ c ∷ []
    → take 3 x ≡ a ∷ b ∷ c ∷ []
take_three [] y a b c ha hb hc e = absurd (ground (arith, e, ha))
take_three (p ∷ []) y a b c ha hb hc e = absurd (ground (arith, e, hb))
take_three (p ∷ q ∷ []) y a b c ha hb hc e = absurd (ground (arith, e, hc))
take_three (p ∷ q ∷ r ∷ x) y a b c ha hb hc e = e

IsRefusal-take : (x y : Text) → IsRefusal (take 3 (x ++ b':' ∷ y)) → IsRefusal (take 3 x)
IsRefusal-take x y h = elim h [
  | inl e ↦ inl (take_three x y _ _ _ (omega arith) (omega arith) (omega arith) e)
  | inr (inl e) ↦ inr (inl (take_three x y _ _ _ (omega arith) (omega arith) (omega arith) e))
  | inr (inr (inl e)) ↦
      inr (inr (inl (take_three x y _ _ _ (omega arith) (omega arith) (omega arith) e)))
  | inr (inr (inr (inl e))) ↦
      inr (inr (inr (inl (take_three x y _ _ _ (omega arith) (omega arith) (omega arith) e))))
  | inr (inr (inr (inr e))) ↦
      inr (inr (inr (inr (take_three x y _ _ _ (omega arith) (omega arith) (omega arith) e))))
]

-- The error of a reply that is refused has the code behind `server `.
is_http_rejection-IsRefusal :
    (s : Text) → is_http_rejection s ≡ true → IsRefusal (take 3 (drop 7 s))
unfolding is_http_rejection
is_http_rejection-IsRefusal s k =
    let is : (c : Text) → (take 3 (drop 7 s) == c ≡ true) → take 3 (drop 7 s) ≡ c =
      λ c. (text_eq.beq_iff (take 3 (drop 7 s)) c).0 in
    elim (Bool-cases (take 3 (drop 7 s) == codes "400")) [
      | inl e ↦ inl (is _ e)
      | inr n0 ↦ elim (Bool-cases (take 3 (drop 7 s) == codes "404")) [
        | inl e ↦ inr (inl (is _ e))
        | inr n4 ↦ elim (Bool-cases (take 3 (drop 7 s) == codes "410")) [
          | inl e ↦ inr (inr (inl (is _ e)))
          | inr n10 ↦ elim (Bool-cases (take 3 (drop 7 s) == codes "413")) [
            | inl e ↦ inr (inr (inr (inl (is _ e))))
            | inr n13 ↦ inr (inr (inr (inr (is _ (ground (arith, k, n0, n4, n10, n13))))))
          ]
        ]
      ]
    ]

refused-code :
    (x y : Text)
    → is_http_rejection (codes "server " ++ (x ++ b':' ∷ y)) ≡ true
    → IsRefusal (take 3 x)
refused-code x y k = IsRefusal-take x y (is_http_rejection-IsRefusal _ k)

-- A reply whose error counts as a refusal has one of the statuses that say so.
refused-status :
    (r : Reply) (err : Text)
    → reply_result r ≡ failed err
    → is_http_rejection err ≡ true
    → (status : ℕ) × (body : Text) × (ack : IngestResponse) × (r ≡ answer status body ack)
      × IsRefusal (take 3 (itoa status))
unfolding reply_result is_http_rejection has_prefix
refused-status (transport message) err e k = absurd (ground (arith, e, k))
refused-status (answer status body ack) err e k = elim (Bool-cases (nat_beq (status / 100) 2)) [
  | inl good ↦ absurd (ground (arith, e, good))
  | inr bad ↦
      let text = codes "server " ++ (itoa status ++ codes ": " ++ trim_space (take 512 body)) in
      let same : text ≡ err = ground (arith, e, bad) in
      (
        status,
        body,
        ack,
        refl,
        refused-code (itoa status) (b' ' ∷ trim_space (take 512 body)) (
            subst (λ x. is_http_rejection x ≡ true)
              (sym same
                ∙ ap (λ x. codes "server " ++ x)
                    (append_assoc (itoa status) (codes ": ") (trim_space (take 512 body))))
              k),
      )
]

pub IsBelow-≤ :
    {B : Type 0} (m n : ℕ) (es : List (Entry B))
    → m ≤ n
    → All (λ e. e.stamp < m) es
    → All (λ e. e.stamp < n) es
IsBelow-≤ m n [] h k = tt
IsBelow-≤ m n (e ∷ es) h (ke, ks) = (omega arith, IsBelow-≤ m n es h ks)

IsBelow-put :
    {B : Type 0} (n : ℕ) (e : Entry B) (es : List (Entry B))
    → e.stamp < n
    → All (λ x. x.stamp < n) es
    → All (λ x. x.stamp < n) (put e es)
unfolding put
IsBelow-put n e [] h k = (h, tt)
IsBelow-put n e (x ∷ xs) h (kx, ks) = ground (arith, IsBelow-put n e xs)

module _ {B : Type 0} (e : Entry B) where
  put-append : (es : List (Entry B)) → All (λ x. x.stamp < e.stamp) es → put e es ≡ es ++ e ∷ []
  unfolding put same
  put-append [] h = refl
  put-append (x ∷ xs) (hx, hs) = ground (arith, put-append xs hs)

  IsNamed-append :
      (es : List (Entry B)) (x : Entry B)
      → x.stamp < e.stamp
      → IsNamed es x
      → IsNamed (es ++ e ∷ []) x
  unfolding same
  IsNamed-append [] x k h = (λ s. ground (arith, s), tt)
  IsNamed-append (y ∷ es) x k (hy, hs) = (hy, IsNamed-append es x k hs)

  IsNamed-new : (es : List (Entry B)) → All (λ x. x.stamp < e.stamp) es → IsNamed (es ++ e ∷ []) e
  unfolding same
  IsNamed-new [] h = (λ s. refl, tt)
  IsNamed-new (x ∷ es) (hx, hs) = (λ s. ground (arith, s), IsNamed-new es hs)

  All-IsNamed-append :
      (all es : List (Entry B))
      → All (λ x. x.stamp < e.stamp) all
      → All (λ x. x.stamp < e.stamp) es
      → All (IsNamed all) es
      → All (IsNamed (all ++ e ∷ [])) (es ++ e ∷ [])
  All-IsNamed-append all [] below h n = (IsNamed-new all below, tt)
  All-IsNamed-append all (x ∷ es) below (hx, hs) (nx, ns) =
      (IsNamed-append all x hx nx, All-IsNamed-append all es below hs ns)

  AllNamed-put :
      (es : List (Entry B))
      → All (λ x. x.stamp < e.stamp) es
      → All (IsNamed es) es
      → All (IsNamed (put e es)) (put e es)
  AllNamed-put es below n = rw (put-append es below) (All-IsNamed-append es es below below n)

module _ (o : Outside) where
  abbrev pub Durable : World o → o.Body → Type 0
  Durable w b = Delivered b w.posts ⊎ Buffered b w.buffer

  -- The batch is in the spool folder, or the server has taken or refused it.
  abbrev pub Settled : World o → o.Body → Type 0
  Settled w b = Delivered b w.posts ⊎ (Rejected b w.posts ⊎ Buffered b w.buffer)

  -- Each name of the spool folder stands for one file.
  abbrev pub AllNamed : World o → Type 0
  AllNamed w = All (IsNamed w.buffer) w.buffer

  -- Every spooled file is older than the clock, so that a new one replaces none.
  abbrev pub IsFresh : World o → Type 0
  IsFresh w = All (λ e. e.stamp < o.time w.env) w.buffer

  -- Nothing that was durable is lost, and spooled files stay older than the clock.
  pub record Keeps (w v : World o) : Type 0 where
    pub fresh : IsFresh v
    pub durable : (b : o.Body) → Durable w b → Durable v b
    pub settled : (b : o.Body) → Settled w b → Settled v b
    pub named : AllNamed w → AllNamed v

  pub Keeps-refl : (w : World o) → IsFresh w → Keeps w w
  Keeps-refl w h = record { fresh = h; durable = λ b d. d; settled = λ b d. d; named = λ n. n }

  pub Keeps-trans : (u v w : World o) → Keeps u v → Keeps v w → Keeps u w
  Keeps-trans u v w h k = record {
    fresh = k.fresh;
    durable = λ b d. k.durable b (h.durable b d);
    settled = λ b d. k.settled b (h.settled b d);
    named = λ n. k.named (h.named n);
  }

  pub post-Settled : (w : World o) (b d : o.Body) → Settled w d → Settled (post o w b).0 d
  unfolding post
  post-Settled w b d (inl x) = inl (inr x)
  post-Settled w b d (inr (inl x)) = inr (inl (inr x))
  post-Settled w b d (inr (inr x)) = inr (inr x)

  pub post-Keeps : IsClocked o → (w : World o) (b : o.Body) → IsFresh w → Keeps w (post o w b).0
  unfolding post
  post-Keeps c w b h = record {
    fresh = IsBelow-≤ _ _ w.buffer (c.serve-time w.env b) h;
    durable = λ d. elim_durable d;
    settled = λ d. post-Settled w b d;
    named = λ n. n;
  }
    where
      elim_durable : (d : o.Body) → Durable w d → Durable (post o w b).0 d
      elim_durable d (inl x) = inl (inr x)
      elim_durable d (inr x) = inr x

  pub post-Delivered :
      (w : World o) (b : o.Body) (res : SendResult)
      → (post o w b).1 ≡ sent res
      → Delivered b (post o w b).0.posts
  unfolding post
  post-Delivered w b res e = inl (refl, sent-2xx (o.serve w.env b).1 res e)

  pub post-Rejected :
      (w : World o) (b : o.Body) (err : Text)
      → (post o w b).1 ≡ failed err
      → is_http_rejection err ≡ true
      → Rejected b (post o w b).0.posts
  unfolding post
  post-Rejected w b err e k = inl (refl, refused-status (o.serve w.env b).1 err e k)

  module _ (c : IsClocked o) (w : World o) (b : o.Body) (h : IsFresh w) where
    moved_on : All (λ e. e.stamp < o.time (o.write w.env).0) w.buffer
    moved_on = IsBelow-≤ (o.time w.env) _ w.buffer (omega (arith, c.write-time w.env)) h

    Keeps-put :
        (skip : Bool)
        → Keeps w (record {
          env = (o.write w.env).0;
          buffer = put (batch_file (o.time w.env) skip b) w.buffer;
          posts = w.posts;
        })
    Keeps-put skip = record {
      fresh = IsBelow-put _ _ w.buffer (c.write-time w.env) moved_on;
      durable = λ d k. still d k;
      settled = λ d k. stays d k;
      named = λ n. AllNamed-put _ w.buffer h n;
    }
      where
        still :
            (d : o.Body)
            → Durable w d
            → Delivered d w.posts ⊎ Buffered d (put (batch_file (o.time w.env) skip b) w.buffer)
        still d (inl x) = inl x
        still d (inr x) = inr (Buffered-put d _ w.buffer h x)

        stays :
            (d : o.Body)
            → Settled w d
            → Delivered d w.posts
              ⊎ (Rejected d w.posts ⊎ Buffered d (put (batch_file (o.time w.env) skip b) w.buffer))
        stays d (inl x) = inl x
        stays d (inr (inl x)) = inr (inl x)
        stays d (inr (inr x)) = inr (inr (Buffered-put d _ w.buffer h x))

    spooled_at-Keeps :
        (s : DiskStep)
        → let v = spooled_at o w b (o.write w.env).0 s in
          Keeps w v.0 × (v.1 ≡ none → Buffered b v.0.buffer)
    unfolding spooled_at
    spooled_at-Keeps stored = (Keeps-put false, (λ _. Buffered-put_new b _ w.buffer refl refl))
    spooled_at-Keeps (no_folder m) = (
      record { fresh = moved_on; durable = λ d k. k; settled = λ d k. k; named = λ n. n },
      (λ e. ground (arith, e)),
    )
    spooled_at-Keeps (no_write m) = (
      record { fresh = moved_on; durable = λ d k. k; settled = λ d k. k; named = λ n. n },
      (λ e. ground (arith, e)),
    )
    spooled_at-Keeps (no_rename m) = (Keeps-put true, (λ e. ground (arith, e)))

    spool-Keeps : let v = spool o w b in Keeps w v.0 × (v.1 ≡ none → Buffered b v.0.buffer)
    unfolding spool
    spool-Keeps = spooled_at-Keeps (o.write w.env).1

    pub send_spooled-Keeps :
        (u : Uploader) (err : Text)
        → let v = send_spooled o u w b err in
          Keeps w v.0 × ((res : SendResult) → v.1 ≡ sent res → Buffered b v.0.buffer)
    unfolding send_spooled
    send_spooled-Keeps u err = elim (Bool-cases (u.buffer_dir == [])) [
      | inl e ↦ rw e (Keeps-refl w h, (λ res k. ground (arith, k)))
      | inr e ↦ rw e (elim (Option-cases (spool o w b).1) [
        | inl none_left ↦ rw none_left (spool-Keeps.0, (λ _ _. spool-Keeps.1 none_left))
        | inr (werr, some_left) ↦ rw some_left (spool-Keeps.0, (λ res k. ground (arith, k)))
      ])
    ]
