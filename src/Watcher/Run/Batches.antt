-- ===== src/Watcher/Run/Batches.antt =====
-- Sending records in batches: every record goes out, and none is lost.
use token_usage.Prelude.{
  inl, inr, ℕ, zero, suc, ◌+◌, ◌-◌, ◌<◌, ◌≤◌, ◌≡◌, refl, sym, ap, ◌∙◌, Bool, true, false, Option,
  some, List, [], ◌∷◌, ◌++◌, arith, All, length, take, drop, take-append-drop, length-drop, min,
  ltb, nat_beq, Bool-cases,
}
use mathlib.Core.List.{Memᴰ}
use mathlib.Core.Path.{subst}
use token_usage.Types.{IngestRequest}
use token_usage.Watcher.Upload.{Outside, World, SendResult, Sent, sent}
use token_usage.Watcher.Upload.Durable.{IsFresh, Keeps, Durable, Keeps-refl, Keeps-trans}
use token_usage.Watcher.Upload.Send.{Sent-cases}
use token_usage.Watcher.Run.{send_windows, send_batched}

module _ {A : Type 0} (P : A → Type 0) where
  pub All-Mem : (xs : List A) → ((x : A) → Memᴰ x xs → P x) → All P xs
  All-Mem [] h = tt
  All-Mem (x ∷ xs) h = (h x (Memᴰ.head refl), All-Mem xs (λ y m. h y (Memᴰ.tail m)))

  pub All-map : (Q : A → Type 0) (xs : List A) → ((x : A) → P x → Q x) → All P xs → All Q xs
  All-map Q [] f h = tt
  All-map Q (x ∷ xs) f (hx, hs) = (f x hx, All-map Q xs f hs)

  pub All-append : (xs ys : List A) → All P xs → All P ys → All P (xs ++ ys)
  All-append [] ys h k = k
  All-append (x ∷ xs) ys (hx, hs) k = (hx, All-append xs ys hs k)

module _ {A : Type 0} where
  drop_nil : (n : ℕ) → drop {A = A} n [] ≡ []
  drop_nil zero = refl
  drop_nil (suc n) = refl

  drop_add : (s b : ℕ) (xs : List A) → drop (s + b) xs ≡ drop b (drop s xs)
  drop_add zero b xs = ap (λ n. drop n xs) (omega arith)
  drop_add (suc s) b [] = drop_nil (suc s + b) ∙ sym (drop_nil b)
  drop_add (suc s) b (x ∷ xs) =
      let e : suc s + b ≡ suc (s + b) = omega arith in ap (λ n. drop n (x ∷ xs)) e ∙ drop_add s b xs

  take-min : (b : ℕ) (xs : List A) → take (min b (length xs)) xs ≡ take b xs
  take-min zero xs = ground arith
  take-min (suc b) [] = ground arith
  take-min (suc b) (x ∷ xs) = ground (arith, take-min b xs)

  window :
      (s b : ℕ) (xs : List A) → take (min (s + b) (length xs) - s) (drop s xs) ≡ take b (drop s xs)
  window s b xs =
      let cut : min (s + b) (length xs) - s ≡ min b (length (drop s xs)) =
        omega (arith, length-drop s xs) in
      rw cut (take-min b (drop s xs))

  drop_past : (s : ℕ) (xs : List A) → length xs ≤ s → drop s xs ≡ []
  drop_past zero [] h = refl
  drop_past zero (x ∷ xs) h = absurd (omega arith)
  drop_past (suc s) [] h = refl
  drop_past (suc s) (x ∷ xs) h = drop_past s xs (omega arith)

module _ (o : Outside) {A : Type 0} (part : IngestRequest → List A) where
  -- A record is in a batch that is durable.
  abbrev pub Carried : World o → A → Type 0
  Carried w r =
      (b : o.Body) × (req : IngestRequest) × (o.marshal req ≡ some b)
      × Memᴰ r (part req)
      × Durable o w b

  pub Carried-Keeps : (w v : World o) → Keeps o w v → (r : A) → Carried w r → Carried v r
  Carried-Keeps w v k r (b, req, e, m, d) = (b, req, e, m, k.durable b d)

  -- What sending some records does: nothing is lost, and without an error all of them are carried.
  abbrev pub Sends : World o → World o × Sent → List A → Type 0
  Sends w v rs = Keeps o w v.0 × ((res : SendResult) → v.1 ≡ sent res → All (Carried v.0) rs)

  module _ (recs : List A) (f : World o → ℕ → ℕ → World o × Sent)
      (law : (w : World o) (s t : ℕ) → IsFresh o w → Sends w (f w s t) (take (t - s) (drop s recs)))
      (batch_size : ℕ) where
    abbrev pub Always : Type 0
    Always = (w : World o) (s t : ℕ) → (res : SendResult) × ((f w s t).1 ≡ sent res)

    -- The outcome of the loop from `start`: it ends, and if it says so, everything from there is carried;
    -- it says so if no send fails.
    abbrev pub Ends : ℕ → World o → Option (World o × Bool) → Type 0
    Ends start w out =
        (v : World o) × (ok : Bool) × (out ≡ some (v, ok))
        × Keeps o w v
        × (ok ≡ true → All (Carried v) (drop start recs))
        × (Always → ok ≡ true)

    window_and_rest :
        (start : ℕ) (v w : World o)
        → Keeps o v w
        → All (Carried v) (take (min (start + batch_size) (length recs) - start) (drop start recs))
        → All (Carried w) (drop (start + batch_size) recs)
        → All (Carried w) (drop start recs)
    window_and_rest start v w k h rest =
        let d = drop start recs in
        subst (All (Carried w)) (take-append-drop batch_size d) (
          All-append (Carried w) (take batch_size d) (drop batch_size d)
            (All-map (Carried v) (Carried w) (take batch_size d) (Carried-Keeps v w k)
              (rw (sym (window start batch_size recs)) h))
            (rw (sym (drop_add start batch_size recs)) rest))

    ended :
        (start : ℕ) (w : World o)
        → IsFresh o w
        → ltb start (length recs) ≡ false
        → Ends start w (some (w, true))
    ended start w h past =
        let nothing = drop_past start recs (ground (arith, past)) in
        (w, true, refl, Keeps-refl o w h, (λ _. rw nothing tt), (λ _. refl))

    windows-Ends :
        0 < batch_size
        → (fuel start : ℕ) (w : World o) → length recs ≤ start + fuel
        → IsFresh o w
        → Ends start w (send_windows o fuel start (length recs) batch_size f w)
    unfolding send_windows
    windows-Ends pos_size zero start w enough h =
        let past : ltb start (length recs) ≡ false = ground arith in rw past (ended start w h past)
    windows-Ends pos_size (suc fuel) start w enough h =
        elim (Bool-cases (ltb start (length recs))) [
          | inr past ↦ rw past (ended start w h past)
          | inl inside ↦
              let end = min (start + batch_size) (length recs) in
              let one = law w start end h in
              elim (Sent-cases (f w start end).1) [
                | inr (err, e) ↦
                    rw (inside, e)
                      (
                        (f w start end).0,
                        false,
                        refl,
                        one.0,
                        (λ k. ground (arith, k)),
                        (λ l. ground (arith, e, l w start end)),
                      )
                | inl (res, e) ↦
                    let rest =
                      windows-Ends pos_size fuel (start + batch_size) (f w start end).0
                        (omega arith) one.0.fresh in
                    rw (inside, e)
                      (
                        rest.0,
                        rest.1,
                        rest.2,
                        Keeps-trans o w (f w start end).0 rest.0 one.0 rest.3,
                        (λ k.
                            window_and_rest start (f w start end).0 rest.0 rest.3 (one.1 res e)
                              (rest.4 k)),
                        rest.5,
                      )
              ]
        ]

    pub batched-Ends :
        0 < batch_size
        → (w : World o) → IsFresh o w
        → Ends 0 w (send_batched o (length recs) batch_size f w)
    unfolding send_batched
    batched-Ends pos_size w h =
        let size : nat_beq batch_size 0 ≡ false = ground arith in
        elim (Bool-cases (nat_beq (length recs) 0)) [
          | inl none_there ↦ rw none_there (ended 0 w h (ground (arith, none_there)))
          | inr some_there ↦
              rw (some_there, size) (windows-Ends pos_size (length recs) 0 w (omega arith) h)
        ]
