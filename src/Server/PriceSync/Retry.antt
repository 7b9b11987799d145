-- ===== src/Server/PriceSync/Retry.antt =====
-- The retries of a fetch end.
use token_usage.Prelude.{
  inl, inr, ℕ, suc, zero, ◌+◌, ◌*◌, min, ◌≤◌, ◌<◌, ◌≡◌, refl, Bool, true, false, Text, List, [],
  ◌∷◌, All, arith, nat_beq, nat_beq_iff, Bool-cases,
}
use token_usage.Server.PriceSync.{LiteLlmEntry}
use token_usage.Server.PriceSync.Fetch.{
  Fetch, Fetched, table, error, finished, gave_up, Sync, price_sync_max_backoff,
  fetch_price_json_once, attempt_once, after_wait, ends, fetch_attempts,
  fetch_price_json_with_retry,
}

abbrev pub sum_waits : List ℕ → ℕ
sum_waits [] = 0
sum_waits (w ∷ ws) = w + sum_waits ws

-- the waits if every attempt fails
abbrev worst : ℕ → ℕ → ℕ
worst zero backoff = 0
worst (suc left) backoff = backoff + worst left (min (backoff * 2) price_sync_max_backoff)

-- at most so many requests, and no wait beyond the bounds
abbrev IsBounded : {F : Type 0} → ℕ → ℕ → Sync F → Type 0
IsBounded requests total s =
    (s.requests ≤ requests)
    × All (λ w. w ≤ price_sync_max_backoff) s.waits
    × (sum_waits s.waits ≤ total)

attempt_once-IsBounded :
    {F : Type 0} (n total : ℕ) (stop : Bool) (got : Fetched F) (next : Sync F)
    → 1 ≤ n
    → IsBounded n total next
    → IsBounded n total (attempt_once stop got next)
attempt_once-IsBounded n total true got next h b = (omega arith, tt, omega arith)
attempt_once-IsBounded n total false (table raw) next h b = (h, tt, omega arith)
attempt_once-IsBounded n total false (error false) next h b = (h, tt, omega arith)
attempt_once-IsBounded n total false (error true) next h b = b

after_wait-IsBounded :
    {F : Type 0} (n total backoff : ℕ) (stop : Bool) (rest : Sync F)
    → backoff ≤ price_sync_max_backoff
    → IsBounded n total rest
    → IsBounded (suc n) (backoff + total) (after_wait stop backoff rest)
after_wait-IsBounded n total backoff true rest h b = (omega arith, tt, omega arith)
after_wait-IsBounded n total backoff false rest h (requests, waits, sum) =
    (omega arith, (h, waits), omega arith)

module _ {F : Type 0} (fetch : ℕ → Fetch F) (cancelled_at cancelled_after : ℕ → Bool) where
  fetch_attempts-IsBounded :
      (left attempt backoff : ℕ)
      → backoff ≤ price_sync_max_backoff
      → IsBounded
          (suc left)
          (worst left backoff)
          (fetch_attempts fetch cancelled_at cancelled_after left attempt backoff)
  unfolding fetch_attempts
  fetch_attempts-IsBounded zero attempt backoff h =
      attempt_once-IsBounded 1 0 (cancelled_at attempt) _ (ends gave_up) (omega arith)
        (omega arith, tt, omega arith)
  fetch_attempts-IsBounded (suc left) attempt backoff h =
      attempt_once-IsBounded _ _ (cancelled_at attempt) _ _ (omega arith) (
        after_wait-IsBounded _ _ backoff (cancelled_after attempt) _ h (
          fetch_attempts-IsBounded left (suc attempt) (min (backoff * 2) price_sync_max_backoff)
            (omega arith)))

  -- Whatever the network answers, a fetch sends at most 10 requests, waits at most 30 seconds between two of
  -- them and at most 151 seconds in all.
  pub fetch_price_json_with_retry-bounds :
      ((fetch_price_json_with_retry fetch cancelled_at cancelled_after).requests ≤ 10)
      × All (λ w. w ≤ 30_000) (fetch_price_json_with_retry fetch cancelled_at cancelled_after).waits
      × (sum_waits (fetch_price_json_with_retry fetch cancelled_at cancelled_after).waits ≤ 151_000)
  unfolding fetch_price_json_with_retry
  fetch_price_json_with_retry-bounds = fetch_attempts-IsBounded 9 1 1000 (omega arith)

  fetch_attempts-ending :
      (success left attempt backoff : ℕ) {raw : List (Text × LiteLlmEntry F)}
      → attempt ≤ success
      → success ≤ attempt + left
      → ((n : ℕ)
          → attempt ≤ n
          → n < success
          → (cancelled_at n ≡ false)
            × (fetch_price_json_once (fetch n) ≡ error true)
            × (cancelled_after n ≡ false))
      → cancelled_at success ≡ false
      → fetch_price_json_once (fetch success) ≡ table raw
      → (fetch_attempts fetch cancelled_at cancelled_after left attempt backoff).ending
        ≡ finished raw
  unfolding fetch_attempts
  fetch_attempts-ending success zero attempt backoff low high before go got =
      let e : attempt ≡ success = omega arith in rw (fetch_attempts, e, go, got) refl
  fetch_attempts-ending success (suc left) attempt backoff low high before go got =
      elim (Bool-cases (nat_beq attempt success)) [
        | inl same ↦
            let e : attempt ≡ success = (nat_beq_iff attempt success).0 same in
            rw (fetch_attempts, e, go, got) refl
        | inr other ↦
            let less : attempt < success =
              ground (arith, low, nat_beq_iff attempt success, other) in
            let (a, b, c) = before attempt (omega arith) less in
            rw (fetch_attempts, a, b, c)
              (fetch_attempts-ending success left (suc attempt)
                (min (backoff * 2) price_sync_max_backoff) (omega arith) (omega arith)
                (λ n from to. before n (omega arith) to) go got)
      ]

  -- A fetch returns the table of the first request that is answered with one, if it is among the first 10,
  -- the requests before it failed in a way that may pass, and nothing was cancelled up to then.
  fetch_price_json_with_retry-ending :
      (success : ℕ) {raw : List (Text × LiteLlmEntry F)}
      → 1 ≤ success
      → success ≤ 10
      → ((n : ℕ)
          → 1 ≤ n
          → n < success
          → (cancelled_at n ≡ false)
            × (fetch_price_json_once (fetch n) ≡ error true)
            × (cancelled_after n ≡ false))
      → cancelled_at success ≡ false
      → fetch_price_json_once (fetch success) ≡ table raw
      → (fetch_price_json_with_retry fetch cancelled_at cancelled_after).ending ≡ finished raw
  unfolding fetch_price_json_with_retry
  fetch_price_json_with_retry-ending success low high before go got =
      fetch_attempts-ending success 9 1 1000 low high before go got
