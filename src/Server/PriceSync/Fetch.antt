-- ===== src/Server/PriceSync/Fetch.antt =====
-- internal/server/pricesync.go: the table is fetched, again if that fails, and the prices are upserted. The
-- network, the clock and the cancellation of the context are arguments. A duration is a number of
-- milliseconds.
use token_usage.Prelude.{
  ℕ, suc, zero, ◌-◌, ◌*◌, min, Bool, true, false, ◌||◌, Option, none, some, List, [], ◌∷◌, Text, Eq,
  length, leb, nat_beq, if◌then◌else◌,
}
use token_usage.Store.Prices.{Price, upsert_price}
use token_usage.Store.Queries.Priced.{Float, Rates}
use token_usage.Server.PriceSync.{LiteLlmEntry, PriceRow, select_price_rows}

-- What the network makes of one request.
pub data Fetch (F : Type 0) : Type 0 where
  no_request : Fetch F
  transport_error : Fetch F
  response : ℕ → Option (List (Text × LiteLlmEntry F)) → Fetch F

-- What `fetchPriceJSONOnce` returns: the table, or an error and whether it may pass.
pub data Fetched (F : Type 0) : Type 0 where
  table : List (Text × LiteLlmEntry F) → Fetched F
  error : Bool → Fetched F

-- How a sync's fetch ends: with the table, with the last error, or cancelled.
pub data Ending (F : Type 0) : Type 0 where
  finished : List (Text × LiteLlmEntry F) → Ending F
  gave_up : Ending F
  cancelled : Ending F

-- The ending, the number of requests, and the waits between them.
pub record Sync (F : Type 0) : Type 0 where
  pub ending : Ending F
  pub requests : ℕ
  pub waits : List ℕ

abbrev price_sync_max_attempts : ℕ
price_sync_max_attempts = 10

abbrev price_sync_initial_backoff : ℕ
price_sync_initial_backoff = 1000

abbrev pub price_sync_max_backoff : ℕ
price_sync_max_backoff = 30_000

module _ {F : Type 0} where
  -- `fetchPriceJSONOnce`
  unfoldable pub fetch_price_json_once : Fetch F → Fetched F
  fetch_price_json_once no_request = error false
  fetch_price_json_once transport_error = error true
  fetch_price_json_once (response status body) =
      if nat_beq status 200
      then elim body [ none ↦ error false | some raw ↦ table raw ]
      else error (leb 500 status || (nat_beq status 408 || nat_beq status 429))

  abbrev pub ends : Ending F → Sync F
  ends e = record { ending = e; requests = 1; waits = [] }

  -- one attempt: cancelled before it, or ended by its answer, or to be followed by `next`
  abbrev pub attempt_once : Bool → Fetched F → Sync F → Sync F
  attempt_once true got next = record { ending = cancelled; requests = 0; waits = [] }
  attempt_once false (table raw) next = ends (finished raw)
  attempt_once false (error false) next = ends gave_up
  attempt_once false (error true) next = next

  -- the wait behind an attempt, cancelled or not, and what follows it
  abbrev pub after_wait : Bool → ℕ → Sync F → Sync F
  after_wait true backoff rest = ends cancelled
  after_wait false backoff rest = record {
    ending = rest.ending;
    requests = suc rest.requests;
    waits = backoff ∷ rest.waits;
  }

  -- `cancelled_at` is ctx.Err() before a request, `cancelled_after` is ctx.Done() during the wait
  -- behind it.
  module _ (fetch : ℕ → Fetch F) (cancelled_at cancelled_after : ℕ → Bool) where
    -- the loop, with the attempts that are left after this one
    unfoldable pub fetch_attempts : ℕ → ℕ → ℕ → Sync F
    unfolding fetch_price_json_once
    fetch_attempts zero attempt backoff =
        attempt_once (cancelled_at attempt) (fetch_price_json_once (fetch attempt)) (ends gave_up)
    fetch_attempts (suc left) attempt backoff =
        let rest = fetch_attempts left (suc attempt) (min (backoff * 2) price_sync_max_backoff) in
        attempt_once (cancelled_at attempt) (fetch_price_json_once (fetch attempt))
          (after_wait (cancelled_after attempt) backoff rest)

    -- `fetchPriceJSONWithRetry`
    unfoldable pub fetch_price_json_with_retry : Sync F
    unfolding fetch_attempts
    fetch_price_json_with_retry =
        fetch_attempts (price_sync_max_attempts - 1) 1 price_sync_initial_backoff

-- `SyncPrices` behind the fetch: considered, changed, and the rows of model_prices. An upsert that fails is
-- only logged. The clock is read twice for a price: `clock` is time.Now() of the nth price, and `now` the
-- NOW() of its transaction.
module _ {F : Type 0} ⦃er : Eq (Rates F)⦄ (fault : ℕ → Bool) (now clock : ℕ → ℕ) where
  unfoldable sync_rows : ℕ → List (PriceRow F) → List (Price (Rates F)) → ℕ × List (Price (Rates F))
  sync_rows n [] prices = (0, prices)
  sync_rows n (row ∷ rows) prices =
      let done =
        upsert_price (fault n) (now n) (clock n) row.model_prefix (clock n) row.rates row.source
          prices in
      let rest = sync_rows (suc n) rows done.1 in
      elim done.0 [ none ↦ rest | some changed ↦ if changed then (suc rest.0, rest.1) else rest ]

  -- `SyncPrices`: (considered, changed), or an error
  unfoldable sync_prices :
      Float F → Ending F → List (Price (Rates F)) → Option (ℕ × ℕ) × List (Price (Rates F))
  unfolding select_price_rows sync_rows
  sync_prices fl (finished raw) prices =
      let rows = select_price_rows fl raw in
      let done = sync_rows 0 rows prices in (some (length rows, done.0), done.1)
  sync_prices fl gave_up prices = (none, prices)
  sync_prices fl cancelled prices = (none, prices)
