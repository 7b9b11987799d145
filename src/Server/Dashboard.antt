-- ===== src/Server/Dashboard.antt =====
-- The handlers of internal/server/api.go that read: /summary, /langs, /clock, /activity, /users, /prices
-- and /healthz, and parseTime. Arguments stand for net/url (`get`), for the package time and for what the
-- driver makes of a time; encoding/json writes the rows. Days are numbers, which the queries print.
pub mod Times
pub mod Totals
pub mod Prices
use token_usage.Prelude.{
  ℕ, zero, suc, ◌≡◌, ◌^◌, ◌-◌, Bool, true, false, ◌&&◌, Option, none, some, List, [], ◌∷◌, map,
  Text, text_eq, codes, ◌==◌, ltb, leb, nat_beq, if◌then◌else◌,
}
use token_usage.Prelude.Int.{ℤ, pos, negsuc, add64}
use token_usage.Parsers.Std.{digits_value}
use token_usage.Parsers.Numbers.{all_digits}
use token_usage.Store.Keys.{DailyKey}
use token_usage.Store.Usage.{UsageDetail, UsageSums}
use token_usage.Store.Usage.Rebuild.{DailyTable}
use token_usage.Store.Edits.{EditSums}
use token_usage.Store.Prices.{Price}
use token_usage.Store.Prices.Lists.{list_active_prices, list_price_history}
use token_usage.Store.Queries.{LangRow, EditDaily, ActivityRow, lang_aggregate, activity_aggregate}
use token_usage.Store.Queries.Clock.{ClockRow, Zones, clock_aggregate}
use token_usage.Store.Queries.Priced.{Float, Rates, AggRow, aggregate}
use token_usage.Server.Auth.{User}
use token_usage.Server.Auth.Lists.{UserRow, list_users}
use token_usage.Server.Pricer.{cost}

-- A request for a page: its method, and `r.URL.Query().Get`.
pub record PageRequest : Type 0 where
  pub method : Text
  pub get : Text → Text

pub data Answer (A : Type 0) : Type 0 where
  http_error : ℕ → Text → Answer A
  rows_json : List A → Answer A

-- time.Parse(time.RFC3339, s), time.Unix(n, 0).UTC() and Format(time.RFC3339). A time is the nanoseconds
-- since the zero time for the queries, which is 0, and the microseconds since it in a row.
pub record TimeCodec : Type 0 where
  pub rfc3339 : Text → Option ℕ
  pub unix : ℤ → ℕ
  pub format : ℕ → Text

-- the number that digits spell, up to a limit
unfoldable pub parse_digits : ℕ → Text → Option ℕ
unfolding digits_value all_digits
parse_digits limit [] = none
parse_digits limit (a ∷ s) =
    if all_digits (a ∷ s) && leb (digits_value 0 (a ∷ s)) limit
    then some (digits_value 0 (a ∷ s))
    else none

abbrev negated : ℕ → ℤ
negated zero = pos 0
negated (suc n) = negsuc n

-- strconv.ParseInt(s, 10, 64)
unfoldable pub parse_int : Text → Option ℤ
unfolding parse_digits
parse_int [] = none
parse_int (a ∷ s) =
    if nat_beq a b'-'
    then elim (parse_digits (2 ^ 63) s) [ none ↦ none | some n ↦ some (negated n) ]
    else if nat_beq a b'+'
    then elim (parse_digits (2 ^ 63 - 1) s) [ none ↦ none | some n ↦ some (pos n) ]
    else elim (parse_digits (2 ^ 63 - 1) (a ∷ s)) [ none ↦ none | some n ↦ some (pos n) ]

-- `parseTime`; 0 is the zero time
unfoldable pub parse_time : TimeCodec → Text → ℕ
unfolding parse_int
parse_time times s = if s == [] then 0 else elim (times.rfc3339 s) [
  | some t ↦ t
  | none ↦ elim (parse_int s) [ some n ↦ times.unix n | none ↦ 0 ]
]

abbrev method_not_allowed : {A : Type 0} → Answer A
method_not_allowed = http_error 405 (codes "method not allowed")

abbrev store_error : {A : Type 0} → Answer A
store_error = http_error 500 (codes "store error")

-- A handler: only GET is served, and an error of the query is hidden from the client.
unfoldable pub answer : {A B : Type 0} → (A → B) → PageRequest → Option (List A) → Answer B
answer view r rows =
    if r.method == codes "GET"
    then elim rows [ none ↦ store_error | some found ↦ rows_json (map view found) ]
    else method_not_allowed

-- `handleHealth`: the status and the body
abbrev handle_health : ℕ × Text
handle_health = (200, codes "ok")

pub record SummaryRow (F : Type 0) : Type 0 where
  pub day : ℕ
  pub user : Text
  pub tool : Text
  pub model : Text
  pub input : ℤ
  pub output : ℤ
  pub cache_cc : ℤ
  pub cache_cc1h : ℤ
  pub cache_rr : ℤ
  pub total : ℤ
  pub messages : ℕ
  pub cost : F

pub record UserView : Type 0 where
  pub user_id : Text
  pub email : Text
  pub created_at : Text
  pub disabled : Bool

pub record PriceView (F : Type 0) : Type 0 where
  pub model : Text
  pub valid_from : Text
  pub valid_to : Text
  pub rates : Rates F
  pub source : Text

abbrev user_view : TimeCodec → UserRow → UserView
user_view times u = record {
  user_id = u.user_id;
  email = u.email;
  created_at = times.format u.created_at;
  disabled = u.disabled;
}

abbrev valid_to_text : TimeCodec → Option ℕ → Text
valid_to_text times none = []
valid_to_text times (some t) = times.format t

abbrev pub price_view : {F : Type 0} → TimeCodec → Price (Rates F) → PriceView F
price_view times p = record {
  model = p.model_prefix;
  valid_from = times.format p.valid_from;
  valid_to = valid_to_text times p.valid_to;
  rates = p.rates;
  source = p.source;
}

module _ {F : Type 0} (fl : Float F) where
  -- the row of /summary; a cost of zero is asked of the prices in memory
  unfoldable pub summary_row : (F → Bool) → List (Text × Rates F) → AggRow F → SummaryRow F
  unfolding add64 cost
  summary_row is_zero rates row =
      let s = row.sums in
      record {
        day = row.day;
        user = row.user;
        tool = row.tool;
        model = row.model;
        input = s.input_tokens;
        output = s.output_tokens;
        cache_cc = s.cache_creation_tokens;
        cache_cc1h = s.cache_creation_1h_tokens;
        cache_rr = s.cache_read_tokens;
        total =
            add64 (add64 (add64 s.input_tokens s.output_tokens) s.cache_creation_tokens)
              s.cache_read_tokens;
        messages = s.messages;
        cost =
            if is_zero row.cost
            then cost fl rates row.model s.input_tokens s.output_tokens s.cache_creation_tokens
                s.cache_creation_1h_tokens s.cache_read_tokens
            else row.cost;
      }

module _ (times : TimeCodec) (fault : Bool) (r : PageRequest) where
  abbrev pub from_of : ℕ
  from_of = parse_time times (r.get (codes "from"))

  abbrev pub to_of : ℕ
  to_of = parse_time times (r.get (codes "to"))

  -- `handleLangs`
  unfoldable handle_langs :
      ((DailyKey × EditSums) → (DailyKey × EditSums) → Bool) → EditDaily → Answer LangRow
  unfolding answer lang_aggregate parse_time
  handle_langs before daily =
      answer (λ row. row) r (lang_aggregate before fault (r.get (codes "user")) from_of to_of daily)

  -- `handleActivity`
  unfoldable pub handle_activity : DailyTable → Answer ActivityRow
  unfolding answer activity_aggregate parse_time
  handle_activity daily =
      answer (λ row. row) r (activity_aggregate fault (r.get (codes "user")) from_of to_of daily)

  -- `handleUsers`
  unfoldable handle_users : (User → User → Bool) → List User → Answer UserView
  unfolding answer list_users
  handle_users before users = answer (user_view times) r (list_users before fault users)

  module _ {F : Type 0} where
    -- `handlePrices`
    unfoldable pub handle_prices :
        (Price (Rates F) → Price (Rates F) → Bool) → List (Price (Rates F)) → Answer (PriceView F)
    unfolding answer list_active_prices list_price_history
    handle_prices before prices = answer (price_view times) r (
        if r.get (codes "active") == codes "1"
        then list_active_prices before fault prices
        else list_price_history before fault (r.get (codes "model")) prices)

    module _ (fl : Float F) (midnight : ℕ → ℕ) (prices : List (Price (Rates F))) where
      -- `handleClock`
      unfoldable handle_clock : Zones → (ℕ → ℕ) → List UsageDetail → Answer (ClockRow F)
      unfolding answer clock_aggregate parse_time
      handle_clock zones micros detail =
          answer (λ row. row) r
            (clock_aggregate fl midnight prices zones micros fault (r.get (codes "user"))
              (r.get (codes "tz")) from_of to_of detail)

      -- `handleSummary`
      unfoldable pub handle_summary :
          ((DailyKey × UsageSums) → (DailyKey × UsageSums) → Bool)
          → (F → Bool)
          → List (Text × Rates F)
          → DailyTable
          → Answer (SummaryRow F)
      unfolding answer aggregate summary_row parse_time
      handle_summary before is_zero rates daily =
          answer (summary_row fl is_zero rates) r
            (aggregate fl midnight prices before fault (r.get (codes "user")) from_of to_of daily)
