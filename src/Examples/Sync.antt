-- ===== src/Examples/Sync.antt =====
-- internal/server/pricesync.go: model names, three entries of one model, and a network that is always down;
-- internal/server/pricing.go: two prefixes of one model.
use token_usage.Sort.{insert_sorted, order_by, text_leb}
use token_usage.Prelude.{
  ℕ, ◌≤◌, ◌≡◌, refl, Bool, false, Option, none, some, List, [], ◌∷◌, Text, codes, All, text_eq,
  contains, index, has_prefix, text_beq,
}
use token_usage.Table.{lookup, alter}
use token_usage.Parsers.Lang.{after_last}
use token_usage.Server.PriceSync.{
  LiteLlmEntry, Candidate, normalize_model, strip_date, strip_shape, has_shape, is_priced,
  price_candidate_rank, choose, by_name,
}
use token_usage.Server.Pricer.{rate_of, reindex, first_prefix}
use token_usage.Server.Pricer.Longest.{Longest, rate_of-Longest}
use token_usage.Server.PriceSync.Names.{Entry}
use token_usage.Server.PriceSync.Chosen.{Chosen, choose-Chosen}
use token_usage.Server.PriceSync.Fetch.{Fetch, transport_error, fetch_price_json_with_retry}
use token_usage.Server.PriceSync.Retry.{sum_waits, fetch_price_json_with_retry-bounds}

normalize_claude :
    normalize_model (codes "anthropic/claude-3-5-sonnet-20241022") ≡ codes "claude-3-5-sonnet"
unfolding normalize_model strip_date strip_shape has_shape after_last
normalize_claude = refl

normalize_deepseek :
    normalize_model (codes "openrouter/deepseek/deepseek-v4.1-flash") ≡ codes "deepseek-v4.1-flash"
unfolding normalize_model strip_date strip_shape has_shape after_last
normalize_deepseek = refl

normalize_gpt : normalize_model (codes "gpt-4o-2024-08-06") ≡ codes "gpt-4o"
unfolding normalize_model strip_date strip_shape has_shape after_last
normalize_gpt = refl

abbrev entry : Option ℕ → LiteLlmEntry ℕ
entry cache = record {
  input_cost_per_token = some 1;
  output_cost_per_token = some 5;
  cache_creation_cost_per_token = none;
  cache_creation_1h_cost_per_token = none;
  cache_read_cost_per_token = cache;
  litellm_provider = codes "anthropic";
  mode = codes "chat";
}

abbrev entries : List (Entry ℕ)
entries =
    (codes "vertex_ai/haiku", entry none)
    ∷ (codes "haiku", entry none)
    ∷ (codes "azure_ai/haiku", entry none)
    ∷ []

abbrev vendor : Candidate ℕ
vendor = record { entry = entry none; source = codes "haiku"; rank = 1 }

-- The entry without a provider is taken.
chosen_vendor : lookup (codes "haiku") (choose (order_by by_name entries) []) ≡ some vendor
unfolding choose is_priced normalize_model strip_date strip_shape has_shape after_last order_by
    insert_sorted text_leb price_candidate_rank contains index has_prefix lookup alter text_beq
chosen_vendor = refl

choose-Chosen_example :
    Chosen ℕ (codes "haiku") entries (lookup (codes "haiku") (choose (order_by by_name entries) []))
choose-Chosen_example = choose-Chosen ℕ (codes "haiku") entries

abbrev network_down : ℕ → Fetch ℕ
network_down n = transport_error

abbrev never : ℕ → Bool
never n = false

fetch_price_json_with_retry-bounds_example :
    ((fetch_price_json_with_retry network_down never never).requests ≤ 10)
    × All (λ w. w ≤ 30_000) (fetch_price_json_with_retry network_down never never).waits
    × (sum_waits (fetch_price_json_with_retry network_down never never).waits ≤ 151_000)
fetch_price_json_with_retry-bounds_example =
    fetch_price_json_with_retry-bounds network_down never never

abbrev two_rates : List (Text × ℕ)
two_rates = (codes "gpt-4o", 250) ∷ (codes "gpt-4o-mini", 15) ∷ (codes "gpt-4", 3000) ∷ []

mini_rate : rate_of two_rates (codes "gpt-4o-mini-2024") ≡ some 15
unfolding rate_of reindex first_prefix order_by insert_sorted has_prefix lookup text_beq
mini_rate = refl

rate_of-Longest_example :
    Longest two_rates (codes "gpt-4o-mini-2024") (rate_of two_rates (codes "gpt-4o-mini-2024"))
rate_of-Longest_example = rate_of-Longest two_rates (codes "gpt-4o-mini-2024")
