-- ===== src/Server/PriceSync/Names.antt =====
-- The entries of a map, sorted by their names in the order of bytes.
use token_usage.Sort.{order_by}
use token_usage.Sort.Laws.{Sorted, order_by-Sorted, text_leb_total, text_leb_trans}
use token_usage.Prelude.{List, Text, text_eq}
use token_usage.Server.PriceSync.{LiteLlmEntry, by_name}

abbrev pub Entry : Type 0 → Type 0
Entry F = Text × LiteLlmEntry F

module _ (F : Type 0) where
  pub order_by-by_name : (rows : List (Entry F)) → Sorted by_name (order_by by_name rows)
  order_by-by_name =
      order_by-Sorted by_name (λ x y. text_leb_total x.0 y.0) (λ x y z. text_leb_trans x.0 y.0 z.0)
