-- ===== src/Sort.antt =====
-- Sorting, for ORDER BY in the server's queries and for the package `sort` of Go.
pub mod Laws
use token_usage.Prelude.{
  ◌≡◌, Bool, true, false, ◌&&◌, List, [], ◌∷◌, Text, ltb, nat_beq, if◌then◌else◌,
}

-- ORDER BY; `before` says that a row does not come after another.
unfoldable pub insert_sorted : {A : Type 0} → (A → A → Bool) → A → List A → List A
insert_sorted before x [] = x ∷ []
insert_sorted before x (y ∷ ys) =
    let rest = insert_sorted before x ys in if before y x then y ∷ rest else x ∷ y ∷ ys

unfoldable pub order_by : {A : Type 0} → (A → A → Bool) → List A → List A
unfolding insert_sorted
order_by before [] = []
order_by before (x ∷ xs) = insert_sorted before x (order_by before xs)

-- sort.Strings compares bytes
unfoldable pub text_leb : Text → Text → Bool
text_leb [] t = true
text_leb (a ∷ s) [] = false
text_leb (a ∷ s) (b ∷ t) = let rest = text_leb s t in if ltb a b then true else nat_beq a b && rest
