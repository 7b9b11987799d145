-- ===== src/Parsers/Lines.antt =====
-- Splitting a text at a byte, against joining.
use token_usage.Prelude.{ℕ, ◌≡◌, refl, ap, ◌∙◌, List, [], ◌∷◌, ◌++◌, Text, arith, All, Lacks, split}
use token_usage.Parsers.Std.{join}

split-Lacks : (b : ℕ) (p : Text) → Lacks b p → split p b ≡ p ∷ []
unfolding split
split-Lacks b [] h = refl
split-Lacks b (a ∷ p) (ha, hp) = ground (arith, split-Lacks b p hp)

split-append : (b : ℕ) (p rest : Text) → Lacks b p → split (p ++ b ∷ rest) b ≡ p ∷ split rest b
unfolding split
split-append b [] rest h = ground arith
split-append b (a ∷ p) rest (ha, hp) = ground (arith, split-append b p rest hp)

-- Splitting a join gives the parts back, if there is a part and none holds the separator.
pub split-join :
    (b : ℕ) (p : Text) (ps : List Text)
    → All (Lacks b) (p ∷ ps)
    → split (join (p ∷ ps) (b ∷ [])) b ≡ p ∷ ps
unfolding join
split-join b p [] (hp, _) = split-Lacks b p hp
split-join b p (q ∷ ps) (hp, hs) =
    split-append b p (join (q ∷ ps) (b ∷ [])) hp ∙ ap (λ r. p ∷ r) (split-join b q ps hs)
