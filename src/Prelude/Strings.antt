-- ===== src/Prelude/Strings.antt =====
-- A Go string is the list of its bytes. What the program takes from the packages `strings` and
-- `strconv` is defined here.
use Prim.Native.Nat.{ℕ, suc, ◌-◌}
use Prim.Native.Char.{code}
use Prim.Native.String.{String}
use mathlib.Core.Path.{◌≡◌, refl, ap₂}
use mathlib.Core.Logic.{◌↔◌, ◌≢◌}
use mathlib.Core.Bool.{Bool, true, false, ◌&&◌}
use mathlib.Core.Option.{Option, none, some}
use mathlib.Core.List.{List, [], ◌∷◌, ◌++◌, reverse}
use native.Mathlib.Omega.{arith}
use token_usage.Prelude.Tests.{nat_beq, if◌then◌else◌}
use token_usage.Prelude.Classes.{Eq, nat_eq}
use token_usage.Prelude.Lists.{length, take, All}

abbrev pub Text : Type 0
Text = List ℕ

-- A text in which a byte does not occur.
abbrev pub Lacks : ℕ → Text → Type 0
Lacks b = All (λ c. c ≢ b)

-- The bytes of an ASCII literal.
abbrev pub codes : String → Text
codes String.[] = []
codes (String.◌∷◌ c s) = code c ∷ codes s

unfoldable pub text_beq : Text → Text → Bool
text_beq [] [] = true
text_beq (a ∷ s) (b ∷ t) = nat_beq a b && text_beq s t
text_beq _ _ = false

pub text_beq_iff : (s t : Text) → (text_beq s t ≡ true) ↔ (s ≡ t)
unfolding text_beq
text_beq_iff [] [] = ((λ _. refl), (λ _. refl))
text_beq_iff [] (b ∷ t) = ground arith
text_beq_iff (a ∷ s) [] = ground arith
text_beq_iff (a ∷ s) (b ∷ t) = ground (arith, text_beq_iff s t)

instance abbrev pub text_eq : Eq Text
text_eq = record { beq = text_beq; beq_iff = text_beq_iff }

-- strings.HasPrefix
unfoldable pub has_prefix : Text → Text → Bool
has_prefix s [] = true
has_prefix [] (b ∷ p) = false
has_prefix (a ∷ s) (b ∷ p) = nat_beq a b && has_prefix s p

-- strings.HasSuffix
unfoldable pub has_suffix : Text → Text → Bool
unfolding has_prefix
has_suffix s p = has_prefix (reverse s) (reverse p)

-- strings.TrimSuffix
unfoldable pub trim_suffix : Text → Text → Text
unfolding has_suffix
trim_suffix s p = if has_suffix s p then take (length s - length p) s else s

-- strings.Index; `none` is -1.
unfoldable pub index : Text → Text → Option ℕ
unfolding has_prefix
index [] p = if has_prefix [] p then some 0 else none
index (a ∷ s) p =
    let rest = index s p in
    if has_prefix (a ∷ s) p then some 0 else elim rest [ none ↦ none | some i ↦ some (suc i) ]

-- strings.Contains
unfoldable pub contains : Text → Text → Bool
unfolding index
contains s p = elim (index s p) [ none ↦ false | some i ↦ true ]

-- strings.Split at one byte: the parts, at least one.
unfoldable pub split : Text → ℕ → List Text
split [] sep = [] ∷ []
split (a ∷ s) sep =
    let rest = split s sep in
    if nat_beq a sep then [] ∷ rest else elim rest [ [] ↦ (a ∷ []) ∷ [] | p ∷ ps ↦ (a ∷ p) ∷ ps ]

-- strings.Count of one byte.
unfoldable pub count_byte : Text → ℕ → ℕ
count_byte [] b = 0
count_byte (a ∷ s) b = if nat_beq a b then suc (count_byte s b) else count_byte s b

-- The first separator of both texts is at one place.
pub split_once :
    (b : ℕ) (s t x y : Text) → Lacks b s → Lacks b t → s ++ b ∷ x ≡ t ++ b ∷ y → (s ≡ t) × (x ≡ y)
split_once b [] [] x y h k e = (refl, cc)
split_once b [] (c ∷ t) x y h (hc, ht) e = absurd (hc (cc))
split_once b (a ∷ s) [] x y (ha, hs) k e = absurd (ha (cc))
split_once b (a ∷ s) (c ∷ t) x y (ha, hs) (hc, ht) e =
    let rest = split_once b s t x y hs ht (cc) in (ap₂ (λ h r. h ∷ r) (cc) rest.0, rest.1)
