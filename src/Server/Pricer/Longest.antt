-- ===== src/Server/Pricer/Longest.antt =====
-- The rate of a model is that of its longest prefix, however the map is listed.
use token_usage.Sort.Laws.{All-IsIn, Sorted, order_by-All, order_by-IsIn, order_by-Sorted}
use token_usage.Prelude.{
  inl, inr, IsIn, ◌≤◌, ◌≡◌, refl, true, false, Option, none, some, List, [], ◌∷◌, Text, text_eq,
  text_beq_iff, ◌==◌, has_prefix, length, leb→le, All, arith, Bool-cases, Option-cases,
}
use token_usage.Table.{lookup}
use token_usage.Server.Pricer.{is_longer, keys_of, reindex, first_prefix, rate_of}

has_prefix_refl : (s : Text) → has_prefix s s ≡ true
unfolding has_prefix
has_prefix_refl [] = refl
has_prefix_refl (a ∷ s) = ground (arith, has_prefix_refl s)

length-has_prefix : (s p : Text) → has_prefix s p ≡ true → length p ≤ length s
unfolding has_prefix
length-has_prefix s [] h = omega arith
length-has_prefix [] (b ∷ p) h = ground arith
length-has_prefix (a ∷ s) (b ∷ p) h = ground (arith, length-has_prefix s p)

-- None of the prefixes that fit is longer.
abbrev pub NoLonger : Text → Text → List Text → Type 0
NoLonger model p = All (λ q. has_prefix model q ≡ true → length q ≤ length p)

NoLonger-Sorted :
    (model p : Text) (prefixes : List Text)
    → All (λ q. is_longer p q ≡ true) prefixes
    → NoLonger model p prefixes
NoLonger-Sorted model p [] h = tt
NoLonger-Sorted model p (q ∷ prefixes) (here, rest) =
    ((λ _. leb→le (length q) (length p) here), NoLonger-Sorted model p prefixes rest)

-- The first of sorted prefixes that fits.
abbrev First : Text → List Text → Option Text → Type 0
First model prefixes none = All (λ q. has_prefix model q ≡ false) prefixes
First model prefixes (some p) =
    IsIn p prefixes × (has_prefix model p ≡ true) × NoLonger model p prefixes

First-skip :
    (model q : Text) (prefixes : List Text) (o : Option Text)
    → has_prefix model q ≡ false
    → First model prefixes o
    → First model (q ∷ prefixes) o
First-skip model q prefixes none misfit h = (misfit, h)
First-skip model q prefixes (some p) misfit (i, fits, rest) =
    (inr i, fits, ((λ e. ground (arith, e, misfit)), rest))

first_prefix-First :
    (model : Text) (prefixes : List Text)
    → Sorted is_longer prefixes
    → First model prefixes (first_prefix model prefixes)
unfolding first_prefix
first_prefix-First model [] s = tt
first_prefix-First model (p ∷ prefixes) (here, rest) = elim (Bool-cases (has_prefix model p)) [
  | inl fits ↦
      rw (first_prefix, fits)
        (inl refl, fits, ((λ _. omega arith), NoLonger-Sorted model p prefixes here))
  | inr misfit ↦
      rw (first_prefix, misfit)
        (First-skip model p prefixes (first_prefix model prefixes) misfit
          (first_prefix-First model prefixes rest))
]

NoLonger-self : (model : Text) (keys : List Text) → NoLonger model model keys
NoLonger-self model keys = All-IsIn _ keys (λ q _. length-has_prefix model q)

is_longer_total : (x y : Text) → is_longer x y ≡ false → is_longer y x ≡ true
is_longer_total x y h = ground (arith, h)

is_longer_trans :
    (x y z : Text) → is_longer x y ≡ true → is_longer y z ≡ true → is_longer x z ≡ true
is_longer_trans x y z h k = ground (arith, h, k)

module _ {R : Type 0} where
  lookup-keys_of :
      (rates : List (Text × R)) (p : Text)
      → IsIn p (keys_of rates)
      → (r : R) × (lookup p rates ≡ some r)
  unfolding lookup
  lookup-keys_of [] p i = absurd i
  lookup-keys_of ((k, v) ∷ rates) p (inl e) = (v, ground (arith, e, text_beq_iff k p))
  lookup-keys_of ((k, v) ∷ rates) p (inr i) = elim (Bool-cases (k == p)) [
    | inl same ↦ (v, rw (lookup, same) refl)
    | inr other ↦ let (r, e) = lookup-keys_of rates p i in (r, rw (lookup, other) e)
  ]

  -- What the rate of a model is to be.
  abbrev pub Longest : List (Text × R) → Text → Option R → Type 0
  Longest rates model none = All (λ q. has_prefix model q ≡ false) (keys_of rates)
  Longest rates model (some r) =
      (p : Text) × (lookup p rates ≡ some r)
      × (has_prefix model p ≡ true)
      × NoLonger model p (keys_of rates)

  -- The rate of a model is that of a key which is a prefix of its name, and no such key is longer; there is
  -- no rate only if no key is a prefix. So it does not depend on the order of the map.
  pub rate_of-Longest :
      (rates : List (Text × R)) (model : Text) → Longest rates model (rate_of rates model)
  unfolding rate_of reindex
  rate_of-Longest rates model =
      let keys = keys_of rates in
      let first =
        first_prefix-First model (reindex rates)
          (order_by-Sorted is_longer is_longer_total is_longer_trans keys) in
      elim (Option-cases (lookup model rates)) [
        | inr (r, e) ↦ rw (rate_of, e) (model, e, has_prefix_refl model, NoLonger-self model keys)
        | inl e ↦ elim (Option-cases (first_prefix model (reindex rates))) [
          | inl e' ↦ rw (rate_of, e, e') (order_by-All is_longer _ keys (rw e' at first))
          | inr (p, e') ↦
              let (i, fits, longest) : First model (reindex rates) (some p) = rw e' at first in
              let (r, found) = lookup-keys_of rates p (order_by-IsIn is_longer keys p i) in
              rw (rate_of, e, e', found) (p, found, fits, order_by-All is_longer _ keys longest)
        ]
      ]
