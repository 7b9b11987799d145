-- ===== src/Watcher/Sources/Attribute.antt =====
-- Which source a scanned path is counted for.
use token_usage.Prelude.{
  ◌⊎◌, inl, inr, ℕ, ◌≤◌, ◌<◌, ◌≡◌, refl, ap, sym, true, false, ◌&&◌, Option, none, some, List, [],
  ◌∷◌, Text, length, has_prefix, arith, All, IsIn, Bool-cases,
}
use token_usage.Watcher.Scan.{Source}
use token_usage.Watcher.Sources.{beats, attribute_from, attribute_path}

-- A source with the longest root of those that the path starts with, or none if the path starts with none.
abbrev pub Attributed : List Source → Text → Text → Type 0
Attributed sources path tool =
    ((tool ≡ []) × All (λ s. has_prefix path s.root ≡ false) sources)
    ⊎ ((s : Source) × IsIn s sources
        × (s.tool ≡ tool)
        × (has_prefix path s.root ≡ true)
        × All (λ t. has_prefix path t.root ≡ true → length t.root ≤ length s.root) sources)

module _ (path : Text) where
  -- Of the sources that the path starts with, none has a longer root; or none is better than a bound.
  abbrev NoLonger : ℕ → List Source → Type 0
  NoLonger n = All (λ t. has_prefix path t.root ≡ true → length t.root ≤ n)

  abbrev NoBetter : Option ℕ → List Source → Type 0
  NoBetter b = All (λ t. has_prefix path t.root ≡ true → beats b (length t.root) ≡ false)

  -- What the loop makes of the best so far.
  abbrev Betters : List Source → Text × Option ℕ → Text × Option ℕ → Type 0
  Betters sources best out =
      ((out ≡ best) × NoBetter best.1 sources)
      ⊎ ((s : Source) × IsIn s sources
          × (out ≡ (s.tool, some (length s.root)))
          × (beats best.1 (length s.root) ≡ true)
          × (has_prefix path s.root ≡ true)
          × NoLonger (length s.root) sources)

  NoBetter-NoLonger :
      (n : ℕ) (sources : List Source) → NoBetter (some n) sources → NoLonger n sources
  NoBetter-NoLonger n [] h = tt
  NoBetter-NoLonger n (t ∷ sources) (ht, hs) =
      (λ fits. ground (arith, ht fits), NoBetter-NoLonger n sources hs)

  beats_trans : (b : Option ℕ) (m n : ℕ) → beats b m ≡ true → m < n → beats b n ≡ true
  beats_trans none m n h l = refl
  beats_trans (some k) m n h l = ground (arith, h)

  beats-le : (b : Option ℕ) (m n : ℕ) → beats b m ≡ false → beats b n ≡ true → m ≤ n
  beats-le none m n h k = absurd (ground (arith, h))
  beats-le (some k) m n h l = ground (arith, h, l)

  attribute_from-Betters :
      (sources : List Source) (best : Text × Option ℕ)
      → Betters sources best (attribute_from sources path best)
  unfolding attribute_from
  attribute_from-Betters [] best = inl (refl, tt)
  attribute_from-Betters (s ∷ sources) best =
      elim (Bool-cases (beats best.1 (length s.root) && has_prefix path s.root)) [
        | inl takes ↦
            let better : beats best.1 (length s.root) ≡ true = ground (arith, takes) in
            let fits : has_prefix path s.root ≡ true = ground (arith, takes) in
            rw takes (elim (attribute_from-Betters sources (s.tool, some (length s.root))) [
              | inl (e, all) ↦ inr (
                s,
                inl refl,
                e,
                better,
                fits,
                (λ _. omega arith, NoBetter-NoLonger (length s.root) sources all),
              )
              | inr (t, i, e, b, f, all) ↦
                  let longer : length s.root < length t.root = ground (arith, b) in
                  inr (
                    t,
                    inr i,
                    e,
                    beats_trans best.1 (length s.root) (length t.root) better longer,
                    f,
                    (λ _. omega arith, all),
                  )
            ])
        | inr skips ↦
            let worse : has_prefix path s.root ≡ true → beats best.1 (length s.root) ≡ false =
              λ fits. ground (arith, skips, fits) in
            rw skips (elim (attribute_from-Betters sources best) [
              | inl (e, all) ↦ inl (e, (worse, all))
              | inr (t, i, e, b, f, all) ↦ inr (
                t,
                inr i,
                e,
                b,
                f,
                (λ fits. beats-le best.1 (length s.root) (length t.root) (worse fits) b, all),
              )
            ])
      ]

  NoBetter-none :
      (sources : List Source)
      → NoBetter none sources
      → All (λ s. has_prefix path s.root ≡ false) sources
  NoBetter-none [] h = tt
  NoBetter-none (s ∷ sources) (hs, rest) = (
    elim (Bool-cases (has_prefix path s.root)) [
      | inl fits ↦ absurd (ground (arith, hs fits))
      | inr misfit ↦ misfit
    ],
    NoBetter-none sources rest,
  )

-- A path is counted for a source whose root it starts with, and no source that it starts with has a longer
-- root; it is counted for none only if it starts with no root.
pub attribute_path-Attributed :
    (sources : List Source) (path : Text) → Attributed sources path (attribute_path sources path)
unfolding attribute_path
attribute_path-Attributed sources path = elim (attribute_from-Betters path sources ([], none)) [
  | inl (e, all) ↦ inl (ap (λ r. r.0) e, NoBetter-none path sources all)
  | inr (s, i, e, b, f, all) ↦ inr (s, i, ap (λ r. r.0) (sym e), f, all)
]
