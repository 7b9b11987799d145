-- ===== src/Watcher/Sources/Specs.antt =====
-- The specs of --source: what is read, and what is refused.
use token_usage.Prelude.{
  ◌↔◌, inl, inr, ℕ, suc, ◌≡◌, ◌≢◌, refl, sym, ap, false, ◌||◌, some, List, [], ◌∷◌, ◌++◌, map, Text,
  nat_beq, length, length-append, take, drop, arith, All, Lacks, Bool-cases, Option-cases,
  sum-cases,
}
use mathlib.Core.Path.{subst, ap₂}
use token_usage.Watcher.Scan.{Source}
use token_usage.Watcher.Sources.{index_byte, parse_source, parse_sources}

-- A source as a spec: "tool=path".
abbrev pub spec_of : Source → Text
spec_of s = s.tool ++ b'=' ∷ s.root

-- The tool and the path are not empty, and the tool has no '='.
abbrev pub IsSpec : Source → Type 0
IsSpec s = (s.tool ≢ []) × (s.root ≢ []) × Lacks b'=' s.tool

index_byte-Lacks : (s r : Text) (b : ℕ) → Lacks b s → index_byte (s ++ b ∷ r) b ≡ some (length s)
unfolding index_byte
index_byte-Lacks [] r b h = ground arith
index_byte-Lacks (a ∷ s) r b (ha, hs) = ground (arith, index_byte-Lacks s r b hs)

take-append : {A : Type 0} (s t : List A) → take (length s) (s ++ t) ≡ s
take-append [] t = refl
take-append (a ∷ s) t = ap (λ r. a ∷ r) (take-append s t)

drop-append_one :
    {A : Type 0} (s : List A) (b : A) (t : List A) → drop (suc (length s)) (s ++ b ∷ t) ≡ t
drop-append_one [] b t = refl
drop-append_one (a ∷ s) b t = drop-append_one s b t

length-eq_zero : (s : Text) → length s ≡ 0 → s ≡ []
length-eq_zero [] h = refl
length-eq_zero (a ∷ s) h = absurd (omega (arith, h))

parse_source-spec_of : (s : Source) → IsSpec s → parse_source (spec_of s) ≡ some s
unfolding parse_source
parse_source-spec_of s (tool, root, lacks) =
    let first : nat_beq (length s.tool) 0 ≡ false = elim (Bool-cases (nat_beq (length s.tool) 0)) [
      | inl z ↦ absurd (tool (length-eq_zero s.tool (ground (arith, z))))
      | inr z ↦ z
    ] in
    let last : nat_beq (suc (length s.tool)) (length (spec_of s)) ≡ false =
      elim (Bool-cases (nat_beq (suc (length s.tool)) (length (spec_of s)))) [
        | inl z ↦
            absurd (
              root
                (length-eq_zero s.root (ground (arith, z, length-append s.tool (b'=' ∷ s.root)))))
        | inr z ↦ z
      ] in
    rw
      (
        parse_source,
        index_byte-Lacks s.tool s.root b'=' lacks,
        first,
        last,
        take-append s.tool (b'=' ∷ s.root),
        drop-append_one s.tool b'=' s.root,
      )
      refl

-- The place of a byte: what stands before it, and behind it.
abbrev Splits : Text → ℕ → ℕ → Type 0
Splits s b i = (s ≡ take i s ++ b ∷ drop (suc i) s) × Lacks b (take i s) × (length (take i s) ≡ i)

Splits-cons : (a b i : ℕ) (s : Text) → a ≢ b → Splits s b i → Splits (a ∷ s) b (suc i)
Splits-cons a b i s h (e, lacks, n) = (ap (λ r. a ∷ r) e, (h, lacks), ap suc n)

index_byte-some : (s : Text) (b i : ℕ) → index_byte s b ≡ some i → Splits s b i
unfolding index_byte
index_byte-some [] b i e = absurd (ground (arith, e))
index_byte-some (a ∷ s) b i e = elim (Bool-cases (nat_beq a b)) [
  | inl same ↦
      let here : 0 ≡ i = ground (arith, e, same) in
      let eq : a ≡ b = ground (arith, same) in
      subst (Splits (a ∷ s) b) here (ap (λ c. c ∷ s) eq, tt, refl)
  | inr differs ↦ elim (Option-cases (index_byte s b)) [
    | inl missing ↦ absurd (ground (arith, e, differs, missing))
    | inr (j, f) ↦
        let there : suc j ≡ i = ground (arith, e, differs, f) in
        subst (Splits (a ∷ s) b) there
          (Splits-cons a b j s (ground (arith, differs)) (index_byte-some s b j f))
  ]
]

parse_source-some : (t : Text) (s : Source) → parse_source t ≡ some s → (spec_of s ≡ t) × IsSpec s
unfolding parse_source
parse_source-some t s e = elim (Option-cases (index_byte t b'=')) [
  | inl missing ↦ absurd (ground (arith, e, missing))
  | inr (i, f) ↦
      let (split, lacks, n) = index_byte-some t b'=' i f in
      elim (Bool-cases (nat_beq i 0 || nat_beq (suc i) (length t))) [
        | inl bad ↦ absurd (ground (arith, e, f, bad))
        | inr good ↦
            let made : record { tool = take i t; root = drop (suc i) t } ≡ s =
              ground (arith, e, f, good) in
            subst (λ x. (spec_of x ≡ t) × IsSpec x) made
              (
                sym split,
                (
                  λ h. ground (arith, good, n, ap length h),
                  λ h. ground (
                    arith,
                    good,
                    n,
                    ap length split,
                    length-append (take i t) (b'=' ∷ drop (suc i) t),
                    ap length h,
                  ),
                  lacks,
                ),
              )
      ]
]

parse_sources-spec_of :
    (sources : List Source) → All IsSpec sources → parse_sources (map spec_of sources) ≡ inr sources
unfolding parse_sources
parse_sources-spec_of [] h = refl
parse_sources-spec_of (s ∷ sources) (hs, rest) =
    rw (parse_sources, parse_source-spec_of s hs, parse_sources-spec_of sources rest) refl

parse_sources-inr :
    (specs : List Text) (sources : List Source)
    → parse_sources specs ≡ inr sources
    → (map spec_of sources ≡ specs) × All IsSpec sources
unfolding parse_sources
parse_sources-inr [] sources e =
    let none_read : [] ≡ sources = ground (arith, e) in
    subst (λ ss. (map spec_of ss ≡ []) × All IsSpec ss) none_read (refl, tt)
parse_sources-inr (t ∷ specs) sources e = elim (Option-cases (parse_source t)) [
  | inl missing ↦ absurd (ground (arith, e, missing))
  | inr (s, f) ↦ elim (sum-cases (parse_sources specs)) [
    | inl (bad, g) ↦ absurd (ground (arith, e, f, g))
    | inr (ss, g) ↦
        let (spec, ok) = parse_source-some t s f in
        let (rest, all) = parse_sources-inr specs ss g in
        let read : s ∷ ss ≡ sources = ground (arith, e, f, g) in
        subst (λ r. (map spec_of r ≡ t ∷ specs) × All IsSpec r) read
          (ap₂ (λ x xs. x ∷ xs) spec rest, (ok, all))
  ]
]

-- Specs are read as the sources that they spell, "tool=path" with both parts there and no '=' in the tool,
-- and are refused if one of them spells none.
pub parse_sources_iff :
    (specs : List Text) (sources : List Source)
    → (parse_sources specs ≡ inr sources) ↔ ((map spec_of sources ≡ specs) × All IsSpec sources)
parse_sources_iff specs sources = (
  parse_sources-inr specs sources,
  λ (e, h). subst (λ t. parse_sources t ≡ inr sources) e (parse_sources-spec_of sources h),
)
