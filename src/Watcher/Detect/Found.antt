-- ===== src/Watcher/Detect/Found.antt =====
-- Which sources are detected: each root that is there, once.
use token_usage.Prelude.{
  ◌⊎◌, ◌↔◌, inl, inr, ◌≡◌, refl, sym, true, Option, List, [], ◌∷◌, ◌++◌, Text, text_eq, ◌==◌, arith,
  All, IsIn, Lacks, split_once, Bool-cases,
}
use mathlib.Core.Path.{subst}
use token_usage.Watcher.Scan.{Source}
use token_usage.Watcher.Detect.{
  Os, FileInfo, DirEntry, Tool, known_tool_defaults, member, candidate_homes, is_root, source_key,
  candidate, detect_one, detect_home, detect_all, auto_detect_sources,
}

-- No element stands twice.
abbrev pub Distinct : List Source → Type 0
Distinct [] = Unit
Distinct (s ∷ ss) = ¬ IsIn s ss × Distinct ss

IsIn-append : (s t : Source) (ss : List Source) → IsIn s (ss ++ t ∷ []) → IsIn s ss ⊎ (s ≡ t)
IsIn-append s t [] (inl e) = inr e
IsIn-append s t [] (inr i) = absurd i
IsIn-append s t (u ∷ ss) (inl e) = inl (inl e)
IsIn-append s t (u ∷ ss) (inr i) = elim (IsIn-append s t ss i) [
  | inl j ↦ inl (inr j)
  | inr e ↦ inr e
]

IsIn-left : (s t : Source) (ss : List Source) → IsIn s ss → IsIn s (ss ++ t ∷ [])
IsIn-left s t [] i = absurd i
IsIn-left s t (u ∷ ss) (inl e) = inl e
IsIn-left s t (u ∷ ss) (inr i) = inr (IsIn-left s t ss i)

IsIn-last : (t : Source) (ss : List Source) → IsIn t (ss ++ t ∷ [])
IsIn-last t [] = inl refl
IsIn-last t (u ∷ ss) = inr (IsIn-last t ss)

Distinct-append :
    (t : Source) (ss : List Source) → ¬ IsIn t ss → Distinct ss → Distinct (ss ++ t ∷ [])
Distinct-append t [] h d = ((λ i. i), tt)
Distinct-append t (s ∷ ss) h (hs, ds) = (
  λ i. elim (IsIn-append s t ss i) [ inl j ↦ hs j | inr e ↦ h (inl (sym e)) ],
  Distinct-append t ss (λ i. h (inr i)) ds,
)

-- A tool's name has no NUL, so that a key stands for one source.
abbrev IsPlain : Source → Type 0
IsPlain s = Lacks 0 s.tool

source_key-injective : (s t : Source) → IsPlain s → IsPlain t → source_key s ≡ source_key t → s ≡ t
source_key-injective s t hs ht e =
    let (tool, root) = split_once 0 s.tool t.tool s.root t.root hs ht e in
    λ i. record { tool = tool i; root = root i }

member_self : (t : Text) (ts : List Text) → member t (t ∷ ts) ≡ true
unfolding member
member_self t ts = ground (arith, text_eq.beq_iff t t)

module _ (stat : Text → Option FileInfo) where
  -- The keys seen are those of the sources found.
  record IsKept (acc : List Source × List Text) : Type 0 where
    plain : (s : Source) → IsIn s acc.0 → IsPlain s
    seen : (s : Source) → IsIn s acc.0 → member (source_key s) acc.1 ≡ true
    found : (s : Source) → IsPlain s → member (source_key s) acc.1 ≡ true → IsIn s acc.0
    distinct : Distinct acc.0

  -- A source of a list of homes and tools whose root is there.
  abbrev IsThere : Text → Tool → Source → Type 0
  IsThere home ds s = (s ≡ candidate stat home ds) × (is_root (stat s.root) ≡ true)

  -- What a step adds.
  abbrev Adds : (Source → Type 0) → List Source × List Text → List Source × List Text → Type 0
  Adds P acc out = IsKept out × ((s : Source) → IsIn s out.0 ↔ (IsIn s acc.0 ⊎ P s))

  detect_one-Adds :
      (home : Text) (ds : Tool) (acc : List Source × List Text)
      → Lacks 0 ds.tool
      → IsKept acc
      → Adds (IsThere home ds) acc (detect_one stat home ds acc)
  unfolding detect_one member
  detect_one-Adds home ds acc plain k =
      let s = candidate stat home ds in
      elim (Bool-cases (is_root (stat s.root))) [
        | inr no_root ↦ rw no_root (
          k,
          λ t. (
            inl,
            λ h. elim h [
              | inl i ↦ i
              | inr (e, r) ↦
                  let there = subst (λ x. is_root (stat x.root) ≡ true) e r in
                  absurd (ground (arith, there, no_root))
            ],
          ),
        )
        | inl root ↦ elim (Bool-cases (member (source_key s) acc.1)) [
          | inl old ↦
              rw (root, old)
                (k, λ t. (inl, λ h. elim h [ inl i ↦ i | inr (e, r) ↦ rw e (k.found s plain old) ]))
          | inr new ↦
              rw (root, new)
                (
                  record {
                    plain = λ t i. elim (IsIn-append t s acc.0 i) [
                      | inl j ↦ k.plain t j
                      | inr e ↦ rw e plain
                    ];
                    seen = λ t i. elim (IsIn-append t s acc.0 i) [
                      | inl j ↦ ground (arith, k.seen t j)
                      | inr e ↦
                          subst (λ x. member (source_key x) (source_key s ∷ acc.1) ≡ true) (sym e)
                            (member_self (source_key s) acc.1)
                    ];
                    found = λ t p m. elim (Bool-cases (source_key s == source_key t)) [
                      | inl same ↦
                          let e = source_key-injective s t plain p ((text_eq.beq_iff _ _).0 same) in
                          rw (← e) (IsIn-last s acc.0)
                      | inr differs ↦ IsIn-left t s acc.0 (k.found t p (rw differs at m))
                    ];
                    distinct =
                        Distinct-append s acc.0 (λ i. ground (arith, new, k.seen s i)) k.distinct;
                  },
                  λ t. (
                    λ i. elim (IsIn-append t s acc.0 i) [
                      | inl j ↦ inl j
                      | inr e ↦ inr (e, rw e root)
                    ],
                    λ h. elim h [
                      | inl i ↦ IsIn-left t s acc.0 i
                      | inr (e, r) ↦ rw e (IsIn-last s acc.0)
                    ],
                  ),
                )
        ]
      ]

  Adds-trans :
      (P Q R : Source → Type 0) (acc mid out : List Source × List Text)
      → ((s : Source) → P s → R s)
      → ((s : Source) → Q s → R s)
      → ((s : Source) → R s → P s ⊎ Q s)
      → Adds P acc mid
      → Adds Q mid out
      → Adds R acc out
  Adds-trans P Q R acc mid out pr qr rpq (_, p) (k, q) = (
    k,
    λ s. (
      λ i. elim ((q s).0 i) [
        | inl j ↦ elim ((p s).0 j) [ inl h ↦ inl h | inr h ↦ inr (pr s h) ]
        | inr h ↦ inr (qr s h)
      ],
      λ h. elim h [
        | inl i ↦ (q s).1 (inl ((p s).1 (inl i)))
        | inr r ↦ elim (rpq s r) [
          | inl x ↦ (q s).1 (inl ((p s).1 (inr x)))
          | inr x ↦ (q s).1 (inr x)
        ]
      ],
    ),
  )

  -- of a home, and of a list of homes
  abbrev ThereOf : Text → List Tool → Source → Type 0
  ThereOf home tools s = (ds : Tool) × IsIn ds tools × IsThere home ds s

  abbrev ThereIn : List Text → List Tool → Source → Type 0
  ThereIn homes tools s = (home : Text) × IsIn home homes × ThereOf home tools s

  ThereOf-split :
      (home : Text) (ds : Tool) (tools : List Tool) (s : Source)
      → ThereOf home (ds ∷ tools) s
      → IsThere home ds s ⊎ ThereOf home tools s
  ThereOf-split home ds tools s (d, inl e, r) = inl (subst (λ x. IsThere home x s) e r)
  ThereOf-split home ds tools s (d, inr i, r) = inr (d, i, r)

  ThereIn-split :
      (home : Text) (homes : List Text) (tools : List Tool) (s : Source)
      → ThereIn (home ∷ homes) tools s
      → ThereOf home tools s ⊎ ThereIn homes tools s
  ThereIn-split home homes tools s (h, inl e, r) = inl (subst (λ x. ThereOf x tools s) e r)
  ThereIn-split home homes tools s (h, inr i, r) = inr (h, i, r)

  detect_home-Adds :
      (home : Text) (tools : List Tool) (acc : List Source × List Text)
      → All (λ ds. Lacks 0 ds.tool) tools
      → IsKept acc
      → Adds (ThereOf home tools) acc (detect_home stat home tools acc)
  unfolding detect_home
  detect_home-Adds home [] acc h k =
      (k, λ s. (inl, λ x. elim x [ inl i ↦ i | inr (ds, i, r) ↦ absurd i ]))
  detect_home-Adds home (ds ∷ tools) acc (here, rest) k =
      let one = detect_one-Adds home ds acc here k in
      Adds-trans (IsThere home ds) (ThereOf home tools) (ThereOf home (ds ∷ tools)) acc
        (detect_one stat home ds acc) _ (λ s t. (ds, inl refl, t))
        (λ s (t : ThereOf home tools s). (t.0, inr t.1, t.2)) (ThereOf-split home ds tools) one
        (detect_home-Adds home tools (detect_one stat home ds acc) rest one.0)

  detect_all-Adds :
      (homes : List Text) (tools : List Tool) (acc : List Source × List Text)
      → All (λ ds. Lacks 0 ds.tool) tools
      → IsKept acc
      → Adds (ThereIn homes tools) acc (detect_all stat homes tools acc)
  unfolding detect_all
  detect_all-Adds [] tools acc h k =
      (k, λ s. (inl, λ x. elim x [ inl i ↦ i | inr (home, i, r) ↦ absurd i ]))
  detect_all-Adds (home ∷ homes) tools acc h k =
      let one = detect_home-Adds home tools acc h k in
      Adds-trans (ThereOf home tools) (ThereIn homes tools) (ThereIn (home ∷ homes) tools) acc
        (detect_home stat home tools acc) _ (λ s t. (home, inl refl, t))
        (λ s (t : ThereIn homes tools s). (t.0, inr t.1, t.2)) (ThereIn-split home homes tools) one
        (detect_all-Adds homes tools (detect_home stat home tools acc) h one.0)

  -- The sources that are detected are those of the known tools, in the homes that are searched, whose root
  -- is a directory or a regular file; and none of them is detected twice.
  pub auto_detect_sources-Found :
      (os : Os) (read_dir : Text → Option (List DirEntry)) (home : Text)
      → Distinct (auto_detect_sources stat os read_dir home)
        × ((s : Source)
            → IsIn s (auto_detect_sources stat os read_dir home) ↔ (
                (h : Text) × IsIn h (candidate_homes os read_dir home)
                × ((ds : Tool) × IsIn ds known_tool_defaults
                    × (s ≡ candidate stat h ds)
                    × (is_root (stat s.root) ≡ true))))
  unfolding auto_detect_sources member
  auto_detect_sources-Found os read_dir home =
      let all =
        detect_all-Adds (candidate_homes os read_dir home) known_tool_defaults ([], [])
          (omega arith)
          (record {
            plain = λ s i. absurd i;
            seen = λ s i. absurd i;
            found = λ s p m. absurd (ground (arith, m));
            distinct = tt;
          }) in
      (
        all.0.distinct,
        λ s. (
          λ i. elim ((all.1 s).0 i) [
            | inl j ↦ absurd j
            | inr t ↦ (t.0, t.1, (t.2.0, t.2.1, t.2.2.0, t.2.2.1))
          ],
          λ t. (all.1 s).1 (inr (t.0, t.1, (t.2.0, t.2.1, (t.2.2, t.2.3)))),
        ),
      )
