-- ===== src/Table.antt =====
-- A table with a primary key, as an association list. `alter` is the row-wise part of
-- `INSERT ... ON CONFLICT ... DO UPDATE`: the new row may depend on the one that is there.
use token_usage.Prelude.{
  ◌≡◌, refl, Option, none, some, List, [], ◌∷◌, arith, Eq, ◌==◌, if◌then◌else◌,
}

module _ {K V : Type 0} ⦃e : Eq K⦄ where
  unfoldable pub lookup : K → List (K × V) → Option V
  lookup k [] = none
  lookup k ((j, v) ∷ m) = if j == k then some v else lookup k m

  unfoldable pub alter : K → (Option V → V) → List (K × V) → List (K × V)
  alter k f [] = (k, f none) ∷ []
  alter k f ((j, v) ∷ m) = if j == k then (j, f (some v)) ∷ m else (j, v) ∷ alter k f m

  pub lookup-alter :
      (j k : K) (f : Option V → V) (m : List (K × V))
      → lookup j (alter k f m) ≡ (if k == j then some (f (lookup k m)) else lookup j m)
  unfolding lookup alter
  lookup-alter j k f [] = refl
  lookup-alter j k f ((i, v) ∷ m) =
      ground (arith, e.beq_iff k j, e.beq_iff i k, e.beq_iff i j, lookup-alter j k f m)

  -- No key stands twice.
  abbrev pub IsUnique : List (K × V) → Type 0
  IsUnique [] = Unit
  IsUnique ((k, v) ∷ m) = (lookup k m ≡ none) × IsUnique m

  pub alter-IsUnique :
      (k : K) (f : Option V → V) (m : List (K × V)) → IsUnique m → IsUnique (alter k f m)
  unfolding lookup alter
  alter-IsUnique k f [] h = (refl, tt)
  alter-IsUnique k f ((i, v) ∷ m) (fresh, rest) =
      ground (arith, e.beq_iff i k, e.beq_iff k i, lookup-alter i k f m, alter-IsUnique k f m rest)
