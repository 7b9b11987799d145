-- ===== src/Store/Rollup.antt =====
-- What the two ingest statements of internal/server/store.go share, and what /langs, /summary and the
-- worker rely on: a detail table with a primary key that refuses duplicates, and a daily table
-- that sums the accepted rows by key.
pub mod Laws
pub mod Insert
pub mod Run
use token_usage.Prelude.{
  ℕ, ◌-◌, ◌≡◌, Bool, true, false, ◌&&◌, Option, none, some, List, [], ◌∷◌, ◌++◌, Eq, ◌==◌, length,
  if◌then◌else◌, ◌>>=◌,
}
use token_usage.Table.{lookup, alter}

-- How a statement reads its rows: the primary key of the detail table, the key of the daily table,
-- what one row counts for, how two sums are merged, and whether a sum fits its columns.
pub record Stream (R I K V : Type 0) : Type 0 where
  pub id : R → I
  pub key : R → K
  pub single : R → V
  pub merge : V → V → V
  pub fits : V → Bool
  pub merge_assoc : (a b c : V) → merge (merge a b) c ≡ merge a (merge b c)

-- A row of the daily table behind its key.
pub record Daily (V : Type 0) : Type 0 where
  pub sums : V
  pub updated_at : ℕ

abbrev pub sums_of : {V : Type 0} → Option (Daily V) → Option V
sums_of none = none
sums_of (some d) = some d.sums

pub record Tables (R K V : Type 0) : Type 0 where
  pub detail : List R
  pub daily : List (K × Daily V)

pub record Outcome (R K V : Type 0) : Type 0 where
  pub tables : Tables R K V
  pub accepted : ℕ
  pub considered : ℕ

module _ {R I K V : Type 0} ⦃ei : Eq I⦄ ⦃ek : Eq K⦄ (s : Stream R I K V) where
  open s use {id, key, single, merge, fits}

  unfoldable pub has_id : I → List R → Bool
  has_id i [] = false
  has_id i (r ∷ rs) = if id r == i then true else has_id i rs

  -- INSERT ... ON CONFLICT DO NOTHING RETURNING: the rows of the input that the detail table takes.
  unfoldable pub accept : List R → List R → List R
  accept seen [] = []
  accept seen (r ∷ rs) = elim (has_id (id r) seen) [
    | true ↦ accept seen rs
    | false ↦ r ∷ accept (seen ++ r ∷ []) rs
  ]

  abbrev pub absorb : Option V → R → V
  absorb none r = single r
  absorb (some v) r = merge v (single r)

  -- SUM(...) ... GROUP BY key, one row after the other
  unfoldable pub group : List R → List (K × V) → List (K × V)
  group [] m = m
  group (r ∷ rs) m = group rs (alter (key r) (λ o. absorb o r) m)

  -- the sums that the row of a key has after ON CONFLICT DO UPDATE SET x = daily.x + EXCLUDED.x
  abbrev pub add_to : V → Option (Daily V) → V
  add_to v none = v
  add_to v (some d) = merge d.sums v

  -- Every group is upserted. A sum out of its column's range, in the row that is proposed or in the
  -- row that results, is an error of the whole statement.
  unfoldable pub upsert_all : ℕ → List (K × V) → List (K × Daily V) → Option (List (K × Daily V))
  upsert_all now [] daily = some daily
  upsert_all now ((k, v) ∷ groups) daily =
      let rest =
        upsert_all now groups
          (alter k (λ o. record { sums = add_to v o; updated_at = now }) daily) in
      if fits v && fits (add_to v (lookup k daily)) then rest else none

  -- the CTEs of the statement, over the rows of `input`
  unfoldable pub insert_rows : ℕ → List R → Tables R K V → Option (Outcome R K V)
  unfolding accept group upsert_all
  insert_rows now input t =
      let ins = accept t.detail input in
      do
        daily ← upsert_all now (group ins []) t.daily
        some (record {
          tables = record { detail = t.detail ++ ins; daily = daily };
          accepted = length ins;
          considered = length input;
        })

  -- One statement as its own transaction: accepted and duplicate rows, or an error that leaves the
  -- tables as they were. `fault` is a failure that is none of the statement's doing, such as a
  -- payload that cannot be encoded or a lost connection.
  unfoldable pub run_insert : Bool → ℕ → List R → Tables R K V → Option (ℕ × ℕ) × Tables R K V
  run_insert fault now input t = if fault then (none, t) else elim (insert_rows now input t) [
    | none ↦ (none, t)
    | some o ↦ (some (o.accepted, o.considered - o.accepted), o.tables)
  ]

  -- The specification of a daily row: what the detail rows of a key sum up to, in their order,
  -- behind what is there.
  unfoldable pub rollup : K → List R → Option V → Option V
  rollup k [] o = o
  rollup k (r ∷ rs) o = rollup k rs (if key r == k then some (absorb o r) else o)

  -- The daily table says of every key what the detail rows of that key sum up to.
  pub record IsConsistent (t : Tables R K V) : Type 0 where
    pub at_key : (k : K) → sums_of (lookup k t.daily) ≡ rollup k t.detail none

  -- No two detail rows have one primary key.
  abbrev pub HasUniqueIds : List R → Type 0
  HasUniqueIds [] = Unit
  HasUniqueIds (r ∷ rs) = (has_id (id r) rs ≡ false) × HasUniqueIds rs
