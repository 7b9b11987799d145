-- ===== src/Watcher/Scan/Coverage.antt =====
-- The state that a scan keeps of a file is that of a read whose records the scan has found.
use token_usage.Prelude.{
  ◌⊎◌, Bool, false, inl, inr, ◌≡◌, ◌∙◌, sym, some, List, [], ◌∷◌, ◌++◌, Text, text_eq, arith, All,
  Bool-cases, ◌==◌,
}
use mathlib.Core.Path.{subst}
use token_usage.Table.{lookup, alter, lookup-alter}
use token_usage.Types.{UsageRecord, EditRecord}
use token_usage.Parsers.Std.{ScanResult, FileState}
use token_usage.Parsers.Tail.{append}
use token_usage.Watcher.Run.{Checkpoint}
use token_usage.Watcher.Scan.{Source, Parser, Tree, Pending, prev_state, scan_file, scan}
use token_usage.Watcher.Scan.Pass.{Visit, run_visits}
use token_usage.Watcher.Scan.Order.{all_visits, scan-run_visits}

pub All-left : {A : Type 0} (P : A → Type 0) (xs ys : List A) → All P (xs ++ ys) → All P xs
All-left P [] ys h = tt
All-left P (x ∷ xs) ys (hx, hs) = (hx, All-left P xs ys hs)

pub All-right : {A : Type 0} (P : A → Type 0) (xs ys : List A) → All P (xs ++ ys) → All P ys
All-right P [] ys h = h
All-right P (x ∷ xs) ys (hx, hs) = All-right P xs ys hs

-- How the parser of a visited path reads it for a tool.
abbrev pub Reads : (Text → Text → FileState → ScanResult × FileState × Bool) → List Visit → Type 0
Reads outcome =
    All
      (λ (v : Visit). (prev : FileState) → v.parser v.path v.tool prev ≡ outcome v.path v.tool prev)

module _ (Q : UsageRecord → Type 0) (R : EditRecord → Type 0)
    (outcome : Text → Text → FileState → ScanResult × FileState × Bool) (c : Checkpoint) where
  abbrev pub AllOf : ScanResult → Type 0
  AllOf res = All Q res.usage × All R res.edits

  -- The read of a path that gave a state, without an error, with all its records.
  abbrev pub IsRead : Text → FileState → Type 0
  IsRead path s =
      (tool : Text) × ((outcome path tool (prev_state c path)).1 ≡ s)
      × ((outcome path tool (prev_state c path)).2 ≡ false)
      × AllOf (outcome path tool (prev_state c path)).0

  scan_file-AllOf :
      (parser : Parser) (tool path : Text) (acc : ScanResult × Pending)
      → AllOf (scan_file c parser tool path acc).0
      → AllOf acc.0
  unfolding scan_file
  scan_file-AllOf parser tool path acc h =
      let out = parser path tool (prev_state c path) in
      elim (Bool-cases out.2) [
        | inl bad ↦ rw bad at h
        | inr ok ↦
            let both : AllOf (append acc.0 out.0) = rw ok at h in
            (All-left Q acc.0.usage out.0.usage both.0, All-left R acc.0.edits out.0.edits both.1)
      ]

  run_visits-AllOf :
      (visits : List Visit) (acc : ScanResult × Pending)
      → AllOf (run_visits c visits acc).0
      → AllOf acc.0
  unfolding run_visits
  run_visits-AllOf [] acc h = h
  run_visits-AllOf (v ∷ visits) acc h =
      scan_file-AllOf v.parser v.tool v.path acc
        (run_visits-AllOf visits (scan_file c v.parser v.tool v.path acc) h)

  scan_file-IsRead :
      (parser : Parser) (tool path : Text) (acc : ScanResult × Pending)
      → parser path tool (prev_state c path) ≡ outcome path tool (prev_state c path)
      → AllOf (scan_file c parser tool path acc).0
      → (k : Text) (s : FileState) → lookup k (scan_file c parser tool path acc).1 ≡ some s
      → (lookup k acc.1 ≡ some s) ⊎ IsRead k s
  unfolding scan_file
  scan_file-IsRead parser tool path acc same h k s e =
      let out = parser path tool (prev_state c path) in
      elim (Bool-cases out.2) [
        | inl bad ↦ inl (rw bad at e)
        | inr ok ↦
            let found : AllOf (append acc.0 out.0) = rw ok at h in
            let there : lookup k (alter path (λ _. out.1) acc.1) ≡ some s = rw ok at e in
            let known = sym (lookup-alter k path (λ _. out.1) acc.1) ∙ there in
            elim (Bool-cases (path == k)) [
              | inr other ↦ inl (rw other at known)
              | inl here ↦
                  let read : some out.1 ≡ some s = rw here at known in
                  inr (
                    subst (λ p. IsRead p s) ((text_eq.beq_iff path k).0 here)
                      (
                        tool,
                        rw (← same) (ground (arith, read)),
                        rw (← same) ok,
                        rw (← same) (
                          All-right Q acc.0.usage out.0.usage found.0,
                          All-right R acc.0.edits out.0.edits found.1,
                        ),
                      ))
            ]
      ]

  run_visits-IsRead :
      (visits : List Visit) (acc : ScanResult × Pending)
      → Reads outcome visits
      → AllOf (run_visits c visits acc).0
      → (k : Text) (s : FileState) → lookup k (run_visits c visits acc).1 ≡ some s
      → (lookup k acc.1 ≡ some s) ⊎ IsRead k s
  unfolding run_visits
  run_visits-IsRead [] acc r h k s e = inl e
  run_visits-IsRead (v ∷ visits) acc (rv, rs) h k s e =
      let next = scan_file c v.parser v.tool v.path acc in
      elim (run_visits-IsRead visits next rs h k s e) [
        | inr found ↦ inr found
        | inl earlier ↦
            scan_file-IsRead v.parser v.tool v.path acc (rv (prev_state c v.path))
              (run_visits-AllOf visits next h) k s earlier
      ]

  -- Each state that a scan would save is that of a read of its path from the state before, and if all
  -- that the scan found has a property, so has all that this read found.
  pub scan-IsRead :
      (registry : List (Text × Parser)) (tree : Tree) (sources : List Source)
      → Reads outcome (all_visits registry tree c sources)
      → AllOf (scan registry tree c sources).0
      → (k : Text) (s : FileState) → lookup k (scan registry tree c sources).1 ≡ some s
      → IsRead k s
  unfolding lookup
  scan-IsRead registry tree sources r h k s e =
      let one = scan-run_visits registry tree c sources in
      elim (run_visits-IsRead (all_visits registry tree c sources) _ r (rw one.0 at h) k s
        (sym (one.1 k) ∙ e)) [ inl nothing ↦ absurd (ground (arith, nothing)) | inr found ↦ found ]
