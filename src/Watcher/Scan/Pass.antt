-- ===== src/Watcher/Scan/Pass.antt =====
-- internal/watcher/scanner.go: one pass over the files that a scan hands to its parsers.
use token_usage.Prelude.{
  inl, inr, ◌≡◌, refl, sym, ap, ◌∙◌, ◌==◌, not, ◌||◌, Option, none, some, List, [], ◌∷◌, ◌++◌, Text,
  text_eq, arith, if◌then◌else◌, Bool-cases,
}
use token_usage.Table.{lookup, alter, lookup-alter, IsUnique, alter-IsUnique}
use token_usage.Parsers.Std.{ScanResult, FileState}
use token_usage.Parsers.Tail.{empty, append}
use token_usage.Parsers.Tail.Resume.{append_assoc_results, append-empty}
use token_usage.Watcher.Run.{Checkpoint}
use token_usage.Watcher.Scan.{
  Parser, WalkEntry, Pending, is_transcript, prev_state, scan_file, scan_entries, copy,
}

-- One file that a scan hands to a parser.
pub record Visit : Type 0 where
  pub parser : Parser
  pub tool : Text
  pub path : Text

unfoldable pub entry_visits : Parser → Text → List WalkEntry → List Visit
unfolding is_transcript
entry_visits parser tool [] = []
entry_visits parser tool (e ∷ entries) =
    let rest = entry_visits parser tool entries in
    if e.failed || (e.is_dir || not (is_transcript e.path))
    then rest
    else record { parser = parser; tool = tool; path = e.path } ∷ rest

-- The pass over the files, one after the other.
unfoldable pub run_visits : Checkpoint → List Visit → ScanResult × Pending → ScanResult × Pending
run_visits c [] acc = acc
run_visits c (v ∷ visits) acc = run_visits c visits (scan_file c v.parser v.tool v.path acc)

-- What a pass finds, visit by visit: the records of the files that their parsers could read, in order.
unfoldable pub pass_results : Checkpoint → List Visit → ScanResult
pass_results c [] = empty
pass_results c (v ∷ visits) =
    let out = v.parser v.path v.tool (prev_state c v.path) in
    let rest = pass_results c visits in if out.2 then rest else append out.0 rest

abbrev pub overlay : Option FileState → Option FileState → Option FileState
overlay old none = old
overlay old (some s) = some s

pub run_visits-append :
    (c : Checkpoint) (vs ws : List Visit) (acc : ScanResult × Pending)
    → run_visits c (vs ++ ws) acc ≡ run_visits c ws (run_visits c vs acc)
unfolding run_visits
run_visits-append c [] ws acc = refl
run_visits-append c (v ∷ vs) ws acc = run_visits-append c vs ws _

pub scan_entries-visits :
    (c : Checkpoint) (parser : Parser) (tool : Text) (entries : List WalkEntry)
    (acc : ScanResult × Pending)
    → scan_entries c parser tool entries acc ≡ run_visits c (entry_visits parser tool entries) acc
unfolding scan_entries entry_visits run_visits
scan_entries-visits c parser tool [] acc = refl
scan_entries-visits c parser tool (e ∷ entries) acc =
    elim (Bool-cases (e.failed || (e.is_dir || not (is_transcript e.path)))) [
      | inl k ↦ rw k (scan_entries-visits c parser tool entries acc)
      | inr k ↦ rw k (scan_entries-visits c parser tool entries _)
    ]

pub lookup-copy :
    (k : Text) (dst src : Pending)
    → IsUnique src
    → lookup k (copy dst src) ≡ overlay (lookup k dst) (lookup k src)
unfolding copy lookup
lookup-copy k dst [] u = refl
lookup-copy k dst ((path, s) ∷ src) (fresh, u) = ground (
  arith,
  text_eq.beq_iff path k,
  lookup-copy k (alter path (λ _. s) dst) src u,
  lookup-alter k path (λ _. s) dst,
  fresh,
)

-- What a pass finds does not depend on what was found before it.
abbrev pub Extends : ScanResult × Pending → ScanResult × Pending → ScanResult × Pending → Type 0
Extends acc found out =
    (out.0 ≡ append acc.0 found.0)
    × ((k : Text) → lookup k out.1 ≡ overlay (lookup k acc.1) (lookup k found.1))

abbrev pub nothing : ScanResult × Pending
nothing = (empty, [])

pub overlay-none : (s : Option FileState) → overlay none s ≡ s
overlay-none none = refl
overlay-none (some s) = refl

overlay_assoc : (a b c : Option FileState) → overlay (overlay a b) c ≡ overlay a (overlay b c)
overlay_assoc a b none = refl
overlay_assoc a b (some s) = refl

scan_file-Extends :
    (c : Checkpoint) (parser : Parser) (tool path : Text) (acc : ScanResult × Pending)
    → Extends acc (scan_file c parser tool path nothing) (scan_file c parser tool path acc)
unfolding scan_file lookup alter
scan_file-Extends c parser tool path acc =
    let out = parser path tool (prev_state c path) in
    elim (Bool-cases out.2) [
      | inl bad ↦ rw bad (sym (append-empty acc.0), λ k. refl)
      | inr ok ↦
          rw ok
            (refl, λ k. ground (arith, lookup-alter k path (λ (o : Option FileState). out.1) acc.1))
    ]

scan_file-IsUnique :
    (c : Checkpoint) (parser : Parser) (tool path : Text) (acc : ScanResult × Pending)
    → IsUnique acc.1
    → IsUnique (scan_file c parser tool path acc).1
unfolding scan_file
scan_file-IsUnique c parser tool path acc u =
    let out = parser path tool (prev_state c path) in
    elim (Bool-cases out.2) [
      | inl bad ↦ rw bad u
      | inr ok ↦ rw ok (alter-IsUnique path (λ _. out.1) acc.1 u)
    ]

pub run_visits-IsUnique :
    (c : Checkpoint) (visits : List Visit) (acc : ScanResult × Pending)
    → IsUnique acc.1
    → IsUnique (run_visits c visits acc).1
unfolding run_visits
run_visits-IsUnique c [] acc u = u
run_visits-IsUnique c (v ∷ visits) acc u =
    run_visits-IsUnique c visits _ (scan_file-IsUnique c v.parser v.tool v.path acc u)

pub Extends-trans :
    (acc a b ab out : ScanResult × Pending) (mid : ScanResult × Pending)
    → Extends acc a mid
    → Extends mid b out
    → Extends a b ab
    → Extends acc ab out
Extends-trans acc a b ab out mid (r, l) (r', l') (r'', l'') = (
  rw (r', r, r'') (append_assoc_results acc.0 a.0 b.0),
  λ k. rw (l' k, l k, l'' k) (overlay_assoc (lookup k acc.1) (lookup k a.1) (lookup k b.1)),
)

pub run_visits-Extends :
    (c : Checkpoint) (visits : List Visit) (acc : ScanResult × Pending)
    → Extends acc (run_visits c visits nothing) (run_visits c visits acc)
unfolding run_visits lookup
run_visits-Extends c [] acc = (sym (append-empty acc.0), λ k. refl)
run_visits-Extends c (v ∷ visits) acc =
    let one = scan_file c v.parser v.tool v.path in
    Extends-trans acc (one nothing) (run_visits c visits nothing) _ _ (one acc)
      (scan_file-Extends c v.parser v.tool v.path acc) (run_visits-Extends c visits (one acc))
      (run_visits-Extends c visits (one nothing))

-- The state of the last visit of a path that its parser could read.
unfoldable pub pass_state : Checkpoint → Text → List Visit → Option FileState
pass_state c path [] = none
pass_state c path (v ∷ visits) =
    let out = v.parser v.path v.tool (prev_state c v.path) in
    let rest = pass_state c path visits in
    if out.2 then rest else if v.path == path then overlay (some out.1) rest else rest

scan_file-nothing :
    (c : Checkpoint) (v : Visit) (visits : List Visit) (path : Text)
    → let one = scan_file c v.parser v.tool v.path nothing in
      (append one.0 (pass_results c visits) ≡ pass_results c (v ∷ visits))
      × (overlay (lookup path one.1) (pass_state c path visits) ≡ pass_state c path (v ∷ visits))
unfolding scan_file pass_results pass_state lookup alter
scan_file-nothing c v visits path =
    elim (Bool-cases (v.parser v.path v.tool (prev_state c v.path)).2) [
      | inl bad ↦ rw bad (refl, overlay-none (pass_state c path visits))
      | inr ok ↦ elim (Bool-cases (v.path == path)) [
        | inl here ↦ rw (ok, here) (refl, refl)
        | inr other ↦ rw (ok, other) (refl, overlay-none (pass_state c path visits))
      ]
    ]

pub run_visits-found :
    (c : Checkpoint) (visits : List Visit) (path : Text)
    → let pass = run_visits c visits nothing in
      (pass.0 ≡ pass_results c visits) × (lookup path pass.1 ≡ pass_state c path visits)
unfolding run_visits pass_results pass_state lookup
run_visits-found c [] path = (refl, refl)
run_visits-found c (v ∷ visits) path =
    let one = scan_file c v.parser v.tool v.path nothing in
    let (results, states) = run_visits-Extends c visits one in
    let (found, last) = run_visits-found c visits path in
    let (all, state) = scan_file-nothing c v visits path in
    (
      results ∙ ap (append one.0) found ∙ all,
      states path ∙ ap (overlay (lookup path one.1)) last ∙ state,
    )
