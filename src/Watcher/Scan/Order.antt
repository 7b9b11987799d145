-- ===== src/Watcher/Scan/Order.antt =====
-- A scan of all sources against one pass over their files.
use token_usage.Prelude.{
  inl, inr, ◌≡◌, refl, ap, sym, ◌∙◌, true, false, Option, none, some, List, [], ◌∷◌, ◌++◌, map,
  Text, text_eq, Option-cases,
}
use token_usage.Table.{lookup, alter, IsUnique, alter-IsUnique}
use token_usage.Parsers.Std.{ScanResult}
use token_usage.Parsers.Tail.{empty, append}
use token_usage.Parsers.Tail.Resume.{append-empty}
use token_usage.Watcher.Run.{Checkpoint}
use token_usage.Watcher.Scan.{
  Source, Parser, for_tool, Tree, ScanError, unknown_parser, source_root, Pending, SourceResult,
  scanned, copy, first_err, merge_results, scan_source, scan,
}
use token_usage.Watcher.Scan.Pass.{
  run_visits-append, scan_entries-visits, Extends, nothing, run_visits-IsUnique, Extends-trans,
  run_visits-Extends, Visit, entry_visits, run_visits, lookup-copy, overlay-none, pass_results,
  pass_state, run_visits-found,
}

module _ (registry : List (Text × Parser)) (tree : Tree) (c : Checkpoint) where
  -- The files of a source, in the order of the walk: none if it has no parser or its root is not there.
  unfoldable pub source_visits : Source → List Visit
  unfolding for_tool entry_visits
  source_visits src = elim (for_tool registry src.tool) [
    | none ↦ []
    | some parser ↦ elim (tree.stat src.root) [
      | none ↦ []
      | some false ↦ record { parser = parser; tool = src.tool; path = src.root } ∷ []
      | some true ↦ entry_visits parser src.tool (tree.walk src.root)
    ]
  ]

  -- What is wrong with a source, if something is.
  unfoldable source_error : Source → Option ScanError
  unfolding for_tool
  source_error src = elim (for_tool registry src.tool) [
    | none ↦ some (unknown_parser src.tool)
    | some parser ↦ elim (tree.stat src.root) [ none ↦ some (source_root src.tool) | some _ ↦ none ]
  ]

  unfoldable pub all_visits : List Source → List Visit
  unfolding source_visits
  all_visits [] = []
  all_visits (src ∷ sources) = source_visits src ++ all_visits sources

  unfoldable pub error_of : List Source → Option ScanError
  unfolding source_error
  error_of [] = none
  error_of (src ∷ sources) = first_err (source_error src) (error_of sources)

  scan_source-visits :
      (src : Source)
      → let out = run_visits c (source_visits src) nothing in
        scan_source registry tree c src
        ≡ record { res = out.0; pending = out.1; err = source_error src }
  unfolding scan_source source_visits source_error run_visits
  scan_source-visits src = elim (Option-cases (for_tool registry src.tool)) [
    | inl e ↦ rw (scan_source, source_visits, source_error, e) refl
    | inr (parser, e) ↦ elim (Option-cases (tree.stat src.root)) [
      | inl f ↦ rw (scan_source, source_visits, source_error, e, f) refl
      | inr (true, f) ↦
          rw (scan_source, source_visits, source_error, e, f)
            (ap scanned (scan_entries-visits c parser src.tool (tree.walk src.root) nothing))
      | inr (false, f) ↦ rw (scan_source, source_visits, source_error, e, f) refl
    ]
  ]

  first_err-none : (e : Option ScanError) → e ≡ first_err e none
  first_err-none none = refl
  first_err-none (some e) = refl

  first_err_assoc :
      (a b d : Option ScanError) → first_err (first_err a b) d ≡ first_err a (first_err b d)
  first_err_assoc none b d = refl
  first_err_assoc (some a) b d = refl

  merge_results-visits :
      (sources : List Source) (all : ScanResult) (pending : Pending) (err : Option ScanError)
      → let out = merge_results (map (scan_source registry tree c) sources) all pending err in
        Extends (all, pending) (run_visits c (all_visits sources) nothing) (out.0, out.1)
        × (out.2 ≡ first_err err (error_of sources))
  unfolding merge_results all_visits error_of lookup run_visits
  merge_results-visits [] all pending err =
      ((sym (append-empty all), λ k. refl), first_err-none err)
  merge_results-visits (src ∷ sources) all pending err =
      let one = run_visits c (source_visits src) nothing in
      let rest =
        merge_results-visits sources (append all one.0) (copy pending one.1)
          (first_err err (source_error src)) in
      rw
        (
          scan_source-visits src,
          run_visits-append c (source_visits src) (all_visits sources) nothing,
        )
        (
          Extends-trans (all, pending) one (run_visits c (all_visits sources) nothing) _ _
              (append all one.0, copy pending one.1)
              (
                refl,
                λ k.
                    lookup-copy k pending one.1
                      (run_visits-IsUnique c (source_visits src) nothing tt),
              )
              rest.0 (run_visits-Extends c (all_visits sources) one),
          rest.1 ∙ first_err_assoc err (source_error src) (error_of sources),
        )

  pub scan-run_visits :
      (sources : List Source)
      → let out = scan registry tree c sources in
        let pass = run_visits c (all_visits sources) (empty, []) in
        (out.0 ≡ pass.0)
        × ((path : Text) → lookup path out.1 ≡ lookup path pass.1)
        × (out.2 ≡ error_of sources)
  unfolding scan lookup
  scan-run_visits sources =
      let all = merge_results-visits sources empty [] none in
      (all.0.0, λ path. all.0.1 path ∙ overlay-none _, all.1)

  -- A scan finds what one pass over the files of all sources finds: the records of the files that their
  -- parsers could read, in order, and for each path the state of its last visit that a parser could read.
  -- Its error is that of the first source that is wrong.
  pub scan_lem :
      (sources : List Source)
      → let out = scan registry tree c sources in
        let visits = all_visits sources in
        (out.0 ≡ pass_results c visits)
        × ((path : Text) → lookup path out.1 ≡ pass_state c path visits)
        × (out.2 ≡ error_of sources)
  scan_lem sources =
      let (results, states, err) = scan-run_visits sources in
      let visits = all_visits sources in
      (
        results ∙ (run_visits-found c visits []).0,
        λ path. states path ∙ (run_visits-found c visits path).1,
        err,
      )

  copy-IsUnique : (dst src : Pending) → IsUnique dst → IsUnique (copy dst src)
  unfolding copy
  copy-IsUnique dst [] u = u
  copy-IsUnique dst ((path, s) ∷ src) u =
      copy-IsUnique (alter path (λ _. s) dst) src (alter-IsUnique path (λ _. s) dst u)

  merge_results-IsUnique :
      (results : List SourceResult) (all : ScanResult) (pending : Pending) (err : Option ScanError)
      → IsUnique pending
      → IsUnique (merge_results results all pending err).1
  unfolding merge_results
  merge_results-IsUnique [] all pending err u = u
  merge_results-IsUnique (r ∷ results) all pending err u =
      merge_results-IsUnique results (append all r.res) (copy pending r.pending)
        (first_err err r.err) (copy-IsUnique pending r.pending u)

  -- A scan gives each path one state.
  pub scan-IsUnique : (sources : List Source) → IsUnique (scan registry tree c sources).1
  unfolding scan
  scan-IsUnique sources =
      merge_results-IsUnique (map (scan_source registry tree c) sources) empty [] none tt
