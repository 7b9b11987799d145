-- ===== src/Examples/Watching.antt =====
-- The sources of a watcher: from --source, or detected, and the line that counts what they gave.
use token_usage.Prelude.{
  ◌↔◌, ◌≡◌, refl, inl, inr, true, false, Option, none, some, List, [], ◌∷◌, map, Text, text_eq,
  codes, ◌==◌, All, IsIn, ◌||◌, text_beq, split, has_prefix, if◌then◌else◌,
}
use token_usage.Watcher.Scan.{Source}
use token_usage.Watcher.Detect.{
  linux, FileInfo, DirEntry, Tool, known_tool_defaults, candidate_homes, is_root, candidate,
  auto_detect_sources,
}
use token_usage.Watcher.Detect.Found.{Distinct, auto_detect_sources-Found}
use token_usage.Watcher.Sources.{parse_sources, attribute_path}
use token_usage.Watcher.Sources.Specs.{spec_of, IsSpec, parse_sources_iff}
use token_usage.Watcher.Sources.Attribute.{Attributed, attribute_path-Attributed}

abbrev source : Text → Text → Source
source tool root = record { tool = tool; root = root }

abbrev home : Text
home = codes "/home/ann"

abbrev stat : Text → Option FileInfo
stat path =
    if path == codes "/home/ann/.codex/sessions" || path == codes "/home/bob/.codex/sessions"
    then some (record { is_dir = true; is_regular = false })
    else none

abbrev read_dir : Text → Option (List DirEntry)
read_dir path = some (
    record { name = codes "ann"; is_dir = true }
    ∷ record { name = codes "Shared"; is_dir = true }
    ∷ record { name = codes "bob"; is_dir = true }
    ∷ [])

abbrev detected : List Source
detected = auto_detect_sources stat linux read_dir home

-- The home that stands under /home too is searched twice and counted once.
detected_two :
    detected
    ≡ source (codes "codex") (codes "/home/ann/.codex/sessions")
      ∷ source (codes "codex") (codes "/home/bob/.codex/sessions")
      ∷ []
unfolding auto_detect_sources text_beq split
detected_two = refl

auto_detect_sources-Found_example :
    Distinct detected
    × ((s : Source)
        → IsIn s detected ↔ (
            (h : Text) × IsIn h (candidate_homes linux read_dir home)
            × ((ds : Tool) × IsIn ds known_tool_defaults
                × (s ≡ candidate stat h ds)
                × (is_root (stat s.root) ≡ true))))
auto_detect_sources-Found_example = auto_detect_sources-Found stat linux read_dir home

abbrev specs : List Text
specs = codes "codex=/a" ∷ codes "pi=/a/b=c" ∷ []

abbrev given : List Source
given = source (codes "codex") (codes "/a") ∷ source (codes "pi") (codes "/a/b=c") ∷ []

specs_read : parse_sources specs ≡ inr given
unfolding parse_sources
specs_read = refl

specs_refused : parse_sources (codes "codex=/a" ∷ codes "pi=" ∷ []) ≡ inl (codes "pi=")
unfolding parse_sources
specs_refused = refl

parse_sources_iff_example :
    (parse_sources specs ≡ inr given) ↔ ((map spec_of given ≡ specs) × All IsSpec given)
parse_sources_iff_example = parse_sources_iff specs given

attributed_longest : attribute_path given (codes "/a/b=c/d.jsonl") ≡ codes "pi"
unfolding attribute_path has_prefix
attributed_longest = refl

attribute_path-Attributed_example :
    Attributed given (codes "/a/b=c/d.jsonl") (attribute_path given (codes "/a/b=c/d.jsonl"))
attribute_path-Attributed_example = attribute_path-Attributed given (codes "/a/b=c/d.jsonl")
