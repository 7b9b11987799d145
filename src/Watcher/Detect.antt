-- ===== src/Watcher/Detect.antt =====
-- internal/watcher/defaults.go: which directories are taken as sources when none is given. The operating
-- system, its directory entries and `os.Stat` are arguments; a path is split at `/`.
pub mod Found
use token_usage.Prelude.{
  ℕ, Bool, true, false, not, ◌&&◌, ◌||◌, Option, none, some, List, [], ◌∷◌, ◌++◌, map, Text,
  text_eq, codes, ◌==◌, split, if◌then◌else◌,
}
use token_usage.Parsers.Std.{join}
use token_usage.Watcher.Scan.{Source}

-- `runtime.GOOS`
pub data Os : Type 0 where
  windows darwin linux other : Os

-- What `os.Stat` says of a path.
pub record FileInfo : Type 0 where
  pub is_dir : Bool
  pub is_regular : Bool

pub record DirEntry : Type 0 where
  pub name : Text
  pub is_dir : Bool

pub record Tool : Type 0 where
  pub tool : Text
  pub subpath : Text

abbrev pub known_tool_defaults : List Tool
known_tool_defaults =
    record { tool = codes "claude-code"; subpath = codes ".claude/projects" }
    ∷ record { tool = codes "codex"; subpath = codes ".codex/sessions" }
    ∷ record { tool = codes "astron-code"; subpath = codes ".acode/sessions" }
    ∷ record { tool = codes "opencode"; subpath = codes ".local/share/opencode/opencode.db" }
    ∷ record { tool = codes "pi"; subpath = codes ".pi/agent/sessions" }
    ∷ record { tool = codes "deepseek-harness"; subpath = codes ".dsh/sessions" }
    ∷ []

-- whether a list of texts, such as the keys of a map, has one
unfoldable pub member : Text → List Text → Bool
member t [] = false
member t (s ∷ ts) = let rest = member t ts in if s == t then true else rest

-- the elements of a path, behind those before it in reverse; `rooted` says that it starts with a slash
unfoldable clean_parts : Bool → List Text → List Text → List Text
clean_parts rooted [] done = done
clean_parts rooted (p ∷ ps) done =
    let skip = clean_parts rooted ps done in
    let push = clean_parts rooted ps (p ∷ done) in
    if p == [] || p == codes "."
    then skip
    else if p == codes ".."
    then elim done [
      | [] ↦ if rooted then skip else push
      | q ∷ qs ↦ let up = clean_parts rooted ps qs in if q == codes ".." then push else up
    ]
    else push

abbrev is_rooted : Text → Bool
is_rooted [] = false
is_rooted (a ∷ path) = (a ∷ []) == codes "/"

unfoldable in_order : List Text → List Text → List Text
in_order [] done = done
in_order (p ∷ ps) done = in_order ps (p ∷ done)

-- filepath.Clean
unfoldable clean : Text → Text
unfolding clean_parts in_order join
clean path =
    let rooted = is_rooted path in
    let body = join (in_order (clean_parts rooted (split path b'/') []) []) (codes "/") in
    if rooted then codes "/" ++ body else if body == [] then codes "." else body

-- filepath.Join of two elements: an empty one is left out
unfoldable pub join_path : Text → Text → Text
unfolding clean
join_path a b =
    if a == []
    then (if b == [] then [] else clean b)
    else if b == []
    then clean a
    else clean (a ++ (codes "/" ++ b))

-- `profileBase`
abbrev profile_base : Os → Text
profile_base windows = codes "C:\\Users"
profile_base darwin = codes "/Users"
profile_base linux = codes "/home"
profile_base other = codes "/home"

-- `skipProfile`
abbrev skip_profile : List Text
skip_profile =
    codes "Default"
    ∷ codes "Default User"
    ∷ codes "Public"
    ∷ codes "All Users"
    ∷ codes "WDAGUtilityAccount"
    ∷ codes "Shared"
    ∷ []

-- the loop of `candidateHomes`
unfoldable homes_under : Text → List DirEntry → List Text
unfolding join_path member
homes_under base [] = []
homes_under base (e ∷ entries) =
    let rest = homes_under base entries in
    if not e.is_dir || member e.name skip_profile then rest else join_path base e.name ∷ rest

-- `candidateHomes`; `none` is an error of ReadDir
unfoldable pub candidate_homes : Os → (Text → Option (List DirEntry)) → Text → List Text
unfolding homes_under
candidate_homes os read_dir home = elim (read_dir (profile_base os)) [
  | none ↦ home ∷ []
  | some entries ↦ home ∷ homes_under (profile_base os) entries
]

-- err == nil && (info.IsDir() || info.Mode().IsRegular())
abbrev pub is_root : Option FileInfo → Bool
is_root none = false
is_root (some info) = info.is_dir || info.is_regular

-- ds.Tool + "\x00" + p
abbrev pub source_key : Source → Text
source_key s = s.tool ++ 0 ∷ s.root

module _ (stat : Text → Option FileInfo) where
  abbrev pub candidate : Text → Tool → Source
  candidate home ds = record { tool = ds.tool; root = join_path home ds.subpath }

  -- the sources found, and the keys seen
  unfoldable pub detect_one : Text → Tool → List Source × List Text → List Source × List Text
  unfolding join_path member
  detect_one home ds acc =
      let s = candidate home ds in
      if not (is_root (stat s.root))
      then acc
      else if member (source_key s) acc.1
      then acc
      else (acc.0 ++ s ∷ [], source_key s ∷ acc.1)

  unfoldable pub detect_home : Text → List Tool → List Source × List Text → List Source × List Text
  unfolding detect_one
  detect_home home [] acc = acc
  detect_home home (ds ∷ tools) acc = detect_home home tools (detect_one home ds acc)

  unfoldable pub detect_all :
      List Text → List Tool → List Source × List Text → List Source × List Text
  unfolding detect_home
  detect_all [] tools acc = acc
  detect_all (home ∷ homes) tools acc = detect_all homes tools (detect_home home tools acc)

  -- `AutoDetectSources`
  unfoldable pub auto_detect_sources : Os → (Text → Option (List DirEntry)) → Text → List Source
  unfolding candidate_homes detect_all
  auto_detect_sources os read_dir home =
      (detect_all (candidate_homes os read_dir home) known_tool_defaults ([], [])).0
