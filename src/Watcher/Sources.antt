-- ===== src/Watcher/Sources.antt =====
-- cmd/watcher/cli/run.go: what the flags say of the sources (parseSources, resolveSources, formatSources,
-- displayKey), and the summary line of a scan (formatPerToolScan, attributePath).
pub mod Specs
pub mod Attribute
use token_usage.Prelude.{
  ◌⊎◌, inl, inr, ℕ, zero, suc, ◌+◌, ◌-◌, ◌≡◌, Bool, true, false, ◌&&◌, ◌||◌, Option, none, some,
  List, [], ◌∷◌, ◌++◌, map, Text, text_eq, codes, ◌==◌, ltb, leb, nat_beq, length, take, drop,
  has_prefix, if◌then◌else◌,
}
use token_usage.Table.{lookup, alter}
use token_usage.Sort.{order_by, text_leb}
use token_usage.Types.{UsageRecord, EditRecord}
use token_usage.Parsers.Std.{join, itoa}
use token_usage.Watcher.Scan.{Source, Pending}

-- strings.IndexByte; `none` is -1
unfoldable pub index_byte : Text → ℕ → Option ℕ
index_byte [] b = none
index_byte (a ∷ s) b =
    let rest = index_byte s b in
    if nat_beq a b then some 0 else elim rest [ none ↦ none | some i ↦ some (suc i) ]

-- One "tool=path"; `none` is the error.
unfoldable pub parse_source : Text → Option Source
unfolding index_byte
parse_source s = elim (index_byte s b'=') [
  | none ↦ none
  | some i ↦
      if nat_beq i 0 || nat_beq (suc i) (length s)
      then none
      else some (record { tool = take i s; root = drop (suc i) s })
]

-- `parseSources`: the first spec that is wrong is the error
unfoldable pub parse_sources : List Text → Text ⊎ List Source
unfolding parse_source
parse_sources [] = inr []
parse_sources (s ∷ specs) =
    let rest = parse_sources specs in
    elim (parse_source s) [
      | none ↦ inl s
      | some source ↦ elim rest [ inl bad ↦ inl bad | inr sources ↦ inr (source ∷ sources) ]
    ]

-- The flags of `RunConfig` that choose the sources, and whether --root or --tool was given.
pub record RunConfig : Type 0 where
  pub sources : List Text
  pub root : Text
  pub tool : Text
  pub is_single : Bool

-- `resolveSources`, given what is detected
unfoldable pub resolve_sources : RunConfig → List Source → Text ⊎ List Source
unfolding parse_sources
resolve_sources cfg detected =
    let single : List Source = record { tool = cfg.tool; root = cfg.root } ∷ [] in
    elim cfg.sources [
      | spec ∷ specs ↦ parse_sources (spec ∷ specs)
      | [] ↦
          if cfg.is_single
          then inr single
          else elim detected [ [] ↦ inr single | s ∷ ss ↦ inr (s ∷ ss) ]
    ]

-- `formatSources`; the arrow is three bytes
unfoldable format_sources : List Source → Text
unfolding join
format_sources sources =
    join (map (λ (s : Source). s.tool ++ (0xE2 ∷ 0x86 ∷ 0x92 ∷ s.root)) sources) (codes ", ")

-- `displayKey`; the ellipsis is three bytes
unfoldable display_key : Text → Text
display_key k =
    if leb 12 (length k) then take 12 k ++ (0xE2 ∷ 0x80 ∷ 0xA6 ∷ []) else codes "[invalid]"

-- `envOr` of what os.Getenv returns
unfoldable env_or : Text → Text → Text
env_or v fallback = if v == [] then fallback else v

-- len(src.Root) > bestLen
abbrev pub beats : Option ℕ → ℕ → Bool
beats none n = true
beats (some m) n = ltb m n

-- The loop of `attributePath`: the best tool, and the length of its root if there is one; `none` is -1.
unfoldable pub attribute_from : List Source → Text → Text × Option ℕ → Text × Option ℕ
attribute_from [] path best = best
attribute_from (s ∷ sources) path best = attribute_from sources path (
    if beats best.1 (length s.root) && has_prefix path s.root
    then (s.tool, some (length s.root))
    else best)

-- `attributePath`
unfoldable pub attribute_path : List Source → Text → Text
unfolding attribute_from
attribute_path sources path = (attribute_from sources path ([], none)).0

abbrev pub Counts : Type 0
Counts = List (Text × ℕ)

-- counts[k]++
abbrev pub increment : Text → Counts → Counts
increment k = alter k (λ n. elim n [ none ↦ 1 | some n ↦ suc n ])

-- counts[k]
abbrev pub count_of : Text → Counts → ℕ
count_of k counts = elim (lookup k counts) [ none ↦ 0 | some n ↦ n ]

-- files[src.Tool] = 0, for each source
unfoldable pub zeros : List Source → Counts → Counts
unfolding alter
zeros [] counts = counts
zeros (s ∷ sources) counts = zeros sources (alter s.tool (λ _. 0) counts)

unfoldable pub count_files : List Source → Pending → Counts → Counts
unfolding attribute_path alter
count_files sources [] files = files
count_files sources ((path, state) ∷ pending) files =
    let tool = attribute_path sources path in
    count_files sources pending (if tool == [] then files else increment tool files)

unfoldable count_labels : List Text → Counts → Counts
unfolding alter
count_labels [] counts = counts
count_labels (tool ∷ tools) counts = count_labels tools (increment tool counts)

-- one part of the line
unfoldable tool_part : Text → ℕ → ℕ → ℕ → Text
unfolding itoa
tool_part tool news files edits =
    let s = tool ++ (codes " " ++ (itoa news ++ (codes "/" ++ itoa files))) in
    if ltb 0 edits then s ++ (codes " (+" ++ (itoa edits ++ codes " edits)")) else s

-- `formatPerToolScan`
unfoldable format_per_tool_scan : List Source → Pending → List UsageRecord → List EditRecord → Text
unfolding zeros count_files count_labels order_by text_leb tool_part join lookup
format_per_tool_scan sources pending recs edits =
    let files = count_files sources pending (zeros sources []) in
    let news = count_labels (map (λ (r : UsageRecord). r.tool) recs) (zeros sources []) in
    let new_edits = count_labels (map (λ (e : EditRecord). e.tool) edits) [] in
    let tools = order_by text_leb (map (λ (row : Text × ℕ). row.0) files) in
    join (map (λ t. tool_part t (count_of t news) (count_of t files) (count_of t new_edits)) tools)
      (codes ", ")
