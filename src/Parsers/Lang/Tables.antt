-- ===== src/Parsers/Lang/Tables.antt =====
-- The two maps of internal/watcher/parsers/lang.go.
use token_usage.Prelude.{String, List, [], ◌∷◌, Text, codes}

abbrev pub entry : String → String → Text × Text
entry key lang = (codes key, codes lang)

-- extLang
abbrev pub ext_lang : List (Text × Text)
ext_lang =
    entry "go" "golang"
    ∷ entry "java" "java"
    ∷ entry "rs" "rust"
    ∷ entry "py" "python"
    ∷ entry "js" "javascript"
    ∷ entry "mjs" "javascript"
    ∷ entry "cjs" "javascript"
    ∷ entry "jsx" "javascript"
    ∷ entry "ts" "typescript"
    ∷ entry "mts" "typescript"
    ∷ entry "cts" "typescript"
    ∷ entry "tsx" "typescript"
    ∷ entry "c" "c"
    ∷ entry "h" "c"
    ∷ entry "cc" "cpp"
    ∷ entry "cpp" "cpp"
    ∷ entry "cxx" "cpp"
    ∷ entry "hpp" "cpp"
    ∷ entry "hh" "cpp"
    ∷ entry "cs" "csharp"
    ∷ entry "rb" "ruby"
    ∷ entry "php" "php"
    ∷ entry "kt" "kotlin"
    ∷ entry "kts" "kotlin"
    ∷ entry "swift" "swift"
    ∷ entry "scala" "scala"
    ∷ entry "sh" "shell"
    ∷ entry "bash" "shell"
    ∷ entry "zsh" "shell"
    ∷ entry "sql" "sql"
    ∷ entry "html" "html"
    ∷ entry "htm" "html"
    ∷ entry "css" "css"
    ∷ entry "scss" "css"
    ∷ entry "less" "css"
    ∷ entry "vue" "vue"
    ∷ entry "svelte" "svelte"
    ∷ entry "md" "markdown"
    ∷ entry "markdown" "markdown"
    ∷ entry "json" "json"
    ∷ entry "yaml" "yaml"
    ∷ entry "yml" "yaml"
    ∷ entry "toml" "toml"
    ∷ entry "xml" "xml"
    ∷ entry "proto" "proto"
    ∷ entry "lua" "lua"
    ∷ entry "dart" "dart"
    ∷ entry "pl" "perl"
    ∷ entry "pm" "perl"
    ∷ entry "r" "r"
    ∷ entry "hs" "haskell"
    ∷ entry "ex" "elixir"
    ∷ entry "exs" "elixir"
    ∷ entry "erl" "erlang"
    ∷ entry "zig" "zig"
    ∷ entry "groovy" "groovy"
    ∷ entry "gradle" "gradle"
    ∷ entry "tf" "terraform"
    ∷ entry "tfvars" "terraform"
    ∷ entry "hcl" "hcl"
    ∷ entry "m" "objective-c"
    ∷ entry "mm" "objective-c"
    ∷ entry "fs" "fsharp"
    ∷ entry "fsi" "fsharp"
    ∷ entry "fsx" "fsharp"
    ∷ entry "ml" "ocaml"
    ∷ entry "mli" "ocaml"
    ∷ entry "clj" "clojure"
    ∷ entry "cljs" "clojure"
    ∷ entry "cljc" "clojure"
    ∷ entry "edn" "clojure"
    ∷ entry "elm" "elm"
    ∷ entry "nim" "nim"
    ∷ entry "cr" "crystal"
    ∷ entry "jl" "julia"
    ∷ entry "f" "fortran"
    ∷ entry "f90" "fortran"
    ∷ entry "f95" "fortran"
    ∷ entry "pas" "pascal"
    ∷ entry "vb" "vbnet"
    ∷ entry "s" "assembly"
    ∷ entry "asm" "assembly"
    ∷ entry "sol" "solidity"
    ∷ entry "graphql" "graphql"
    ∷ entry "gql" "graphql"
    ∷ entry "nix" "nix"
    ∷ entry "hx" "haxe"
    ∷ entry "d" "d"
    ∷ entry "sv" "verilog"
    ∷ entry "vhd" "vhdl"
    ∷ entry "ps1" "powershell"
    ∷ entry "psm1" "powershell"
    ∷ entry "bat" "batch"
    ∷ entry "cmd" "batch"
    ∷ entry "fish" "shell"
    ∷ entry "awk" "awk"
    ∷ entry "ipynb" "notebook"
    ∷ entry "rst" "restructuredtext"
    ∷ entry "adoc" "asciidoc"
    ∷ entry "tex" "latex"
    ∷ entry "org" "org"
    ∷ entry "txt" "text"
    ∷ entry "svg" "svg"
    ∷ entry "astro" "astro"
    ∷ entry "sass" "css"
    ∷ entry "styl" "css"
    ∷ entry "pug" "pug"
    ∷ entry "hbs" "handlebars"
    ∷ entry "ejs" "javascript"
    ∷ entry "json5" "json"
    ∷ entry "jsonc" "json"
    ∷ entry "ini" "config"
    ∷ entry "cfg" "config"
    ∷ entry "conf" "config"
    ∷ entry "env" "config"
    ∷ entry "properties" "config"
    ∷ entry "thrift" "thrift"
    ∷ entry "cmake" "cmake"
    ∷ entry "bzl" "bazel"
    ∷ entry "bazel" "bazel"
    ∷ entry "jsonnet" "jsonnet"
    ∷ entry "libsonnet" "jsonnet"
    ∷ entry "prisma" "prisma"
    ∷ entry "csv" "data"
    ∷ entry "tsv" "data"
    ∷ []

-- baseLang
abbrev pub base_lang : List (Text × Text)
base_lang =
    entry "makefile" "makefile"
    ∷ entry "gnumakefile" "makefile"
    ∷ entry "dockerfile" "dockerfile"
    ∷ entry "containerfile" "dockerfile"
    ∷ entry "cmakelists.txt" "cmake"
    ∷ entry "jenkinsfile" "groovy"
    ∷ entry "gemfile" "ruby"
    ∷ entry "rakefile" "ruby"
    ∷ entry "vagrantfile" "ruby"
    ∷ entry "cargo.lock" "toml"
    ∷ entry "pipfile" "toml"
    ∷ entry "go.mod" "golang"
    ∷ entry "go.sum" "golang"
    ∷ []
