-- ===== src/Parsers/Codex/Script.antt =====
-- internal/watcher/parsers/codex.go: the escapes of a script's string literals, and the patch envelopes
-- that a tool call carries. The source walks a string by an index `i`; here a function recurs on what
-- stands from `i` on, and `skip` counts the bytes that the source's next index jumps over.
use token_usage.Prelude.{
  ℕ, zero, suc, ◌+◌, ◌-◌, ◌*◌, ◌/◌, ◌%◌, Bool, ◌&&◌, ◌||◌, Option, none, some, List, [], ◌∷◌, ◌++◌,
  Text, codes, ltb, leb, nat_beq, ◌==◌, text_eq, length, drop, has_prefix, contains, if◌then◌else◌,
  ◌>>=◌,
}

-- string(rune(v)) for a rune below 0x10000: its UTF-8 bytes, and those of U+FFFD for a surrogate
unfoldable pub utf8 : ℕ → Text
utf8 v =
    if ltb v 0x80
    then v ∷ []
    else if ltb v 0x800
    then (0xc0 + v / 64) ∷ (0x80 + v % 64) ∷ []
    else if leb 0xd800 v && leb v 0xdfff
    then 0xef ∷ 0xbf ∷ 0xbd ∷ []
    else (0xe0 + v / 4096) ∷ (0x80 + v / 64 % 64) ∷ (0x80 + v % 64) ∷ []

unfoldable pub hex_digit : ℕ → Option ℕ
hex_digit c =
    if leb b'0' c && leb c b'9'
    then some (c - b'0')
    else if leb b'a' c && leb c b'f'
    then some (c - b'a' + 10)
    else if leb b'A' c && leb c b'F'
    then some (c - b'A' + 10)
    else none

-- strconv.ParseUint(s[i+2:i+6], 16, 32), where `i+6 <= len(s)`
unfoldable pub hex4 : Text → Option ℕ
unfolding hex_digit
hex4 (a ∷ b ∷ c ∷ d ∷ s) = do
  x ← hex_digit a
  y ← hex_digit b
  z ← hex_digit c
  w ← hex_digit d
  some (((x * 16 + y) * 16 + z) * 16 + w)
hex4 _ = none

-- `decodeEscape`, given what stands behind the backslash: the text, and how many bytes behind the
-- backslash it takes up.
unfoldable pub decode_escape : Text → Text × ℕ
decode_escape [] = (codes "\\", 0)
decode_escape (c ∷ s) =
    if nat_beq c b'n'
    then (b'\n' ∷ [], 1)
    else if nat_beq c b't'
    then (b'\t' ∷ [], 1)
    else if nat_beq c b'r'
    then (b'\r' ∷ [], 1)
    else if nat_beq c b'u'
    then (elim (hex4 s) [ some v ↦ (utf8 v, 5) | none ↦ (codes "u", 1) ])
    else (utf8 c, 1)

-- `unescapeJS` from an index on
unfoldable pub unescape_from : Text → ℕ → Text
unfolding decode_escape
unescape_from [] skip = []
unescape_from (a ∷ s) (suc skip) = unescape_from s skip
unescape_from (a ∷ s) zero =
    let escaped : Text = (decode_escape s).0 ++ unescape_from s (decode_escape s).1 in
    let plain : Text = a ∷ unescape_from s 0 in if nat_beq a b'\\' then escaped else plain

unfoldable pub unescape_js : Text → Text
unfolding unescape_from
unescape_js s = unescape_from s 0

-- The loop of `jsStringLiteral` behind the opening quote: the contents, and how many bytes the loop
-- and its closing quote took; `none` if there is no closing quote.
unfoldable pub literal_body : ℕ → Text → ℕ → Text → ℕ → Option (Text × ℕ)
unfolding decode_escape
literal_body quote [] skip acc n = none
literal_body quote (a ∷ s) (suc skip) acc n = literal_body quote s skip acc (suc n)
literal_body quote (a ∷ s) zero acc n =
    let escaped : Option (Text × ℕ) =
      literal_body quote s (decode_escape s).1 (acc ++ (decode_escape s).0) (suc n) in
    let plain : Option (Text × ℕ) = literal_body quote s 0 (acc ++ a ∷ []) (suc n) in
    if nat_beq a b'\\' then escaped else if nat_beq a quote then some (acc, suc n) else plain

abbrev is_quote : ℕ → Bool
is_quote c = nat_beq c b'"' || (nat_beq c b'\'' || nat_beq c b'`')

abbrev is_blank : ℕ → Bool
is_blank c = nat_beq c b' ' || (nat_beq c b'\t' || (nat_beq c b'\n' || nat_beq c b'\r'))

-- `jsStringLiteral`: the contents and the bytes consumed, 0 if there is no literal. `n` counts the
-- white space before it.
unfoldable pub literal_from : Text → ℕ → Text × ℕ
unfolding literal_body
literal_from [] n = ([], 0)
literal_from (a ∷ s) n =
    let later : Text × ℕ = literal_from s (suc n) in
    let here : Text × ℕ = elim (literal_body a s 0 [] (suc n)) [ some r ↦ r | none ↦ ([], 0) ] in
    if is_blank a then later else if is_quote a then here else ([], 0)

unfoldable pub js_string_literal : Text → Text × ℕ
unfolding literal_from
js_string_literal s = literal_from s 0

abbrev pub begin_patch_marker : Text
begin_patch_marker = codes "*** Begin Patch"

abbrev pub apply_patch_call : Text
apply_patch_call = codes "tools.apply_patch("

-- The loop of `codexPatchEnvelopes`. strings.Index finds the first position at which the call stands,
-- so the positions are tried one by one; behind a call and its literal the search goes on.
unfoldable pub call_arguments : Text → ℕ → List Text
unfolding has_prefix js_string_literal contains
call_arguments [] skip = []
call_arguments (a ∷ s) (suc skip) = call_arguments s skip
call_arguments (a ∷ s) zero =
    let (arg, n) = js_string_literal (drop (length apply_patch_call) (a ∷ s)) in
    let rest : List Text = call_arguments s (length apply_patch_call - 1 + n) in
    let next : List Text = call_arguments s 0 in
    if has_prefix (a ∷ s) apply_patch_call
    then (if ltb 0 n && contains arg begin_patch_marker then arg ∷ rest else rest)
    else next

-- `codexPatchEnvelopes`
unfoldable pub codex_patch_envelopes : Text → Text → List Text
unfolding call_arguments unescape_js contains
codex_patch_envelopes name input =
    if name == codes "apply_patch"
    then input ∷ []
    else if contains input (codes "Begin Patch")
    then (elim (call_arguments input 0) [
      | arg ∷ args ↦ arg ∷ args
      | [] ↦
          let unescaped = unescape_js input in
          if contains unescaped begin_patch_marker then unescaped ∷ [] else []
    ])
    else []
