-- ===== src/Parsers/Codex/Literals.antt =====
-- Escapes and string literals of a script: what a printer escapes is read back, and an escape that the
-- source documents otherwise.
use token_usage.Prelude.{
  ℕ, suc, ◌+◌, ◌/◌, ◌%◌, ◌≤◌, ◌<◌, ◌≡◌, ◌≢◌, refl, ◌∙◌, ◌||◌, some, [], ◌∷◌, ◌++◌, append_assoc,
  append-nil, Text, codes, nat_beq, arith, length, length-append, if◌then◌else◌,
}
use mathlib.Core.Path.{ap₂}
use token_usage.Parsers.Codex.Script.{utf8, hex4, decode_escape, literal_body, js_string_literal}

-- How a printer of JavaScript writes one byte between double quotes.
unfoldable pub escape_byte : ℕ → Text
escape_byte c =
    if nat_beq c b'\\' || nat_beq c b'"'
    then b'\\' ∷ c ∷ []
    else if nat_beq c b'\n'
    then codes "\\n"
    else if nat_beq c b'\t'
    then codes "\\t"
    else if nat_beq c b'\r'
    then codes "\\r"
    else c ∷ []

unfoldable pub escape : Text → Text
unfolding escape_byte
escape [] = []
escape (c ∷ s) = escape_byte c ++ escape s

literal_body-escape_byte :
    (c : ℕ) (rest acc : Text) (n : ℕ)
    → literal_body b'"' (escape_byte c ++ rest) 0 acc n
      ≡ literal_body b'"' rest 0 (acc ++ c ∷ []) (n + length (escape_byte c))
unfolding literal_body escape_byte utf8 hex4
literal_body-escape_byte c rest acc n = ground arith

literal_body-escape :
    (s rest acc : Text) (n : ℕ)
    → literal_body b'"' (escape s ++ b'"' ∷ rest) 0 acc n
      ≡ some (acc ++ s, suc (n + length (escape s)))
unfolding escape literal_body
literal_body-escape [] rest acc n = rw append-nil (ground arith)
literal_body-escape (c ∷ s) rest acc n = rw append_assoc (
    literal_body-escape_byte c (escape s ++ b'"' ∷ rest) acc n
    ∙ literal_body-escape s rest (acc ++ c ∷ []) (n + length (escape_byte c))
    ∙ ap₂ (λ t k. some (t, k)) (append_assoc acc (c ∷ []) s)
        (omega (arith, length-append {0} (escape_byte c) (escape s))))

-- A string that a script writes between double quotes, its special characters escaped, is read back
-- whatever follows it, and the bytes consumed are those of the literal.
pub js_string_literal-escape :
    (s rest : Text)
    → js_string_literal (b'"' ∷ (escape s ++ b'"' ∷ rest)) ≡ (s, length (escape s) + 2)
unfolding js_string_literal
js_string_literal-escape s rest = ground (arith, literal_body-escape s rest [] 1)

decode_escape_other : (c : ℕ) (s : Text) → 0x80 ≤ c → decode_escape (c ∷ s) ≡ (utf8 c, 1)
unfolding decode_escape
decode_escape_other c s lo = ground arith

utf8_two : (c : ℕ) → 0x80 ≤ c → c < 0x100 → utf8 c ≡ (0xc0 + c / 64) ∷ (0x80 + c % 64) ∷ []
unfolding utf8
utf8_two c lo hi = ground arith

-- A backslash before a character that is not ASCII does not stand for the character: its first byte
-- is taken for a code point of its own and written as two bytes.
decode_escape_non_ascii :
    (c : ℕ) (s : Text)
    → 0x80 ≤ c
    → c < 0x100
    → (decode_escape (c ∷ s) ≡ ((0xc0 + c / 64) ∷ (0x80 + c % 64) ∷ [], 1))
      × ((decode_escape (c ∷ s)).0 ≢ c ∷ [])
decode_escape_non_ascii c s lo hi =
    rw (decode_escape_other c s lo, utf8_two c lo hi) (refl, ground arith)
