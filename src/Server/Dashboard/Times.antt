-- ===== src/Server/Dashboard/Times.antt =====
-- The times that a request for a page gives.
use token_usage.Prelude.{
  ℕ, ◌^◌, ◌-◌, ◌<◌, ◌≤◌, ◌≡◌, refl, true, false, none, some, [], ◌∷◌, Text, text_eq, text_beq, ◌==◌,
  arith,
}
use token_usage.Prelude.Int.{pos}
use token_usage.Parsers.Std.{itoa, digits_value}
use token_usage.Parsers.Numbers.{all_digits, starts_digit, digits_value-itoa, itoa-digits}
use token_usage.Server.Dashboard.{TimeCodec, parse_digits, parse_int, parse_time}

parse_int-digits :
    (s : Text)
    → all_digits s ≡ true
    → starts_digit s ≡ true
    → digits_value 0 s ≤ 2 ^ 63 - 1
    → parse_int s ≡ some (pos (digits_value 0 s))
unfolding parse_int parse_digits all_digits
parse_int-digits [] d f h = absurd (ground (arith, f))
parse_int-digits (a ∷ s) d f h = ground (arith, d, f, h)

starts_digit-filled : (s : Text) → starts_digit s ≡ true → (s == []) ≡ false
unfolding text_beq
starts_digit-filled [] h = absurd (ground (arith, h))
starts_digit-filled (a ∷ s) h = refl

-- A number of seconds below 2 ^ 63, as a client prints it, is read as that instant, if it is not a time of
-- RFC 3339.
pub parse_time-itoa :
    (times : TimeCodec) (n : ℕ)
    → n < 2 ^ 63
    → times.rfc3339 (itoa n) ≡ none
    → parse_time times (itoa n) ≡ times.unix (pos n)
unfolding parse_time
parse_time-itoa times n h plain =
    let (d, f) = itoa-digits n in
    let value = digits_value-itoa n in
    let read = parse_int-digits (itoa n) d f (rw value (ground (arith, h))) in
    rw (parse_time, starts_digit-filled (itoa n) f, plain, read, value) refl
