-- ===== src/Parsers/Numbers.antt =====
-- Numbers that strconv.Itoa prints, read back.
use token_usage.Prelude.{
  inl, inr, ℕ, zero, suc, ◌+◌, ◌/◌, ◌%◌, ◌<◌, ◌≡◌, refl, ap, ◌∙◌, Bool, true, false, ◌&&◌, [], ◌∷◌,
  Text, ltb, leb, arith, Bool-cases,
}
use token_usage.Parsers.Std.{itoa, itoa_from, digits_value}

-- whether every byte is a digit
unfoldable pub all_digits : Text → Bool
all_digits [] = true
all_digits (a ∷ s) = let rest = all_digits s in leb b'0' a && (leb a b'9' && rest)

-- whether the first byte is a digit; false of the empty text
abbrev pub starts_digit : Text → Bool
starts_digit [] = false
starts_digit (a ∷ s) = leb b'0' a && leb a b'9'

digits_value-itoa_from :
    (fuel n : ℕ) (acc : Text)
    → n < fuel
    → digits_value 0 (itoa_from fuel n acc) ≡ digits_value n acc
unfolding digits_value itoa_from
digits_value-itoa_from zero n acc h = absurd (omega arith)
digits_value-itoa_from (suc fuel) n acc h = elim (Bool-cases (ltb n 10)) [
  | inl small ↦ rw small (ap (λ k. digits_value k acc) (omega arith))
  | inr big ↦
      let smaller : n / 10 < fuel = ground (arith, big) in
      rw big (
        digits_value-itoa_from fuel (n / 10) ((b'0' + n % 10) ∷ acc) smaller
        ∙ ap (λ k. digits_value k acc) (omega arith))
]

-- Reading a printed number gives the number back.
pub digits_value-itoa : (n : ℕ) → digits_value 0 (itoa n) ≡ n
unfolding itoa digits_value
digits_value-itoa n = digits_value-itoa_from (suc n) n [] (omega arith)

itoa_from-digits :
    (fuel n : ℕ) (acc : Text)
    → n < fuel
    → all_digits acc ≡ true
    → (all_digits (itoa_from fuel n acc) ≡ true) × (starts_digit (itoa_from fuel n acc) ≡ true)
unfolding all_digits itoa_from
itoa_from-digits zero n acc h d = absurd (omega arith)
itoa_from-digits (suc fuel) n acc h d = elim (Bool-cases (ltb n 10)) [
  | inl small ↦ ground (arith, small, d)
  | inr big ↦ rw big (
      itoa_from-digits fuel (n / 10) ((b'0' + n % 10) ∷ acc) (ground (arith, big))
        (ground (arith, d)))
]

-- A printed number is digits, and has one.
pub itoa-digits : (n : ℕ) → (all_digits (itoa n) ≡ true) × (starts_digit (itoa n) ≡ true)
unfolding itoa all_digits
itoa-digits n = itoa_from-digits (suc n) n [] (omega arith) refl
