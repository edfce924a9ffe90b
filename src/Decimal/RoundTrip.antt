-- ===== src/Decimal/RoundTrip.antt =====
-- A printed number is read back by `http_parse_content_length_value`.
use cinder_http.Prelude.{
  ℕ, zero, suc, ◌+◌, ◌/◌, ◌%◌, ◌≤◌, ◌≡◌, refl, ap, ◌∙◌, true, false, [], ◌∷◌, ltb, leb,
  if◌then◌else◌, ok, err, arith, all, is_empty, Bool-cases, inl, inr,
}
use cinder_http.Limits.{http_max_body_size}
use cinder_http.Text.{Bytes}
use cinder_http.Decimal.{digits_onto, format_decimal}
use cinder_http.Parser.Errors.{invalid_content_length, too_large}
use cinder_http.Parser.Tokens.{is_digit}
use cinder_http.Parser.ContentLength.{
  decimal_from, decimal, ullong_max, http_parse_content_length_value,
}

-- Reading the digits of `n` first comes to reading `out` behind `n`.
digits_onto-decimal :
    (f n : ℕ) (out : Bytes) → n ≤ f → decimal_from 0 (digits_onto f n out) ≡ decimal_from n out
unfolding digits_onto decimal_from
digits_onto-decimal zero n out h = ap (λ k. decimal_from k out) (omega arith)
digits_onto-decimal (suc f) n out h = elim (Bool-cases (ltb n 10)) [
  | inl e ↦ rw e (ap (λ k. decimal_from k out) (omega arith))
  | inr e ↦ rw e (
      digits_onto-decimal f (n / 10) ((b'0' + n % 10) ∷ out) (ground arith)
      ∙ ap (λ k. decimal_from k out) (omega arith))
]

digits_onto-digits :
    (f n : ℕ) (out : Bytes)
    → n ≤ f
    → all is_digit out ≡ true
    → (all is_digit (digits_onto f n out) ≡ true) × (is_empty (digits_onto f n out) ≡ false)
unfolding digits_onto
digits_onto-digits zero n out h d = (ground arith, refl)
digits_onto-digits (suc f) n out h d = elim (Bool-cases (ltb n 10)) [
  | inl e ↦ rw e (ground arith, refl)
  | inr e ↦
      rw e (digits_onto-digits f (n / 10) ((b'0' + n % 10) ∷ out) (ground arith) (ground arith))
]

pub format_decimal-digits :
    (n : ℕ) → (all is_digit (format_decimal n) ≡ true) × (is_empty (format_decimal n) ≡ false)
unfolding format_decimal
format_decimal-digits n = digits_onto-digits n n [] (omega arith) refl

pub decimal-format : (n : ℕ) → decimal (format_decimal n) ≡ n
unfolding format_decimal
decimal-format n = digits_onto-decimal n n [] (omega arith) ∙ unfold decimal_from in refl

-- The printed form of a number is a valid Content-Length up to 1 MiB, too large from there to
-- 2^64 - 1, and invalid above.
pub content_length-format :
    (n : ℕ)
    → http_parse_content_length_value (format_decimal n) ≡ (
        if leb n http_max_body_size
        then ok n
        else if leb n ullong_max
        then err too_large
        else err invalid_content_length)
unfolding http_parse_content_length_value
content_length-format n =
    let (digits, some_digits) = format_decimal-digits n in
    rw (some_digits, digits, decimal-format n) (ground arith)
