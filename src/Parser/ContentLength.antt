-- ===== src/Parser/ContentLength.antt =====
-- `http_parse_content_length_value` of src/http_parser.c, with `SIZE_MAX` equal to `ULLONG_MAX`.
use cinder_http.Prelude.{
  ℕ, ◌+◌, ◌-◌, ◌*◌, ◌^◌, not, [], ◌∷◌, leb, if◌then◌else◌, Option, none, some, ok, ◌>>=◌, ◌>>◌,
  require, or_fail, all, is_empty,
}
use cinder_http.Limits.{http_max_body_size}
use cinder_http.Text.{Bytes}
use cinder_http.Parser.Errors.{Parsed, invalid_content_length, too_large}
use cinder_http.Parser.Tokens.{is_digit}

-- The number that the digits spell behind `n`.
unfoldable pub decimal_from : ℕ → Bytes → ℕ
decimal_from n [] = n
decimal_from n (c ∷ cs) = decimal_from (n * 10 + (c - b'0')) cs

abbrev pub decimal : Bytes → ℕ
decimal = decimal_from 0

abbrev pub ullong_max : ℕ
ullong_max = 2 ^ 64 - 1

-- `strtoull (value, &end, 10)` on a non-empty run of digits, which it reads to its end: `none` is
-- `ERANGE`.
strtoull : Bytes → Option ℕ
strtoull value = let n = decimal value in if leb n ullong_max then some n else none

unfoldable pub http_parse_content_length_value : Bytes → Parsed ℕ
unfolding strtoull
http_parse_content_length_value value = do
  require (not (is_empty value)) invalid_content_length
  require (all is_digit value) invalid_content_length
  parsed ← or_fail (strtoull value) invalid_content_length
  require (leb parsed http_max_body_size) too_large
  ok parsed
