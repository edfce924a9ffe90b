-- ===== src/Config/Numbers.antt =====
-- `parse_long_arg` of src/config.c, with a `long` of 64 bits.
use cinder_http.Prelude.{
  ℕ, zero, suc, ◌-◌, ◌^◌, Bool, true, false, not, ◌&&◌, ◌||◌, [], ◌∷◌, ◌==◌, leb, if◌then◌else◌,
  Option, none, some, ℤ, pos, negsuc, length, is_empty,
}
use cinder_http.Text.{Bytes}
use cinder_http.Parser.Tokens.{is_digit}
use cinder_http.Parser.ContentLength.{decimal}

-- `isspace` in the C locale.
abbrev pub is_space : ℕ → Bool
is_space c = c == 32 || leb 9 c && leb c 13

unfoldable pub skip_space : Bytes → Bytes
skip_space [] = []
skip_space (c ∷ cs) = let rest = skip_space cs in if is_space c then rest else c ∷ cs

-- Whether a minus sign stands first, and what follows the sign.
abbrev pub sign_of : Bytes → Bool × Bytes
sign_of [] = (false, [])
sign_of (c ∷ cs) =
    if c == b'-' then (true, cs) else if c == b'+' then (false, cs) else (false, c ∷ cs)

abbrev pub onto_digits : ℕ → Bytes × Bytes → Bytes × Bytes
onto_digits c (digits, rest) = (c ∷ digits, rest)

unfoldable pub take_digits : Bytes → Bytes × Bytes
take_digits [] = ([], [])
take_digits (c ∷ cs) =
    let more = take_digits cs in if is_digit c then onto_digits c more else ([], c ∷ cs)

abbrev pub long_max : ℕ
long_max = 2 ^ 63 - 1

abbrev pub negate : ℕ → ℤ
negate zero = pos zero
negate (suc n) = negsuc n

-- The value, clipped to a `long`, and whether it was (`ERANGE`).
abbrev pub to_long : Bool → ℕ → ℤ × Bool
to_long false n = if leb n long_max then (pos n, false) else (pos long_max, true)
to_long true n = if leb n (2 ^ 63) then (negate n, false) else (negate (2 ^ 63), true)

-- `strtol (text, &end, 10)`: the value, the text from `end` on, and whether `errno` is `ERANGE`.
-- Without a digit, `end` is the start.
unfoldable pub strtol : Bytes → ℤ × Bytes × Bool
strtol text =
    let (negative, unsigned) = sign_of (skip_space text) in
    let (digits, rest) = take_digits unsigned in
    let (value, out_of_range) = to_long negative (decimal digits) in
    if is_empty digits then (pos 0, text, false) else (value, rest, out_of_range)

-- The conversion of the argument behind the option; `none` is the answer 0.
unfoldable pub parse_long : Bytes → Option ℤ
parse_long value_str =
    let (value, rest, out_of_range) = strtol value_str in
    if length rest == length value_str || not (is_empty rest) || out_of_range
    then none
    else some value
