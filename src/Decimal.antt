-- ===== src/Decimal.antt =====
-- `%d`, `%zu` and `PRIu64` of `snprintf`: the decimal print of a number.
pub mod RoundTrip
use cinder_http.Prelude.{ℕ, zero, suc, ◌+◌, ◌/◌, ◌%◌, List, [], ◌∷◌, ltb, if◌then◌else◌}
use cinder_http.Text.{Bytes}

-- The digits of `n` in front of `out`; each round takes one digit, so `n` rounds are enough.
unfoldable pub digits_onto : ℕ → ℕ → Bytes → Bytes
digits_onto zero n out = (b'0' + n) ∷ out
digits_onto (suc f) n out =
    let more = digits_onto f (n / 10) ((b'0' + n % 10) ∷ out) in
    if ltb n 10 then (b'0' + n) ∷ out else more

unfoldable pub format_decimal : ℕ → Bytes
format_decimal n = digits_onto n n []
