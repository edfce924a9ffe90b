-- ===== src/Parser/RoundTrip.antt =====
-- What the parser makes of a printed request. `print_request` is the specification: the wire form
-- of RFC 7230 for the requests that src/http_parser.c accepts.
pub mod Pieces
pub mod Frame
pub mod Framed
pub mod Head
pub mod Whole
use cinder_http.Prelude.{
  ℕ, ◌≡◌, ◌≢◌, Bool, true, false, not, ◌&&◌, ◌||◌, List, [], ◌∷◌, ◌++◌, ◌==◌, ◌≤◌, ◌+◌, length, all,
  ◌⊎◌, Option, none, some, ok,
}
use cinder_http.Text.{Bytes, skip_ows, trim_ows_end}
use cinder_http.Request.{Header, Request, http_request_get_header}
use cinder_http.Parser.HeaderLine.{is_name_char}

-- Text that stands on a line of its own: no NUL, line feed or carriage return.
abbrev pub is_line_char : ℕ → Bool
is_line_char c = not (c == 0 || c == 10 || c == 13)

abbrev pub is_field_name_char : ℕ → Bool
is_field_name_char c = is_line_char c && is_name_char c && not (c == b':')

abbrev pub is_target_char : ℕ → Bool
is_target_char c = is_line_char c && not (c == b' ')

abbrev pub header_line : Header → Bytes
header_line h = h.name ++ b':' ∷ b' ' ∷ h.value

unfoldable pub print_headers : List Header → Bytes
print_headers [] = []
print_headers (h ∷ hs) = header_line h ++ 13 ∷ 10 ∷ print_headers hs

abbrev pub request_line : Bytes → Bytes → Bytes → Bytes
request_line method target version = method ++ b' ' ∷ (target ++ b' ' ∷ version)

-- The request line and the headers, each with its line end.
abbrev pub print_head : Bytes → Bytes → Bytes → List Header → Bytes
print_head method target version headers =
    request_line method target version ++ 13 ∷ 10 ∷ print_headers headers

abbrev pub print_request : Bytes → Bytes → Bytes → List Header → Bytes → Bytes
print_request method target version headers body =
    print_head method target version headers ++ 13 ∷ 10 ∷ body

-- A header that a line can carry unchanged.
pub record FitsLine (h : Header) : Type 0 where
  pub name_ne_nil : h.name ≢ []
  pub name_chars : all is_field_name_char h.name ≡ true
  pub value_chars : all is_line_char h.value ≡ true
  pub no_left_blank : skip_ows h.value ≡ h.value
  pub no_right_blank : trim_ows_end h.value ≡ h.value

abbrev pub FitLines : List Header → Type 0
FitLines [] = Unit
FitLines (h ∷ hs) = FitsLine h × FitLines hs
