-- ===== src/Parser/Terminator.antt =====
-- `http_find_header_terminator` of src/http_parser.c.
pub mod First
use cinder_http.Prelude.{
  ℕ, ◌+◌, Bool, true, false, ◌&&◌, List, [], ◌∷◌, ◌==◌, if◌then◌else◌, Option, none, some,
}
use cinder_http.Text.{Bytes}

-- "\r\n\r\n"
abbrev pub crlf_crlf : Bytes
crlf_crlf = 13 ∷ 10 ∷ 13 ∷ 10 ∷ []

-- The test of the loop's body at the bytes from index `i` on.
abbrev pub terminator_here : Bytes → Bool
terminator_here (a ∷ b ∷ c ∷ d ∷ rest) = a == 13 && b == 10 && c == 13 && d == 10
terminator_here _ = false

-- The loop from index `i`, over the bytes that are left.
unfoldable pub find_terminator : ℕ → Bytes → Option ℕ
find_terminator i [] = none
find_terminator i (x ∷ xs) = if terminator_here (x ∷ xs) then some i else find_terminator (i + 1) xs

abbrev pub http_find_header_terminator : Bytes → Option ℕ
http_find_header_terminator = find_terminator 0
