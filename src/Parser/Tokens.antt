-- ===== src/Parser/Tokens.antt =====
-- The character and method tests of src/http_parser.c.
use cinder_http.Prelude.{
  ℕ, Bool, true, false, ◌&&◌, ◌||◌, List, [], ◌∷◌, ◌==◌, leb, if◌then◌else◌, all, is_empty,
}
use cinder_http.Text.{Bytes, codes, strcmp_eq}

abbrev pub is_digit : ℕ → Bool
is_digit c = leb b'0' c && leb c b'9'

-- The cases of the `switch`.
abbrev is_token_mark : ℕ → Bool
is_token_mark c =
    c == b'!'
    || c == b'#'
    || c == b'$'
    || c == b'%'
    || c == b'&'
    || c == 39
    || c == b'*'
    || c == b'+'
    || c == b'-'
    || c == b'.'
    || c == b'^'
    || c == b'_'
    || c == b'`'
    || c == b'|'
    || c == b'~'

unfoldable pub is_token_char : ℕ → Bool
is_token_char c =
    if (leb b'A' c && leb c b'Z') || (leb b'a' c && leb c b'z') || is_digit c
    then true
    else is_token_mark c

unfoldable pub is_supported_method_token : Bytes → Bool
is_supported_method_token m =
    strcmp_eq m (codes "GET") || strcmp_eq m (codes "HEAD") || strcmp_eq m (codes "POST")

abbrev known_methods : List Bytes
known_methods =
    codes "PUT"
    ∷ codes "DELETE"
    ∷ codes "PATCH"
    ∷ codes "OPTIONS"
    ∷ codes "TRACE"
    ∷ codes "CONNECT"
    ∷ codes "PRI"
    ∷ []

-- The source answers 1 behind its loop too.
known_from : List Bytes → Bytes → Bool
known_from [] m = true
known_from (k ∷ ks) m = if strcmp_eq m k then true else known_from ks m

unfoldable pub is_known_unsupported_method : Bytes → Bool
unfolding known_from
is_known_unsupported_method m = known_from known_methods m

unfoldable pub method_token_is_well_formed : Bytes → Bool
method_token_is_well_formed m = if is_empty m then false else all is_token_char m
