-- ===== src/Connection.antt =====
-- src/http_connection.c: whether a connection stays open, and the header that says so.
pub mod Tokens
pub mod Policy
pub mod Denied
pub mod Untouched
use cinder_http.Prelude.{
  ℕ, Bool, true, false, not, ◌&&◌, ◌||◌, List, [], ◌∷◌, ◌==◌, if◌then◌else◌, Option, none, some,
  is_empty,
}
use cinder_http.Text.{Bytes, codes, Alloc, header_name_equal, strcmp_eq, skip_ows, trim_ows_end}
use cinder_http.Request.{Request, http_request_get_header}
use cinder_http.Response.{Response, http_response_remove_header, http_response_set_header}

abbrev pub onto_first : ℕ → List Bytes → List Bytes
onto_first c [] = (c ∷ []) ∷ []
onto_first c (piece ∷ pieces) = (c ∷ piece) ∷ pieces

-- The pieces of a header value between its commas. The source does not look at an empty piece at
-- the end, which is no token.
unfoldable pub split_comma : Bytes → List Bytes
split_comma [] = [] ∷ []
split_comma (c ∷ cs) =
    let rest = split_comma cs in if c == b',' then [] ∷ rest else onto_first c rest

-- `token_equal_ci` on a piece without the white space round it.
abbrev pub is_piece : Bytes → Bytes → Bool
is_piece token piece = header_name_equal (trim_ows_end (skip_ows piece)) token

unfoldable pub any_piece : Bytes → List Bytes → Bool
any_piece token [] = false
any_piece token (piece ∷ pieces) = is_piece token piece || any_piece token pieces

unfoldable pub http_header_value_has_token : Option Bytes → Bytes → Bool
http_header_value_has_token none token = false
http_header_value_has_token (some value) token =
    if is_empty token then false else any_piece token (split_comma value)

abbrev pub connection : Bytes
connection = codes "Connection"

-- From the version on.
abbrev pub wants_keep_alive : Option Bytes → Option Bytes → Bool
wants_keep_alive none value = false
wants_keep_alive (some version) value =
    if http_header_value_has_token value (codes "close")
    then false
    else if strcmp_eq version (codes "HTTP/1.1")
    then true
    else if strcmp_eq version (codes "HTTP/1.0")
    then http_header_value_has_token value (codes "keep-alive")
    else false

unfoldable pub http_request_wants_keep_alive : Request → Bool
http_request_wants_keep_alive request =
    wants_keep_alive request.version (http_request_get_header request connection)

abbrev pub is_http_1_0 : Option Bytes → Bool
is_http_1_0 none = false
is_http_1_0 (some version) = strcmp_eq version (codes "HTTP/1.0")

unfoldable pub http_response_apply_connection_policy :
    Alloc → Response → Bool → Option Bytes → Bool × Response
http_response_apply_connection_policy alloc response keep_alive http_version =
    if not keep_alive
    then http_response_set_header alloc (record response { suppress_auto_connection_close = false })
        connection (codes "close")
    else if is_http_1_0 http_version
    then http_response_set_header alloc (record response { suppress_auto_connection_close = false })
        connection (codes "keep-alive")
    else (
      true,
      record (http_response_remove_header response connection).0 {
        suppress_auto_connection_close = true;
      },
    )
