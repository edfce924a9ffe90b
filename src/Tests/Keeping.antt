-- ===== src/Tests/Keeping.antt =====
-- src/http_connection.c on concrete headers.
use cinder_http.Prelude.{◌≡◌, ◌↔◌, refl, true, [], ◌∷◌, some}
use cinder_http.Text.{Bytes, codes}
use cinder_http.Request.{Request, http_request_init}
use cinder_http.Connection.{
  connection, is_http_1_0, http_header_value_has_token, http_request_wants_keep_alive,
  http_response_apply_connection_policy,
}
use cinder_http.Connection.Tokens.{IsListed, http_header_value_has_token_iff}

abbrev offered : Bytes
offered = codes "Upgrade ,\tKeep-Alive"

http_header_value_has_token_iff_example :
    (http_header_value_has_token (some offered) (codes "keep-alive") ≡ true)
    ↔ IsListed (codes "keep-alive") offered
http_header_value_has_token_iff_example =
    http_header_value_has_token_iff offered (codes "keep-alive") refl

abbrev old_client : Request
old_client = record http_request_init {
  version = some (codes "HTTP/1.0");
  headers = record { name = codes "connection"; value = offered } ∷ [];
}

keeps_old_client : http_request_wants_keep_alive old_client ≡ true
unfolding http_request_wants_keep_alive http_header_value_has_token cinder_http.Request.find_header
    cinder_http.Text.header_name_equal cinder_http.Text.ascii_tolower
    cinder_http.Connection.any_piece cinder_http.Connection.split_comma
    cinder_http.Text.trim_ows_end cinder_http.Text.skip_ows cinder_http.Text.strcmp_eq
keeps_old_client = refl
