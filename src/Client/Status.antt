-- ===== src/Client/Status.antt =====
-- The tables of src/client_handler.c that map results to status codes.
use cinder_http.Prelude.{ℕ, Bool, ◌||◌, ◌==◌, if◌then◌else◌, ok, err}
use cinder_http.Text.{Bytes, codes}
use cinder_http.Parser.Errors.{
  Parsed, bad_request, unsupported_method, unsupported_version, too_large, too_many_headers,
  invalid_content_length, unsupported_transfer_encoding, out_of_memory,
}
use cinder_http.Reader.{
  ReadError, client_closed, timeout, read_too_large, io_error, read_bad_request,
  read_unsupported_transfer_encoding, read_invalid_content_length, read_out_of_memory,
}
use cinder_http.StaticFiles.Errors.{Static, StaticError, not_found, forbidden, bad_target}

unfoldable pub status_for_read_result : ReadError → ℕ
status_for_read_result read_too_large = 413
status_for_read_result read_unsupported_transfer_encoding = 501
status_for_read_result timeout = 408
status_for_read_result read_invalid_content_length = 400
status_for_read_result read_bad_request = 400
status_for_read_result read_out_of_memory = 500
status_for_read_result client_closed = 400
status_for_read_result io_error = 400

unfoldable pub status_for_parse_result : {A : Type 0} → Parsed A → ℕ
status_for_parse_result (ok parsed) = 200
status_for_parse_result (err unsupported_method) = 405
status_for_parse_result (err unsupported_version) = 505
status_for_parse_result (err too_large) = 413
status_for_parse_result (err too_many_headers) = 400
status_for_parse_result (err invalid_content_length) = 400
status_for_parse_result (err unsupported_transfer_encoding) = 501
status_for_parse_result (err out_of_memory) = 500
status_for_parse_result (err bad_request) = 400

unfoldable pub status_for_static_result : {A : Type 0} → Static A → ℕ
status_for_static_result (ok served) = 200
status_for_static_result (err not_found) = 404
status_for_static_result (err forbidden) = 403
status_for_static_result (err bad_target) = 400
status_for_static_result (err StaticError.too_large) = 413
status_for_static_result (err StaticError.out_of_memory) = 500
status_for_static_result (err StaticError.io_error) = 500

unfoldable pub error_heading_for_status : ℕ → Bytes
error_heading_for_status status =
    if status == 400
    then codes "Bad Request"
    else if status == 403
    then codes "Forbidden"
    else if status == 404
    then codes "Not Found"
    else if status == 405
    then codes "Method Not Allowed"
    else if status == 408
    then codes "Request Timeout"
    else if status == 413
    then codes "Payload Too Large"
    else if status == 501
    then codes "Not Implemented"
    else if status == 505
    then codes "HTTP Version Not Supported"
    else codes "Internal Server Error"

unfoldable pub status_requires_close : ℕ → Bool
status_requires_close status =
    status == 400
    || (status == 408 || (status == 413 || (status == 501 || (status == 505 || status == 500))))
