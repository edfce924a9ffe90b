-- ===== src/Parser/Message.antt =====
-- `http_parse_request` of src/http_parser.c. Where the source fails it empties the request; here
-- an error carries none.
use cinder_http.Prelude.{
  ℕ, ◌+◌, Bool, true, false, not, List, [], ◌∷◌, ◌==◌, leb, ltb, if◌then◌else◌, Option, none, some,
  ok, err, ◌>>=◌, ◌>>◌, require, or_fail, length, take, drop, is_empty,
}
use cinder_http.Limits.{http_max_header_bytes}
use cinder_http.Text.{Bytes, Alloc, header_name_equal}
use cinder_http.Request.{Header, Request, http_request_init, http_request_get_header}
use cinder_http.Parser.Errors.{
  Parsed, bad_request, too_large, invalid_content_length, unsupported_transfer_encoding,
  out_of_memory,
}
use cinder_http.Parser.Terminator.{http_find_header_terminator}
use cinder_http.Parser.ContentLength.{http_parse_content_length_value}
use cinder_http.Parser.Framing.{
  Lines, tail, line, split_lf, strip_cr, transfer_encoding, content_length_name,
  http_inspect_message_framing,
}
use cinder_http.Parser.RequestLine.{parse_request_line}
use cinder_http.Parser.HeaderLine.{parse_header_line}

-- How many headers bear that name.
unfoldable pub count_headers : Bytes → List Header → ℕ
count_headers name [] = 0
count_headers name (h ∷ hs) =
    (if header_name_equal h.name name then 1 else 0) + count_headers name hs

unfoldable pub is_some : Option Bytes → Bool
is_some none = false
is_some (some v) = true

-- The body length that the stored headers announce.
unfoldable pub announced_length : Request → Option Bytes → Parsed ℕ
announced_length request none = ok 0
announced_length request (some cl) = do
  require (not (ltb 1 (count_headers content_length_name request.headers))) invalid_content_length
  http_parse_content_length_value cl

module _ (alloc : Alloc) where
  unfoldable pub parse_header_lines : Lines → Request → Parsed Request
  parse_header_lines (tail []) request = ok request
  parse_header_lines (tail (c ∷ cs)) request = err bad_request
  parse_header_lines (line l ls) request = do
    content ← or_fail (strip_cr l) bad_request
    request' ← parse_header_line alloc content request
    parse_header_lines ls request'

  -- The text up to and with the line end of the last header.
  unfoldable pub parse_head : Lines → Parsed Request
  parse_head (tail t) = err bad_request
  parse_head (line l ls) = do
    content ← or_fail (strip_cr l) bad_request
    request ← parse_request_line alloc content http_request_init
    parse_header_lines ls request

  -- The checks behind the loop, and the body.
  unfoldable pub finish_request : Bytes → ℕ → ℕ → Request → Parsed Request
  finish_request message header_bytes expected_body request = do
    require (not (is_some (http_request_get_header request transfer_encoding)))
        unsupported_transfer_encoding
    body_length ← announced_length request (http_request_get_header request content_length_name)
    require (body_length == expected_body) bad_request
    require (if ltb 0 body_length then alloc (body_length + 1) else true) out_of_memory
    ok (record request { body = take body_length (drop header_bytes message) })

  unfoldable pub http_parse_request : Bytes → Parsed Request
  http_parse_request message = do
    require (not (is_empty message)) bad_request
    term ← or_fail (http_find_header_terminator message) bad_request
    let header_bytes = term + 4
    require (leb header_bytes http_max_header_bytes) too_large
    expected_body ← http_inspect_message_framing alloc (take header_bytes message)
    require (length message == header_bytes + expected_body) bad_request
    request ← parse_head (split_lf (take (term + 2) message))
    finish_request message header_bytes expected_body request
