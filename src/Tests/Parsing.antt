-- ===== src/Tests/Parsing.antt =====
-- src/http_parser.c on concrete messages.
use cinder_http.Prelude.{◌≡◌, refl, true, List, [], ◌∷◌, some, ok, err, arith, inr}
use cinder_http.Text.{Bytes, codes, Alloc, skip_ows, trim_ows_end, header_name_equal, ascii_tolower}
use cinder_http.Request.{Header, Request, Method, get, post, http_method_to_string, find_header}
use cinder_http.Parser.Errors.{bad_request, invalid_content_length}
use cinder_http.Parser.Message.{count_headers, http_parse_request}
use cinder_http.Parser.RoundTrip.{print_request, print_headers, FitsLine}
use cinder_http.Parser.RoundTrip.Framed.{FitsFraming}
use cinder_http.Parser.ContentLength.{http_parse_content_length_value, decimal_from}
use cinder_http.Parser.RoundTrip.Head.{IsPrintable}
use cinder_http.Parser.RoundTrip.Whole.{http_parse_request-print_request}
use cinder_http.Parser.Accepted.{http_parse_request-IsAccepted, IsAccepted}

abbrev pub granted_all : Alloc
granted_all n = true

abbrev sent_headers : List Header
sent_headers =
    record { name = codes "Host"; value = codes "a" }
    ∷ record { name = codes "Content-Length"; value = codes "2" }
    ∷ []

abbrev message : Bytes
message =
    print_request (http_method_to_string post) (codes "/x") (codes "HTTP/1.1") sent_headers
      (codes "hi")

abbrev sent : Request
sent = record {
  method = post;
  target = some (codes "/x");
  version = some (codes "HTTP/1.1");
  headers = sent_headers;
  body = codes "hi";
}

host-FitsLine : FitsLine (record { name = codes "Host"; value = codes "a" })
unfolding skip_ows trim_ows_end
host-FitsLine = record {
  name_ne_nil = λ e. cc;
  name_chars = refl;
  value_chars = refl;
  no_left_blank = refl;
  no_right_blank = refl;
}

length-FitsLine : FitsLine (record { name = codes "Content-Length"; value = codes "2" })
unfolding skip_ows trim_ows_end
length-FitsLine = record {
  name_ne_nil = λ e. cc;
  name_chars = refl;
  value_chars = refl;
  no_left_blank = refl;
  no_right_blank = refl;
}

sent-FitsFraming : FitsFraming sent_headers (codes "hi")
unfolding count_headers find_header http_parse_content_length_value decimal_from header_name_equal
    ascii_tolower
sent-FitsFraming = record {
  no_transfer_encoding = refl;
  one_length = omega arith;
  fits_length = refl;
}

message-IsPrintable : IsPrintable post (codes "/x") (codes "HTTP/1.1") sent_headers (codes "hi")
unfolding print_headers http_method_to_string
message-IsPrintable = record {
  served = inr (inr refl);
  target_ne_nil = λ e. cc;
  target_chars = refl;
  http1 = inr refl;
  lines = (host-FitsLine, (length-FitsLine, tt));
  few_headers = omega arith;
  short_line = omega arith;
  short_head = omega arith;
  framing = sent-FitsFraming;
}

http_parse_request-print_request_example : http_parse_request granted_all message ≡ ok sent
http_parse_request-print_request_example =
    http_parse_request-print_request granted_all (λ n. refl) post (codes "/x") (codes "HTTP/1.1")
      sent_headers (codes "hi") message-IsPrintable

http_parse_request-IsAccepted_example : IsAccepted message sent
http_parse_request-IsAccepted_example =
    http_parse_request-IsAccepted granted_all message http_parse_request-print_request_example

-- A second Content-Length is refused, and so is a body that is shorter than announced.
abbrev twice : Bytes
twice = codes "POST / HTTP/1.1\r\nContent-Length: 1\r\nContent-Length: 1\r\n\r\nx"

refuses_second_length : http_parse_request granted_all twice ≡ err invalid_content_length
unfolding http_parse_request cinder_http.Parser.Terminator.find_terminator
    cinder_http.Parser.Framing.http_inspect_message_framing cinder_http.Text.strcmp_eq
    cinder_http.Parser.Framing.inspect_after_request_line cinder_http.Parser.Framing.split_lf
    cinder_http.Parser.Framing.strip_cr cinder_http.Parser.Framing.inspect_lines
    cinder_http.Parser.Framing.inspect_line cinder_http.Text.memchr cinder_http.Text.dup_range
    cinder_http.Parser.Framing.inspect_field header_name_equal cinder_http.Text.c_string
    ascii_tolower http_parse_content_length_value trim_ows_end decimal_from
    cinder_http.Parser.HeaderLine.append_header cinder_http.Parser.HeaderLine.header_fields
    cinder_http.Parser.HeaderLine.parse_header_line cinder_http.Parser.Message.announced_length
    count_headers cinder_http.Parser.Message.finish_request cinder_http.Parser.Message.is_some
    cinder_http.Parser.Message.parse_head cinder_http.Parser.Message.parse_header_lines
    cinder_http.Parser.RequestLine.check_method cinder_http.Parser.RequestLine.check_version
    cinder_http.Parser.RequestLine.parse_request_line cinder_http.Parser.RequestLine.request_fields
    cinder_http.Parser.RequestLine.start_request
    cinder_http.Parser.Tokens.is_known_unsupported_method
    cinder_http.Parser.Tokens.is_supported_method_token cinder_http.Parser.Tokens.is_token_char
    cinder_http.Parser.Tokens.method_token_is_well_formed find_header
    cinder_http.Request.http_method_from_string cinder_http.Text.has_byte skip_ows
    cinder_http.Text.starts_with cinder_http.Text.strstr
refuses_second_length = refl

refuses_short_body :
    http_parse_request granted_all (codes "POST / HTTP/1.1\r\nContent-Length: 2\r\n\r\nx")
    ≡ err bad_request
unfolding http_parse_request cinder_http.Parser.Terminator.find_terminator
    cinder_http.Parser.Framing.http_inspect_message_framing cinder_http.Text.strcmp_eq
    cinder_http.Parser.Framing.inspect_after_request_line cinder_http.Parser.Framing.split_lf
    cinder_http.Parser.Framing.strip_cr cinder_http.Parser.Framing.inspect_lines
    cinder_http.Parser.Framing.inspect_line cinder_http.Text.memchr cinder_http.Text.dup_range
    cinder_http.Parser.Framing.inspect_field header_name_equal cinder_http.Text.c_string
    ascii_tolower http_parse_content_length_value trim_ows_end decimal_from
    cinder_http.Parser.HeaderLine.append_header cinder_http.Parser.HeaderLine.header_fields
    cinder_http.Parser.HeaderLine.parse_header_line cinder_http.Parser.Message.announced_length
    count_headers cinder_http.Parser.Message.finish_request cinder_http.Parser.Message.is_some
    cinder_http.Parser.Message.parse_head cinder_http.Parser.Message.parse_header_lines
    cinder_http.Parser.RequestLine.check_method cinder_http.Parser.RequestLine.check_version
    cinder_http.Parser.RequestLine.parse_request_line cinder_http.Parser.RequestLine.request_fields
    cinder_http.Parser.RequestLine.start_request
    cinder_http.Parser.Tokens.is_known_unsupported_method
    cinder_http.Parser.Tokens.is_supported_method_token cinder_http.Parser.Tokens.is_token_char
    cinder_http.Parser.Tokens.method_token_is_well_formed find_header
    cinder_http.Request.http_method_from_string cinder_http.Text.has_byte skip_ows
    cinder_http.Text.starts_with cinder_http.Text.strstr
refuses_short_body = refl
