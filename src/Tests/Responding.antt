-- ===== src/Tests/Responding.antt =====
-- src/http_response.c on concrete responses.
use cinder_http.Prelude.{◌-◌, ◌≡◌, refl, [], ◌∷◌, ◌++◌, some, arith, length}
use cinder_http.Text.{
  Bytes, codes, header_name_equal, has_byte, skip_ows, trim_ows_end, ascii_tolower,
}
use cinder_http.Decimal.{format_decimal, digits_onto}
use cinder_http.Request.{Header}
use cinder_http.Parser.Terminator.{http_find_header_terminator}
use cinder_http.Parser.RoundTrip.{FitLines, FitsLine}
use cinder_http.Response.{
  Response, memory, http_response_init, http_response_remove_header, response_has_header,
  last_first, remove_from,
}
use cinder_http.Response.Serialize.{http_response_serialize_headers}
use cinder_http.Response.Printed.{
  print_response, added_headers, serialize_headers-print_response, serialize_headers-terminator,
}
use cinder_http.Tests.Parsing.{granted_all}

abbrev header : Bytes → Bytes → Header
header name value = record { name = name; value = value }

abbrev twice_typed : Response
twice_typed = record http_response_init {
  headers =
      header (codes "Etag") (codes "1")
      ∷ header (codes "X") (codes "2")
      ∷ header (codes "eTAG") (codes "3")
      ∷ [];
}

removes_both :
    http_response_remove_header twice_typed (codes "ETag")
    ≡ (record twice_typed { headers = header (codes "X") (codes "2") ∷ [] }, 2)
unfolding http_response_remove_header remove_from header_name_equal ascii_tolower last_first
removes_both = refl

abbrev pub answer : Response
answer = record http_response_init {
  status_code = 200;
  reason_phrase = some (codes "OK");
  headers = header (codes "Server") (codes "x") ∷ [];
  body = memory (some (codes "hi"));
  body_length = 2;
}

serialize_headers-print_response_example :
    http_response_serialize_headers granted_all answer ≡ some (print_response answer)
unfolding format_decimal digits_onto
serialize_headers-print_response_example =
    serialize_headers-print_response granted_all answer (λ n. refl) (omega arith) (omega arith)

prints :
    print_response answer
    ≡ codes "HTTP/1.1 200 OK\r\nServer: x\r\nConnection: close\r\nContent-Length: 2\r\n\r\n"
unfolding format_decimal digits_onto cinder_http.Parser.RoundTrip.print_headers response_has_header
    header_name_equal ascii_tolower cinder_http.Response.Printed.lacks
    cinder_http.Text.Letters.same_name
prints = refl

answer-FitLines : FitLines (answer.headers ++ added_headers answer)
unfolding skip_ows trim_ows_end response_has_header header_name_equal ascii_tolower format_decimal
    digits_onto cinder_http.Response.Printed.lacks cinder_http.Text.Letters.same_name
answer-FitLines = (
  record {
    name_ne_nil = λ e. cc;
    name_chars = refl;
    value_chars = refl;
    no_left_blank = refl;
    no_right_blank = refl;
  },
  (
    record {
      name_ne_nil = λ e. cc;
      name_chars = refl;
      value_chars = refl;
      no_left_blank = refl;
      no_right_blank = refl;
    },
    (
      record {
        name_ne_nil = λ e. cc;
        name_chars = refl;
        value_chars = refl;
        no_left_blank = refl;
        no_right_blank = refl;
      },
      tt,
    ),
  ),
)

serialize_headers-terminator_example :
    http_find_header_terminator (print_response answer ++ codes "hi")
    ≡ some (length (print_response answer) - 4)
unfolding has_byte format_decimal digits_onto
serialize_headers-terminator_example =
    serialize_headers-terminator granted_all answer (print_response answer) (codes "hi")
      serialize_headers-print_response_example refl answer-FitLines
