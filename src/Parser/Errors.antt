-- ===== src/Parser/Errors.antt =====
-- `http_parse_result_t` of include/http_parser.h. `HTTP_PARSE_OK` is the `ok` of a `Result`.
use cinder_http.Prelude.{Result}

pub data ParseError : Type 0 where
  bad_request unsupported_method unsupported_version too_large too_many_headers : ParseError
  invalid_content_length unsupported_transfer_encoding out_of_memory : ParseError

abbrev pub Parsed : Type 0 → Type 0
Parsed = Result ParseError
