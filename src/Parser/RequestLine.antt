-- ===== src/Parser/RequestLine.antt =====
-- `parse_request_line` of src/http_parser.c.
use cinder_http.Prelude.{
  Bool, false, not, ◌&&◌, ◌||◌, [], ◌∷◌, ◌==◌, ltb, if◌then◌else◌, some, ok, err, ◌>>=◌, ◌>>◌,
  require, or_fail, length, all, is_empty, drop,
}
use cinder_http.Limits.{http_max_request_line}
use cinder_http.Text.{Bytes, codes, Alloc, strcmp_eq, starts_with, memchr, has_byte, dup_range}
use cinder_http.Request.{Request, http_method_from_string}
use cinder_http.Parser.Errors.{
  Parsed, bad_request, unsupported_method, unsupported_version, too_large, out_of_memory,
}
use cinder_http.Parser.Tokens.{
  is_digit, is_supported_method_token, is_known_unsupported_method, method_token_is_well_formed,
}

abbrev pub http_1_0 : Bytes
http_1_0 = codes "HTTP/1.0"

abbrev pub http_1_1 : Bytes
http_1_1 = codes "HTTP/1.1"

-- "HTTP/" and a non-empty run of digits and dots.
abbrev pub is_http_like : Bytes → Bool
is_http_like v =
    starts_with (codes "HTTP/") v
    && not (is_empty (drop 5 v))
    && all (λ c. is_digit c || c == b'.') (drop 5 v)

unfoldable pub check_version : Bytes → Parsed (Unit {0})
check_version v =
    if strcmp_eq v http_1_0 || strcmp_eq v http_1_1
    then ok tt
    else if is_http_like v
    then err unsupported_version
    else err bad_request

abbrev pub starts_with_space : Bytes → Bool
starts_with_space [] = false
starts_with_space (c ∷ cs) = c == b' '

-- The answer to a method that is not one of the three.
unfoldable pub check_method : Bytes → Parsed (Unit {0})
check_method m =
    if not (is_supported_method_token m)
    then err (if is_known_unsupported_method m then unsupported_method else bad_request)
    else ok tt

-- The method's copy, and the ranges of the target and of the version.
pub record Fields : Type 0 where
  pub method : Bytes
  pub target_part : Bytes
  pub version_part : Bytes

module _ (alloc : Alloc) where
  -- The syntax of the line: three non-empty fields with one space between them.
  unfoldable pub request_fields : Bytes → Parsed Fields
  request_fields line = do
    require (not (ltb http_max_request_line (length line))) too_large
    require (not (is_empty line)) bad_request
    (before, after) ← or_fail (memchr b' ' line) bad_request
    require (not (is_empty before)) bad_request
    require (not (has_byte 0 before)) bad_request
    method ← dup_range alloc out_of_memory before
    require (method_token_is_well_formed method) bad_request
    require (not (is_empty after) && not (starts_with_space after)) bad_request
    (target_part, version_part) ← or_fail (memchr b' ' after) bad_request
    require (not (is_empty target_part)) bad_request
    require (not (is_empty version_part) && not (has_byte b' ' version_part)) bad_request
    require (not (has_byte 0 target_part) && not (has_byte 0 version_part)) bad_request
    ok (record { method = method; target_part = target_part; version_part = version_part })

  -- Whether the fields are supported, and the request that they start.
  unfoldable pub start_request : Request → Fields → Parsed Request
  start_request request fields = do
    check_method fields.method
    target ← dup_range alloc out_of_memory fields.target_part
    version ← dup_range alloc out_of_memory fields.version_part
    check_version version
    ok (record request {
      method = http_method_from_string fields.method;
      target = some target;
      version = some version;
    })

  unfoldable pub parse_request_line : Bytes → Request → Parsed Request
  parse_request_line line request = do fields ← request_fields line; start_request request fields
