-- ===== src/Parser/HeaderLine.antt =====
-- `append_header` and `parse_header_line` of src/http_parser.c.
use cinder_http.Prelude.{
  ℕ, ◌+◌, ◌*◌, Bool, not, ◌||◌, [], ◌∷◌, ◌++◌, ◌==◌, ltb, ok, ◌>>=◌, ◌>>◌, require, or_fail, length,
  all, is_empty,
}
use cinder_http.Limits.{http_max_headers}
use cinder_http.Text.{Bytes, Alloc, memchr, has_byte, skip_ows, trim_ows_end, dup_range}
use cinder_http.Request.{Header, Request}
use cinder_http.Parser.Errors.{Parsed, bad_request, too_many_headers, out_of_memory}

-- `sizeof (http_header_t)`: two pointers.
abbrev pub sizeof_header : ℕ
sizeof_header = 16

abbrev pub is_name_char : ℕ → Bool
is_name_char c = not (c == b' ' || c == b'\t' || c == 0)

module _ (alloc : Alloc) where
  unfoldable pub append_header : Request → Bytes → Bytes → Parsed Request
  append_header request name value = do
    require (ltb (length request.headers) http_max_headers) too_many_headers
    require (alloc ((length request.headers + 1) * sizeof_header)) out_of_memory
    ok (record request { headers = request.headers ++ record { name = name; value = value } ∷ [] })

  -- The copies of the name and of the value.
  unfoldable pub header_fields : Bytes → Parsed Header
  header_fields line = do
    require (not (is_empty line)) bad_request
    (before, after) ← or_fail (memchr b':' line) bad_request
    require (not (is_empty before)) bad_request
    require (all is_name_char before) bad_request
    name ← dup_range alloc out_of_memory before
    let trimmed = trim_ows_end (skip_ows after)
    require (not (has_byte 0 trimmed)) bad_request
    value ← dup_range alloc out_of_memory trimmed
    ok (record { name = name; value = value })

  unfoldable pub parse_header_line : Bytes → Request → Parsed Request
  parse_header_line line request = do h ← header_fields line; append_header request h.name h.value
