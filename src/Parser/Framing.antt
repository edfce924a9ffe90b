-- ===== src/Parser/Framing.antt =====
-- `http_inspect_message_framing` of src/http_parser.c. The text is cut at its line feeds once; the
-- loop over the lines is the source's, with its tests in their order.
pub mod LineLaws
use cinder_http.Prelude.{
  ℕ, ◌-◌, Bool, true, false, not, ◌&&◌, ◌||◌, List, [], ◌∷◌, ◌==◌, leb, if◌then◌else◌, Option, none,
  some, ok, err, ◌>>=◌, ◌>>◌, require, or_fail, length, drop, is_empty,
}
use cinder_http.Text.{
  Bytes, codes, Alloc, header_name_equal, strcmp_eq, memchr, strstr, skip_ows, trim_ows_end,
  dup_range,
}
use cinder_http.Parser.Errors.{
  Parsed, bad_request, invalid_content_length, unsupported_transfer_encoding, out_of_memory,
}
use cinder_http.Parser.Terminator.{crlf_crlf}
use cinder_http.Parser.ContentLength.{http_parse_content_length_value}

-- The lines that end in a line feed, without it, and the bytes behind the last line feed.
pub data Lines : Type 0 where
  tail : Bytes → Lines
  line : Bytes → Lines → Lines

abbrev pub push : ℕ → Lines → Lines
push c (tail t) = tail (c ∷ t)
push c (line l ls) = line (c ∷ l) ls

-- The repeated `memchr (cursor, '\n', end - cursor)`.
unfoldable pub split_lf : Bytes → Lines
split_lf [] = tail []
split_lf (c ∷ cs) = let rest = split_lf cs in if c == 10 then line [] rest else push c rest

abbrev pub cons_line : ℕ → Option Bytes → Option Bytes
cons_line c none = none
cons_line c (some l) = some (c ∷ l)

-- `line_end == cursor || line_end[-1] != '\r'` fails; the line is what precedes the `\r`.
unfoldable pub strip_cr : Bytes → Option Bytes
strip_cr [] = none
strip_cr (c ∷ []) = if c == 13 then some [] else none
strip_cr (c ∷ d ∷ cs) = cons_line c (strip_cr (d ∷ cs))

-- The locals of the loop.
pub record Framing : Type 0 where
  pub saw_content_length : Bool
  pub content_length : ℕ
  pub saw_chunked : Bool

abbrev pub no_framing : Framing
no_framing = record { saw_content_length = false; content_length = 0; saw_chunked = false }

abbrev pub transfer_encoding : Bytes
transfer_encoding = codes "Transfer-Encoding"

abbrev pub content_length_name : Bytes
content_length_name = codes "Content-Length"

abbrev pub chunked : Bytes
chunked = codes "chunked"

inspect_transfer_encoding : Framing → Bytes → Parsed Framing
inspect_transfer_encoding st value =
    if header_name_equal value chunked || strstr chunked value
    then ok (record st { saw_chunked = true })
    else err unsupported_transfer_encoding

inspect_content_length : Framing → Bytes → Parsed Framing
inspect_content_length st value = do
  parsed ← http_parse_content_length_value value
  require (not st.saw_content_length) invalid_content_length
  ok (record st { saw_content_length = true; content_length = parsed })

unfoldable pub inspect_field : Framing → Bytes → Bytes → Parsed Framing
unfolding inspect_transfer_encoding inspect_content_length
inspect_field st name value =
    if header_name_equal name transfer_encoding
    then inspect_transfer_encoding st value
    else if header_name_equal name content_length_name
    then inspect_content_length st value
    else ok st

abbrev pub body_length_of : Framing → Parsed ℕ
body_length_of st =
    if st.saw_chunked
    then err unsupported_transfer_encoding
    else ok (if st.saw_content_length then st.content_length else 0)

module _ (alloc : Alloc) where
  -- One line without its line end.
  unfoldable pub inspect_line : Framing → Bytes → Parsed Framing
  inspect_line st l = do
    (before, after) ← or_fail (memchr b':' l) bad_request
    require (not (is_empty before)) bad_request
    name ← dup_range alloc out_of_memory before
    value ← dup_range alloc out_of_memory (trim_ows_end (skip_ows after))
    inspect_field st name value

  unfoldable pub inspect_lines : Framing → Lines → Parsed Framing
  inspect_lines st (tail []) = ok st
  inspect_lines st (tail (c ∷ cs)) = err bad_request
  inspect_lines st (line l ls) = elim (strcmp_eq l (13 ∷ [])) [
    | true ↦ ok st
    | false ↦ do
      content ← or_fail (strip_cr l) bad_request
      st' ← inspect_line st content
      inspect_lines st' ls
  ]

  -- The request line is only skipped.
  unfoldable pub inspect_after_request_line : Lines → Parsed Framing
  inspect_after_request_line (tail t) = err bad_request
  inspect_after_request_line (line l ls) = do
    skipped ← or_fail (strip_cr l) bad_request
    inspect_lines no_framing ls

  -- The body length that the header section `header` announces.
  unfoldable pub http_inspect_message_framing : Bytes → Parsed ℕ
  http_inspect_message_framing header = do
    require (leb 4 (length header)) bad_request
    require (strcmp_eq (drop (length header - 4) header) crlf_crlf) bad_request
    st ← inspect_after_request_line (split_lf header)
    body_length_of st
