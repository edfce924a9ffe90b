-- ===== src/Response/Serialize.antt =====
-- The serialisation of a response in src/http_response.c.
use cinder_http.Prelude.{
  ℕ, ◌+◌, Bool, true, false, not, ◌&&◌, List, [], ◌∷◌, ◌++◌, ◌==◌, leb, ltb, if◌then◌else◌, Option,
  none, some, length, take,
}
use mathlib.Core.Option
use cinder_http.Text.{Bytes, codes, Alloc}
use cinder_http.Decimal.{format_decimal}
use cinder_http.Request.{Header}
use cinder_http.Response.{
  Response, Body, no_body, memory, file, http_reason_phrase, response_has_header,
}

abbrev pub crlf : Bytes
crlf = 13 ∷ 10 ∷ []

abbrev pub phrase_of : ℕ → Option Bytes → Bytes
phrase_of status_code (some phrase) = phrase
phrase_of status_code none = http_reason_phrase status_code

abbrev pub status_line : Response → Bytes
status_line r =
    codes "HTTP/1.1 "
    ++ (format_decimal r.status_code ++ b' ' ∷ (phrase_of r.status_code r.reason_phrase ++ crlf))

abbrev pub length_hdr : Response → Bytes
length_hdr r = codes "Content-Length: " ++ (format_decimal r.body_length ++ crlf)

abbrev pub server_hdr : Bytes
server_hdr = codes "Server: CinderHTTP/1.0\r\n"

abbrev pub connection_hdr : Bytes
connection_hdr = codes "Connection: close\r\n"

abbrev pub need_server : Response → Bool
need_server r = not (response_has_header r.headers (codes "Server"))

abbrev pub need_connection : Response → Bool
need_connection r =
    not (response_has_header r.headers (codes "Connection")) && not r.suppress_auto_connection_close

abbrev pub need_content_length : Response → Bool
need_content_length r = not (response_has_header r.headers (codes "Content-Length"))

-- The loop that adds up `total`.
unfoldable pub headers_total : List Header → ℕ
headers_total [] = 0
headers_total (h ∷ hs) = length h.name + 2 + (length h.value + 2) + headers_total hs

-- The loop that fills the buffer.
unfoldable pub headers_text : List Header → Bytes
headers_text [] = []
headers_text (h ∷ hs) = h.name ++ b':' ∷ b' ' ∷ (h.value ++ 13 ∷ 10 ∷ headers_text hs)

abbrev pub given_if : Bool → Bytes → Bytes
given_if true text = text
given_if false text = []

abbrev pub head_total : Response → ℕ
head_total r =
    length (status_line r)
    + headers_total r.headers
    + (if need_server r then length server_hdr else 0)
    + (if need_connection r then length connection_hdr else 0)
    + (if need_content_length r then length (length_hdr r) else 0)
    + 2

abbrev pub head_text : Response → Bytes
head_text r =
    status_line r
    ++ (headers_text r.headers
        ++ (given_if (need_server r) server_hdr
            ++ (given_if (need_connection r) connection_hdr
                ++ (given_if (need_content_length r) (length_hdr r) ++ crlf))))

-- The bytes of a body that is sent from memory.
abbrev pub memory_bytes : Body → Option Bytes
memory_bytes (memory buffer) = buffer
memory_bytes no_body = none
memory_bytes (file fd) = none

abbrev pub included_body : Bool → Response → Option Bytes
included_body omit_body r =
    if not omit_body && ltb 0 r.body_length
    then Option.map (take r.body_length) (memory_bytes r.body)
    else none

module _ (alloc : Alloc) where
  -- The buffer, if the function answers 0. The two lines go through buffers of 128 and of 64 bytes.
  unfoldable pub http_response_serialize_headers : Response → Option Bytes
  http_response_serialize_headers r =
      if leb 128 (length (status_line r))
      then none
      else if leb 64 (length (length_hdr r))
      then none
      else if not (alloc (head_total r + 1))
      then none
      else if not (length (head_text r) == head_total r)
      then none
      else some (head_text r)

  abbrev pub with_body : Option Bytes → Option Bytes → Option Bytes
  with_body none body = none
  with_body (some headers) none = some headers
  with_body (some headers) (some body) =
      if alloc (length headers + length body + 1) then some (headers ++ body) else none

  unfoldable pub http_response_serialize : Response → Bool → Option Bytes
  http_response_serialize r omit_body =
      with_body (http_response_serialize_headers r) (included_body omit_body r)
