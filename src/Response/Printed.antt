-- ===== src/Response/Printed.antt =====
-- What a serialised response is: the wire form of its headers and of those that are added to them.
use cinder_http.Prelude.{
  none, ℕ, ◌+◌, ◌-◌, ◌<◌, ◌≡◌, refl, ap, sym, ◌∙◌, Bool, true, false, ◌&&◌, List, [], ◌∷◌, ◌++◌,
  ◌==◌, leb, if◌then◌else◌, not, some, arith, length, append_assoc, subst, length-append,
}
use cinder_http.Text.{Bytes, codes, Alloc, has_byte, header_name_equal}
use cinder_http.Text.Letters.{same_name, header_name_equal-same_name}
use cinder_http.Decimal.{format_decimal}
use cinder_http.Request.{Header}
use cinder_http.Parser.Terminator.{http_find_header_terminator}
use cinder_http.Parser.Terminator.First.{find_terminator-append}
use cinder_http.Parser.RoundTrip.{print_headers, header_line, FitLines}
use cinder_http.Parser.RoundTrip.Frame.{find_terminator-print_headers}
use cinder_http.Response.{Response, response_has_header}
use cinder_http.Response.Serialize.{
  crlf, phrase_of, status_line, length_hdr, server_hdr, connection_hdr, need_server,
  need_connection, need_content_length, headers_total, headers_text, given_if, head_total,
  head_text, http_response_serialize_headers,
}

-- A header that is added where the response has none of that name.
abbrev pub added_if : Bool → Bytes → Bytes → List Header
added_if true name value = record { name = name; value = value } ∷ []
added_if false name value = []

-- No header has that name, in whatever case.
unfoldable pub lacks : Bytes → List Header → Bool
lacks name [] = true
lacks name (h ∷ hs) = not (same_name h.name name) && lacks name hs

-- Server and Content-Length where the response has none; Connection, unless it is suppressed.
abbrev pub added_headers : Response → List Header
added_headers r =
    added_if (lacks (codes "Server") r.headers) (codes "Server") (codes "CinderHTTP/1.0")
    ++ (added_if (lacks (codes "Connection") r.headers && not r.suppress_auto_connection_close)
          (codes "Connection") (codes "close")
        ++ added_if (lacks (codes "Content-Length") r.headers) (codes "Content-Length")
            (format_decimal r.body_length))

response_has_header-lacks :
    (hs : List Header) (name : Bytes) → not (response_has_header hs name) ≡ lacks name hs
unfolding response_has_header lacks
response_has_header-lacks [] name = refl
response_has_header-lacks (h ∷ hs) name =
    go (header_name_equal h.name name) (header_name_equal-same_name h.name name)
      (response_has_header-lacks hs name)
  where
    go :
        (b : Bool)
        → b ≡ same_name h.name name
        → not (response_has_header hs name) ≡ lacks name hs
        → not (if b then true else response_has_header hs name)
          ≡ (not (same_name h.name name) && lacks name hs)
    go true e more = rw (sym e) refl
    go false e more = rw (sym e) more

-- Those that the code adds.
abbrev pub needed_headers : Response → List Header
needed_headers r =
    added_if (need_server r) (codes "Server") (codes "CinderHTTP/1.0")
    ++ (added_if (need_connection r) (codes "Connection") (codes "close")
        ++ added_if (need_content_length r) (codes "Content-Length") (format_decimal r.body_length))

pub needed_headers-added : (r : Response) → needed_headers r ≡ added_headers r
needed_headers-added r =
    let length_value = format_decimal r.body_length in
    let suppressed = r.suppress_auto_connection_close in
    ap
      (λ b.
        added_if b (codes "Server") (codes "CinderHTTP/1.0")
        ++ (added_if (need_connection r) (codes "Connection") (codes "close")
            ++ added_if (need_content_length r) (codes "Content-Length") length_value))
      (response_has_header-lacks r.headers (codes "Server"))
    ∙ ap
        (λ b.
          added_if (lacks (codes "Server") r.headers) (codes "Server") (codes "CinderHTTP/1.0")
          ++ (added_if (b && not suppressed) (codes "Connection") (codes "close")
              ++ added_if (need_content_length r) (codes "Content-Length") length_value))
        (response_has_header-lacks r.headers (codes "Connection"))
    ∙ ap
        (λ b.
          added_if (lacks (codes "Server") r.headers) (codes "Server") (codes "CinderHTTP/1.0")
          ++ (added_if (lacks (codes "Connection") r.headers && not suppressed) (codes "Connection")
                (codes "close")
              ++ added_if b (codes "Content-Length") length_value))
        (response_has_header-lacks r.headers (codes "Content-Length"))

abbrev pub status_text : Response → Bytes
status_text r =
    codes "HTTP/1.1 "
    ++ (format_decimal r.status_code ++ b' ' ∷ phrase_of r.status_code r.reason_phrase)

-- The wire form: the status line, every header with its line end, and the empty line.
abbrev pub print_response : Response → Bytes
print_response r = status_text r ++ 13 ∷ 10 ∷ (print_headers (r.headers ++ added_headers r) ++ crlf)

headers_text-print_headers :
    (hs more : List Header) (rest : Bytes)
    → headers_text hs ++ (print_headers more ++ rest) ≡ print_headers (hs ++ more) ++ rest
unfolding headers_text print_headers
headers_text-print_headers [] more rest = refl
headers_text-print_headers (h ∷ hs) more rest =
    append_assoc h.name (b':' ∷ b' ' ∷ (h.value ++ 13 ∷ 10 ∷ headers_text hs))
      (print_headers more ++ rest)
    ∙ ap (λ t. h.name ++ b':' ∷ b' ' ∷ t)
        (append_assoc h.value (13 ∷ 10 ∷ headers_text hs) (print_headers more ++ rest)
          ∙ ap (λ t. h.value ++ 13 ∷ 10 ∷ t) (headers_text-print_headers hs more rest))
    ∙ sym (
        append_assoc h.name (b':' ∷ b' ' ∷ h.value)
          (13 ∷ 10 ∷ (print_headers (hs ++ more) ++ rest)))
    ∙ sym (append_assoc (header_line h) (13 ∷ 10 ∷ print_headers (hs ++ more)) rest)

length-headers_text : (hs : List Header) → length (headers_text hs) ≡ headers_total hs
unfolding headers_text headers_total
length-headers_text [] = refl
length-headers_text (h ∷ hs) = omega (
  arith,
  length-append h.name (b':' ∷ b' ' ∷ (h.value ++ 13 ∷ 10 ∷ headers_text hs)),
  length-append h.value (13 ∷ 10 ∷ headers_text hs),
  length-headers_text hs,
)

length-given_if :
    (b : Bool) (text : Bytes) → length (given_if b text) ≡ (if b then length text else 0)
length-given_if true text = refl
length-given_if false text = refl

given_if-print_headers :
    (b : Bool) (name value rest : Bytes) (text : Bytes)
    → text ≡ header_line (record { name = name; value = value }) ++ crlf
    → (more : List Header)
    → given_if b text ++ (print_headers more ++ rest)
      ≡ print_headers (added_if b name value ++ more) ++ rest
unfolding print_headers
given_if-print_headers true name value rest text e more =
    ap (λ t. t ++ (print_headers more ++ rest)) e
    ∙ append_assoc (header_line (record { name = name; value = value })) crlf
        (print_headers more ++ rest)
    ∙ sym (
        append_assoc (header_line (record { name = name; value = value }))
          (13 ∷ 10 ∷ print_headers more) rest)
given_if-print_headers false name value rest text e more = refl

given_if-last :
    (b : Bool) (name value : Bytes) (text : Bytes)
    → text ≡ header_line (record { name = name; value = value }) ++ crlf
    → given_if b text ++ crlf ≡ print_headers (added_if b name value) ++ crlf
unfolding print_headers
given_if-last true name value text e = ap (λ t. t ++ crlf) e
given_if-last false name value text e = refl

status_line-status_text :
    (r : Response) (rest : Bytes) → status_line r ++ rest ≡ status_text r ++ 13 ∷ 10 ∷ rest
status_line-status_text r rest =
    let code = format_decimal r.status_code in
    let phrase = phrase_of r.status_code r.reason_phrase in
    let split : (code ++ b' ' ∷ (phrase ++ crlf)) ++ rest
        ≡ (code ++ b' ' ∷ phrase) ++ 13 ∷ 10 ∷ rest =
      append_assoc code (b' ' ∷ (phrase ++ crlf)) rest
      ∙ ap (λ t. code ++ b' ' ∷ t) (append_assoc phrase crlf rest)
      ∙ sym (append_assoc code (b' ' ∷ phrase) (13 ∷ 10 ∷ rest)) in
    ap (λ t. codes "HTTP/1.1 " ++ t) split

added_text :
    (r : Response)
    → given_if (need_server r) server_hdr
        ++ (given_if (need_connection r) connection_hdr
            ++ (given_if (need_content_length r) (length_hdr r) ++ crlf))
      ≡ print_headers (needed_headers r) ++ crlf
added_text r =
    let last =
      added_if (need_content_length r) (codes "Content-Length") (format_decimal r.body_length) in
    let last_two = added_if (need_connection r) (codes "Connection") (codes "close") ++ last in
    ap
      (λ t.
        given_if (need_server r) server_hdr ++ (given_if (need_connection r) connection_hdr ++ t))
      (given_if-last (need_content_length r) (codes "Content-Length") (format_decimal r.body_length)
        (length_hdr r) refl)
    ∙ ap (λ t. given_if (need_server r) server_hdr ++ t)
        (given_if-print_headers (need_connection r) (codes "Connection") (codes "close") crlf
          connection_hdr refl last)
    ∙ given_if-print_headers (need_server r) (codes "Server") (codes "CinderHTTP/1.0") crlf
        server_hdr refl last_two

head_text-print_response : (r : Response) → head_text r ≡ print_response r
head_text-print_response r =
    ap (λ t. status_line r ++ (headers_text r.headers ++ t))
      (added_text r ∙ ap (λ hs. print_headers hs ++ crlf) (needed_headers-added r))
    ∙ ap (λ t. status_line r ++ t) (headers_text-print_headers r.headers (added_headers r) crlf)
    ∙ status_line-status_text r (print_headers (r.headers ++ added_headers r) ++ crlf)

length-head_text : (r : Response) → length (head_text r) ≡ head_total r
length-head_text r = omega (
  arith,
  length-append (status_line r) (
      headers_text r.headers
      ++ (given_if (need_server r) server_hdr
          ++ (given_if (need_connection r) connection_hdr
              ++ (given_if (need_content_length r) (length_hdr r) ++ crlf)))),
  length-append (headers_text r.headers) (
      given_if (need_server r) server_hdr
      ++ (given_if (need_connection r) connection_hdr
          ++ (given_if (need_content_length r) (length_hdr r) ++ crlf))),
  length-append (given_if (need_server r) server_hdr) (
      given_if (need_connection r) connection_hdr
      ++ (given_if (need_content_length r) (length_hdr r) ++ crlf)),
  length-append (given_if (need_connection r) connection_hdr)
      (given_if (need_content_length r) (length_hdr r) ++ crlf),
  length-append (given_if (need_content_length r) (length_hdr r)) crlf,
  length-headers_text r.headers,
  length-given_if (need_server r) server_hdr,
  length-given_if (need_connection r) connection_hdr,
  length-given_if (need_content_length r) (length_hdr r),
)

pub serialize_headers-print_response :
    (alloc : Alloc) (r : Response)
    → ((n : ℕ) → alloc n ≡ true)
    → length (status_line r) < 128
    → length (length_hdr r) < 64
    → http_response_serialize_headers alloc r ≡ some (print_response r)
unfolding http_response_serialize_headers
serialize_headers-print_response alloc r granted short short' =
    let same : (length (head_text r) == head_total r) ≡ true = ground (arith, length-head_text r) in
    let fits : leb 128 (length (status_line r)) ≡ false = ground (arith, short) in
    let fits' : leb 64 (length (length_hdr r)) ≡ false = ground (arith, short') in
    rw fits
      (rw fits' (rw (granted (head_total r + 1)) (rw same (ap some (head_text-print_response r)))))

print_response-terminator :
    (r : Response) (body : Bytes)
    → has_byte 13 (status_text r) ≡ false
    → FitLines (r.headers ++ added_headers r)
    → http_find_header_terminator (print_response r ++ body) ≡ some (length (print_response r) - 4)
print_response-terminator r body cr fit =
    let hs = r.headers ++ added_headers r in
    let split : print_response r ++ body
        ≡ status_text r ++ 13 ∷ 10 ∷ (print_headers hs ++ 13 ∷ 10 ∷ body) =
      append_assoc (status_text r) (13 ∷ 10 ∷ (print_headers hs ++ crlf)) body
      ∙ ap (λ t. status_text r ++ 13 ∷ 10 ∷ t) (append_assoc (print_headers hs) crlf body) in
    ap http_find_header_terminator split
    ∙ find_terminator-append (status_text r) (13 ∷ 10 ∷ (print_headers hs ++ 13 ∷ 10 ∷ body)) 0 cr
    ∙ find_terminator-print_headers hs body (0 + length (status_text r)) fit
    ∙ ap some (
        omega (
          arith,
          length-append (status_text r) (13 ∷ 10 ∷ (print_headers hs ++ crlf)),
          length-append (print_headers hs) crlf,
        ))

serialized-text :
    (alloc : Alloc) (r : Response) {text : Bytes}
    → http_response_serialize_headers alloc r ≡ some text
    → text ≡ print_response r
unfolding http_response_serialize_headers
serialized-text alloc r {text} h =
    go (leb 128 (length (status_line r))) (leb 64 (length (length_hdr r)))
      (alloc (head_total r + 1)) (length (head_text r) == head_total r) h
    ∙ head_text-print_response r
  where
    go :
        (a b c d : Bool)
        → (if a
            then none
            else if b
            then none
            else if not c
            then none
            else if not d
            then none
            else some (head_text r))
          ≡ some text
        → text ≡ head_text r
    go true b c d e = cc
    go false true c d e = cc
    go false false false d e = cc
    go false false true false e = cc
    go false false true true e = cc

-- No header can end the head early: when every header fits a line and the status line has no
-- carriage return, the first empty line of what is sent is the end of the serialised head, so that
-- the body starts where the server says.
pub serialize_headers-terminator :
    (alloc : Alloc) (r : Response) (text body : Bytes)
    → http_response_serialize_headers alloc r ≡ some text
    → has_byte 13 (status_text r) ≡ false
    → FitLines (r.headers ++ added_headers r)
    → http_find_header_terminator (text ++ body) ≡ some (length text - 4)
serialize_headers-terminator alloc r text body h cr fit =
    subst (λ t. http_find_header_terminator (t ++ body) ≡ some (length t - 4))
      (sym (serialized-text alloc r h)) (print_response-terminator r body cr fit)
