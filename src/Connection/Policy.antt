-- ===== src/Connection/Policy.antt =====
-- What a client is told by the Connection header: `http_response_apply_connection_policy` of
-- src/http_connection.c together with the serialisation in src/http_response.c.
use cinder_http.Prelude.{
  ap, sym, ℕ, suc, ◌+◌, ◌≡◌, refl, ◌∙◌, Bool, true, false, not, List, [], ◌∷◌, ◌++◌, if◌then◌else◌,
  Option, some, arith,
}
use cinder_http.Text.{Bytes, codes, Alloc, header_name_equal, ascii_tolower}
use cinder_http.Decimal.{format_decimal}
use cinder_http.Request.{Header, find_header}
use cinder_http.Parser.Message.{count_headers}
use cinder_http.Response.{
  Response, response_has_header, http_response_set_header, http_response_remove_header,
}
use cinder_http.Response.Headers.{http_response_set_header_lem, http_response_remove_header-Removes}
use cinder_http.Response.Serialize.{need_connection, need_server, need_content_length}
use cinder_http.Response.Printed.{added_if, added_headers, needed_headers, needed_headers-added}
use cinder_http.Connection.{connection, is_http_1_0, http_response_apply_connection_policy}

pub response_has_header-count :
    (name : Bytes) (hs : List Header) {n : ℕ}
    → count_headers name hs ≡ suc n
    → response_has_header hs name ≡ true
unfolding response_has_header count_headers
response_has_header-count name [] e = absurd (omega arith)
response_has_header-count name (h ∷ hs) {n} e =
    ground (arith, response_has_header-count name hs {n = n})

pub count_headers-concat :
    (name : Bytes) (xs ys : List Header)
    → count_headers name (xs ++ ys) ≡ count_headers name xs + count_headers name ys
unfolding count_headers
count_headers-concat name [] ys = omega arith
count_headers-concat name (x ∷ xs) ys = omega (arith, count_headers-concat name xs ys)

find_header-concat :
    (name : Bytes) (xs ys : List Header) {v : Bytes}
    → find_header name xs ≡ some v
    → find_header name (xs ++ ys) ≡ some v
unfolding find_header
find_header-concat name [] ys e = absurd (cc)
find_header-concat name (x ∷ xs) ys {v} e = ground (arith, find_header-concat name xs ys {v = v})

-- The headers that are added, without the one at issue.
no_connection_added :
    (server length : Bool) (digits : Bytes)
    → count_headers connection (
        added_if server (codes "Server") (codes "CinderHTTP/1.0")
        ++ (added_if false (codes "Connection") (codes "close")
            ++ added_if length (codes "Content-Length") digits))
      ≡ 0
unfolding count_headers header_name_equal ascii_tolower
no_connection_added true true digits = refl
no_connection_added true false digits = refl
no_connection_added false true digits = refl
no_connection_added false false digits = refl

abbrev pub sent_headers : Response → List Header
sent_headers r = r.headers ++ added_headers r

sent_count :
    (r : Response)
    → need_connection r ≡ false
    → count_headers connection (sent_headers r) ≡ count_headers connection r.headers
sent_count r e =
    let none_needed : count_headers connection (needed_headers r) ≡ 0 = rw e (
      no_connection_added (need_server r) (need_content_length r) (format_decimal r.body_length)) in
    let none_added : count_headers connection (added_headers r) ≡ 0 =
      ap (count_headers connection) (sym (needed_headers-added r)) ∙ none_needed in
    omega (arith, count_headers-concat connection r.headers (added_headers r))

-- A response is sent with exactly one Connection header, of that value.
abbrev pub Tells : Bytes → Response → Type 0
Tells value r =
    (count_headers connection (sent_headers r) ≡ 1)
    × (find_header connection (sent_headers r) ≡ some value)

pub one-Tells :
    (r : Response) (value : Bytes)
    → count_headers connection r.headers ≡ 1
    → find_header connection r.headers ≡ some value
    → Tells value r
one-Tells r value one found =
    let there = response_has_header-count connection r.headers {n = 0} one in
    let not_needed : need_connection r ≡ false = rw there refl in
    (sent_count r not_needed ∙ one, find_header-concat connection r.headers (added_headers r) found)

set-connection-Tells :
    (alloc : Alloc) (r : Response) (value : Bytes)
    → ((n : ℕ) → alloc n ≡ true)
    → let (set, r') = http_response_set_header alloc r connection value in
      (set ≡ true) × Tells value r'
set-connection-Tells alloc r value granted =
    let (set, one, found) = http_response_set_header_lem alloc r connection value granted in
    (set, one-Tells (http_response_set_header alloc r connection value).1 value one found)

-- The response of the branch for HTTP/1.1 is sent without a Connection header.
pub removed_header-untold :
    (r : Response)
    → let r' : Response = record (http_response_remove_header r connection).0 {
      suppress_auto_connection_close = true;
    } in
      count_headers connection (sent_headers r') ≡ 0
removed_header-untold r =
    let removed = http_response_remove_header-Removes r connection (λ h. false) (λ h e. refl) in
    let r' : Response = record (http_response_remove_header r connection).0 {
      suppress_auto_connection_close = true;
    } in
    let not_needed : need_connection r' ≡ false = ground arith in
    sent_count r' not_needed ∙ removed.none_left

-- With the allocations granted, the policy makes the response say what the server is going to do:
-- when it closes the connection, exactly one Connection header is sent, with "close"; when it keeps
-- an HTTP/1.0 connection open, exactly one, with "keep-alive"; else none, which is how HTTP/1.1 says
-- that the connection persists. Headers that the handler had set do not get in the way.
pub apply_connection_policy-Tells :
    (alloc : Alloc) (r : Response) (keep_alive : Bool) (version : Option Bytes)
    → ((n : ℕ) → alloc n ≡ true)
    → let (applied, r') = http_response_apply_connection_policy alloc r keep_alive version in
      (applied ≡ true)
      × (if not keep_alive
          then Tells (codes "close") r'
          else if is_http_1_0 version
          then Tells (codes "keep-alive") r'
          else (count_headers connection (sent_headers r') ≡ 0))
unfolding http_response_apply_connection_policy
apply_connection_policy-Tells alloc r false version granted =
    set-connection-Tells alloc (record r { suppress_auto_connection_close = false }) (codes "close")
      granted
apply_connection_policy-Tells alloc r true version granted = go (is_http_1_0 version)
  where
    go :
        (b : Bool)
        → let (applied, r') : Bool × Response =
            if b
            then http_response_set_header alloc
                (record r { suppress_auto_connection_close = false })
                connection
                (codes "keep-alive")
            else (
              true,
              record (http_response_remove_header r connection).0 {
                suppress_auto_connection_close = true;
              },
            ) in
          (applied ≡ true)
          × (if b
              then Tells (codes "keep-alive") r'
              else (count_headers connection (sent_headers r') ≡ 0))
    go true =
        set-connection-Tells alloc (record r { suppress_auto_connection_close = false })
          (codes "keep-alive") granted
    go false = (refl, removed_header-untold r)
