-- ===== src/Connection/Denied.antt =====
-- `http_response_apply_connection_policy` of src/http_connection.c when allocations may be denied.
use cinder_http.Prelude.{
  subst, ◌+◌, ◌*◌, ◌≡◌, refl, ◌∙◌, Bool, true, false, ◌&&◌, List, [], ◌∷◌, ◌++◌, if◌then◌else◌,
  Option, some, length, arith,
}
use cinder_http.Text.{Bytes, codes, Alloc, header_name_equal, ascii_tolower}
use cinder_http.Decimal.{format_decimal}
use cinder_http.Request.{Header, find_header}
use cinder_http.Parser.HeaderLine.{sizeof_header}
use cinder_http.Parser.Message.{count_headers}
use cinder_http.Response.{
  Response, response_has_header, http_response_add_header, http_response_set_header,
  http_response_remove_header,
}
use cinder_http.Response.Headers.{
  http_response_remove_header-Removes, count_headers-append, find_header-append,
  header_name_equal_refl,
}
use cinder_http.Response.Serialize.{need_connection, need_server, need_content_length}
use cinder_http.Response.Printed.{added_if, added_headers, needed_headers, needed_headers-added}
use cinder_http.Connection.{connection, is_http_1_0, http_response_apply_connection_policy}
use cinder_http.Connection.Policy.{
  count_headers-concat, sent_headers, Tells, one-Tells, removed_header-untold,
}

no_header-response_has_header :
    (name : Bytes) (hs : List Header)
    → count_headers name hs ≡ 0
    → response_has_header hs name ≡ false
unfolding response_has_header count_headers
no_header-response_has_header name [] e = refl
no_header-response_has_header name (h ∷ hs) e =
    ground (arith, no_header-response_has_header name hs)

no_header-find_header :
    (name : Bytes) (hs more : List Header)
    → count_headers name hs ≡ 0
    → find_header name (hs ++ more) ≡ find_header name more
unfolding find_header count_headers
no_header-find_header name [] more e = refl
no_header-find_header name (h ∷ hs) more e = ground (arith, no_header-find_header name hs more)

-- The headers that are added when one of them is "Connection: close".
abbrev added_with_close : Bool → Bool → Bytes → List Header
added_with_close server length digits =
    added_if server (codes "Server") (codes "CinderHTTP/1.0")
    ++ (added_if true (codes "Connection") (codes "close")
        ++ added_if length (codes "Content-Length") digits)

close_added :
    (server length : Bool) (digits : Bytes)
    → (count_headers connection (added_with_close server length digits) ≡ 1)
      × (find_header connection (added_with_close server length digits) ≡ some (codes "close"))
unfolding count_headers find_header header_name_equal ascii_tolower
close_added true true digits = (refl, refl)
close_added true false digits = (refl, refl)
close_added false true digits = (refl, refl)
close_added false false digits = (refl, refl)

-- A response without a Connection header is sent with "close", unless that is suppressed.
none-Tells :
    (r : Response)
    → count_headers connection r.headers ≡ 0
    → r.suppress_auto_connection_close ≡ false
    → Tells (codes "close") r
none-Tells r none_there shown =
    let needed : need_connection r ≡ true =
      rw (no_header-response_has_header connection r.headers none_there, shown) refl in
    let closes : (count_headers connection (needed_headers r) ≡ 1)
        × (find_header connection (needed_headers r) ≡ some (codes "close")) =
      rw needed
        (close_added (need_server r) (need_content_length r) (format_decimal r.body_length)) in
    let (one, found) =
      subst
        (λ hs.
          (count_headers connection hs ≡ 1) × (find_header connection hs ≡ some (codes "close")))
        (needed_headers-added r) closes in
    (
      omega (arith, count_headers-concat connection r.headers (added_headers r)),
      no_header-find_header connection r.headers (added_headers r) none_there ∙ found,
    )

-- The header is in, or none is and the flag is as it was.
abbrev Settled : Bytes → Bool → Bool × Response → Type 0
Settled value flag (true, r) = Tells value r
Settled value flag (false, r) =
    (count_headers connection r.headers ≡ 0) × (r.suppress_auto_connection_close ≡ flag)

set_header-Settled :
    (alloc : Alloc) (r : Response) (value : Bytes)
    → Settled value r.suppress_auto_connection_close
        (http_response_set_header alloc r connection value)
unfolding http_response_set_header http_response_add_header http_response_remove_header
set_header-Settled alloc r value = go (
    alloc (length connection + 1)
    && alloc (length value + 1)
    && alloc ((length cleared.headers + 1) * sizeof_header))
  where
    cleared : Response
    cleared = (http_response_remove_header r connection).0

    removed : count_headers connection cleared.headers ≡ 0
    removed =
        (http_response_remove_header-Removes r connection (λ h. false) (λ h e. refl)).none_left

    set : Header
    set = record { name = connection; value = value }

    go :
        (b : Bool)
        → Settled value r.suppress_auto_connection_close (
            if b
            then (true, record cleared { headers = cleared.headers ++ set ∷ [] })
            else (false, cleared))
    go true =
        one-Tells (record cleared { headers = cleared.headers ++ set ∷ [] }) value
          (count_headers-append connection cleared.headers set
            ∙ rw (header_name_equal_refl connection) (omega (arith, removed)))
          (find_header-append connection cleared.headers set removed
            (header_name_equal_refl connection))
    go false = (removed, refl)

-- With `false`, the response says "close" whether the policy succeeds or not.
pub closing_policy-Tells :
    (alloc : Alloc) (r : Response) (version : Option Bytes)
    → Tells (codes "close") (http_response_apply_connection_policy alloc r false version).1
unfolding http_response_apply_connection_policy
closing_policy-Tells alloc r version =
    go
      (http_response_set_header alloc (record r { suppress_auto_connection_close = false })
        connection (codes "close"))
      (set_header-Settled alloc (record r { suppress_auto_connection_close = false })
        (codes "close"))
  where
    go : (p : Bool × Response) → Settled (codes "close") false p → Tells (codes "close") p.1
    go (true, r') s = s
    go (false, r') (none_there, shown) = none-Tells r' none_there shown

-- How a client of that version is told that the connection stays open.
abbrev pub Keeps : Option Bytes → Response → Type 0
Keeps version r =
    if is_http_1_0 version
    then Tells (codes "keep-alive") r
    else (count_headers connection (sent_headers r) ≡ 0)

abbrev pub WhenApplied : Option Bytes → Bool × Response → Type 0
WhenApplied version (true, r) = Keeps version r
WhenApplied version (false, r) = Unit {0}

-- With `true`, the response says that the connection stays whenever the policy succeeds.
pub keeping_policy-WhenApplied :
    (alloc : Alloc) (r : Response) (version : Option Bytes)
    → WhenApplied version (http_response_apply_connection_policy alloc r true version)
unfolding http_response_apply_connection_policy
keeping_policy-WhenApplied alloc r version = go (is_http_1_0 version) refl
  where
    shown : Response
    shown = record r { suppress_auto_connection_close = false }

    kept :
        (p : Bool × Response)
        → is_http_1_0 version ≡ true
        → Settled (codes "keep-alive") false p
        → WhenApplied version p
    kept (true, r') e s = rw e s
    kept (false, r') e s = tt

    go :
        (b : Bool)
        → is_http_1_0 version ≡ b
        → WhenApplied version (
            if b then http_response_set_header alloc shown connection (codes "keep-alive") else (
              true,
              record (http_response_remove_header r connection).0 {
                suppress_auto_connection_close = true;
              },
            ))
    go true e = kept _ e (set_header-Settled alloc shown (codes "keep-alive"))
    go false e = rw e (removed_header-untold r)
