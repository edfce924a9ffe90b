-- ===== src/Response.antt =====
-- src/http_response.c and include/http_response.h: the response and what builds it. A function
-- that answers 0 or -1 returns `true` or `false` beside the response as it leaves it.
pub mod Headers
pub mod Serialize
pub mod Printed
pub mod Transmit
pub mod Bodies
use cinder_http.Prelude.{
  ℕ, zero, suc, ◌+◌, ◌*◌, Bool, true, false, not, ◌&&◌, List, [], ◌∷◌, ◌++◌, ◌==◌, if◌then◌else◌,
  Option, none, some, ℤ, pos, negsuc, is_negative, length,
}
use cinder_http.Text.{Bytes, codes, Alloc, header_name_equal}
use cinder_http.Request.{Header}
use cinder_http.Parser.HeaderLine.{sizeof_header}

-- `HTTP_BODY_MEMORY` with the bytes of its buffer, if it has one, and whether it is owned;
-- `HTTP_BODY_FILE` with its descriptor.
pub data Body : Type 0 where
  no_body : Body
  memory : Option Bytes → Body
  file : ℤ → Body

-- `http_response_t`. The reason phrase is a static literal or null.
pub record Response : Type 0 where
  pub status_code : ℕ
  pub reason_phrase : Option Bytes
  pub headers : List Header
  pub body : Body
  pub body_length : ℕ
  pub suppress_auto_connection_close : Bool

unfoldable pub http_reason_phrase : ℕ → Bytes
http_reason_phrase status_code =
    if status_code == 200
    then codes "OK"
    else if status_code == 201
    then codes "Created"
    else if status_code == 204
    then codes "No Content"
    else if status_code == 400
    then codes "Bad Request"
    else if status_code == 403
    then codes "Forbidden"
    else if status_code == 404
    then codes "Not Found"
    else if status_code == 405
    then codes "Method Not Allowed"
    else if status_code == 408
    then codes "Request Timeout"
    else if status_code == 413
    then codes "Payload Too Large"
    else if status_code == 500
    then codes "Internal Server Error"
    else if status_code == 501
    then codes "Not Implemented"
    else if status_code == 505
    then codes "HTTP Version Not Supported"
    else codes "Unknown"

abbrev pub http_response_init : Response
http_response_init = record {
  status_code = 500;
  reason_phrase = some (http_reason_phrase 500);
  headers = [];
  body = no_body;
  body_length = 0;
  suppress_auto_connection_close = false;
}

-- The descriptor that `clear_body`, and so `http_response_destroy`, closes.
abbrev pub closed_by_clear : Body → Option ℤ
closed_by_clear (file fd) = if is_negative fd then none else some fd
closed_by_clear _ = none

abbrev pub of_option : Option ℤ → List ℤ
of_option (some fd) = fd ∷ []
of_option none = []

-- The descriptors that `http_response_destroy` closes.
abbrev pub closed_by_destroy : Response → List ℤ
closed_by_destroy r = of_option (closed_by_clear r.body)

abbrev pub clear_body : Response → Response
clear_body r = record r { body = no_body; body_length = 0 }

-- What `http_response_destroy` leaves; it closes `closed_by_clear` of the body.
abbrev pub http_response_destroy : Response → Response
http_response_destroy r = http_response_init

abbrev pub http_response_set_status : Response → ℕ → Response
http_response_set_status r status_code = record r {
  status_code = status_code;
  reason_phrase = some (http_reason_phrase status_code);
}

abbrev pub swap_in : Header → List Header → List Header
swap_in h [] = h ∷ []
swap_in h (l ∷ ls) = l ∷ h ∷ ls

-- What stands in the place of a removed header and behind it: the last header has moved in.
unfoldable pub last_first : List Header → List Header
last_first [] = []
last_first (h ∷ hs) = swap_in h (last_first hs)

-- The loop of `http_response_remove_header` from index `i` on: the headers that are left, and how
-- many were removed. Each round keeps or removes one header, so `header_count` rounds are enough.
unfoldable pub remove_from : ℕ → Bytes → List Header → List Header × ℕ
remove_from zero name hs = (hs, 0)
remove_from (suc f) name [] = ([], 0)
remove_from (suc f) name (h ∷ hs) = elim (header_name_equal h.name name) [
  | true ↦ let (left, removed) = remove_from f name (last_first hs) in (left, removed + 1)
  | false ↦ let (left, removed) = remove_from f name hs in (h ∷ left, removed)
]

unfoldable pub http_response_remove_header : Response → Bytes → Response × ℕ
http_response_remove_header r name =
    let (left, removed) = remove_from (length r.headers) name r.headers in
    (record r { headers = left }, removed)

abbrev pub set_body_owned : Response → Option Bytes → ℕ → Response
set_body_owned r none zero = clear_body r
set_body_owned r buffer n = record r { body = memory buffer; body_length = n }

module _ (alloc : Alloc) where
  -- The two `dup_string` calls and the `realloc`.
  unfoldable pub http_response_add_header : Response → Bytes → Bytes → Bool × Response
  http_response_add_header r name value =
      if alloc (length name + 1)
        && alloc (length value + 1)
        && alloc ((length r.headers + 1) * sizeof_header)
      then (true, record r { headers = r.headers ++ record { name = name; value = value } ∷ [] })
      else (false, r)

  unfoldable pub http_response_set_header : Response → Bytes → Bytes → Bool × Response
  http_response_set_header r name value =
      http_response_add_header (http_response_remove_header r name).0 name value

  unfoldable pub http_response_set_body_text : Response → Bytes → Bool × Response
  http_response_set_body_text r text =
      if alloc (length text + 1)
      then (true, set_body_owned r (some text) (length text))
      else (false, r)

  -- The second argument is `body`, with `length` bytes, or null.
  unfoldable pub http_response_set_body_copy : Response → Option Bytes → ℕ → Bool × Response
  http_response_set_body_copy r body zero = (true, set_body_owned r none 0)
  http_response_set_body_copy r none (suc n) = (false, r)
  http_response_set_body_copy r (some bytes) (suc n) =
      if alloc (suc n) then (true, set_body_owned r (some bytes) (suc n)) else (false, r)

  -- `http_response_build_text` and `http_response_build_json`, which differ in the media type.
  unfoldable pub build_with_type : Bytes → Response → ℕ → Bytes → Bool × Response
  build_with_type media_type r status_code text =
      let started = http_response_set_status http_response_init status_code in
      let (copied, filled) = http_response_set_body_text started text in
      if not copied
      then (false, filled)
      else http_response_add_header filled (codes "Content-Type") media_type

  abbrev pub http_response_build_text : Response → ℕ → Bytes → Bool × Response
  http_response_build_text = build_with_type (codes "text/plain; charset=utf-8")

  abbrev pub http_response_build_json : Response → ℕ → Bytes → Bool × Response
  http_response_build_json = build_with_type (codes "application/json")

-- `off_t` is signed; a size that `SIZE_MAX` cannot hold does not occur where both have 64 bits.
unfoldable pub http_response_set_file_body : Response → ℤ → ℤ → Bool × Response
http_response_set_file_body r fd (negsuc n) = (false, r)
http_response_set_file_body r fd (pos size) =
    if is_negative fd then (false, r) else (true, record r { body = file fd; body_length = size })

unfoldable pub response_has_header : List Header → Bytes → Bool
response_has_header [] name = false
response_has_header (h ∷ hs) name =
    if header_name_equal h.name name then true else response_has_header hs name
