-- ===== src/Request.antt =====
-- src/http_request.c and include/http_request.h: the parsed request and its header lookup.
use cinder_http.Prelude.{List, [], ◌∷◌, if◌then◌else◌, Option, none, some}
use cinder_http.Text.{Bytes, codes, header_name_equal, strcmp_eq}

pub data Method : Type 0 where
  get head post unknown : Method

pub record Header : Type 0 where
  pub name : Bytes
  pub value : Bytes

-- `http_request_t`: `none` is a null pointer, `header_count` and `body_length` are the lengths.
pub record Request : Type 0 where
  pub method : Method
  pub target : Option Bytes
  pub version : Option Bytes
  pub headers : List Header
  pub body : Bytes

abbrev pub http_request_init : Request
http_request_init = record {
  method = unknown;
  target = none;
  version = none;
  headers = [];
  body = [];
}

unfoldable pub http_method_to_string : Method → Bytes
http_method_to_string get = codes "GET"
http_method_to_string head = codes "HEAD"
http_method_to_string post = codes "POST"
http_method_to_string unknown = codes "UNKNOWN"

unfoldable pub http_method_from_string : Bytes → Method
http_method_from_string s =
    if strcmp_eq s (codes "GET")
    then get
    else if strcmp_eq s (codes "HEAD")
    then head
    else if strcmp_eq s (codes "POST")
    then post
    else unknown

-- The loop of `http_request_get_header`: the value of the first header with that name.
unfoldable pub find_header : Bytes → List Header → Option Bytes
find_header name [] = none
find_header name (h ∷ hs) =
    if header_name_equal h.name name then some h.value else find_header name hs

abbrev pub http_request_get_header : Request → Bytes → Option Bytes
http_request_get_header r name = find_header name r.headers
