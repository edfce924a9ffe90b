-- ===== src/Router.antt =====
-- src/router.c and include/router.h: the application's routes.
pub mod Paths
pub mod Dispatch
pub mod Statuses
pub mod Bodies
use cinder_http.Prelude.{
  ℕ, ◌+◌, ◌-◌, Bool, true, false, not, ◌&&◌, ◌||◌, List, [], ◌∷◌, ◌++◌, ◌==◌, leb, if◌then◌else◌,
  Option, none, some, length, is_empty,
}
use cinder_http.Text.{Bytes, codes, Alloc, strcmp_eq}
use cinder_http.Decimal.{format_decimal}
use cinder_http.Request.{Method, get, head, post, unknown, Request, http_request_get_header}
use cinder_http.Response.{
  Response, http_response_init, http_response_set_status, http_response_set_body_copy,
  http_response_add_header, http_response_build_json,
}
use cinder_http.Stats.{Stats, Counters, server_stats_snapshot}

-- The target up to its query against an exact path.
unfoldable pub path_equals : Bytes → Bytes → Bool
path_equals [] [] = true
path_equals [] (r ∷ rs) = false
path_equals (t ∷ ts) [] = t == b'?'
path_equals (t ∷ ts) (r ∷ rs) =
    let rest = path_equals ts rs in
    if t == b'?' then false else if not (t == r) then false else rest

-- The loop over the prefix in `path_has_api_prefix`.
unfoldable pub has_prefix : Bytes → Bytes → Bool
has_prefix target [] = true
has_prefix [] (p ∷ ps) = false
has_prefix (t ∷ ts) (p ∷ ps) =
    let rest = has_prefix ts ps in if t == b'?' || not (t == p) then false else rest

unfoldable pub path_has_api_prefix : Option Bytes → Bool
path_has_api_prefix none = false
path_has_api_prefix (some target) =
    if path_equals target (codes "/api") then true else has_prefix target (codes "/api/")

abbrev pub router_is_api_request : Request → Bool
router_is_api_request request = path_has_api_prefix request.target

unfoldable pub method_compatible : Method → Method → Bool
method_compatible get get = true
method_compatible get head = true
method_compatible head head = true
method_compatible post post = true
method_compatible unknown unknown = true
method_compatible _ _ = false

pub data Handler : Type 0 where
  health echo stats : Handler

pub record Route : Type 0 where
  pub method : Method
  pub path : Bytes
  pub handler : Handler

abbrev route : Method → Bytes → Handler → Route
route method path handler = record { method = method; path = path; handler = handler }

abbrev pub routes : List Route
routes =
    route get (codes "/api/health") health
    ∷ route post (codes "/api/echo") echo
    ∷ route get (codes "/api/stats") stats
    ∷ []

abbrev pub stats_json : Counters → Bytes
stats_json c =
    codes "{\"connections_accepted\":"
    ++ (format_decimal c.connections_accepted
        ++ (codes ",\"requests_total\":"
            ++ (format_decimal c.requests_total
                ++ (codes ",\"responses_2xx\":"
                    ++ (format_decimal c.responses_2xx
                        ++ (codes ",\"responses_4xx\":"
                            ++ (format_decimal c.responses_4xx
                                ++ (codes ",\"responses_5xx\":"
                                    ++ (format_decimal c.responses_5xx
                                        ++ (codes ",\"active_connections\":"
                                            ++ (format_decimal c.active_connections
                                                ++ codes "}")))))))))))

-- A missing or empty Content-Type is taken for plain bytes.
abbrev pub echoed_type : Option Bytes → Bytes
echoed_type none = codes "application/octet-stream"
echoed_type (some []) = codes "application/octet-stream"
echoed_type (some (c ∷ cs)) = c ∷ cs

pub data RouterResult : Type 0 where
  handled router_error : RouterResult

module _ (alloc : Alloc) where
  unfoldable pub handle_echo : Request → Bool × Response
  handle_echo request =
      let started = http_response_set_status http_response_init 200 in
      let (copied, filled) =
        http_response_set_body_copy alloc started (some request.body) (length request.body) in
      if not copied
      then (false, filled)
      else http_response_add_header alloc filled (codes "Content-Type")
          (echoed_type (http_request_get_header request (codes "Content-Type")))

  unfoldable pub handle_stats : Option Stats → Response → Bool × Response
  handle_stats none response = (false, response)
  handle_stats (some s) response =
      let json = stats_json (server_stats_snapshot s) in
      if leb 512 (length json)
      then (false, response)
      else http_response_build_json alloc response 200 json

  unfoldable pub handle : Handler → Option Stats → Request → Response → Bool × Response
  handle health s request response =
      http_response_build_json alloc response 200 (codes "{\"status\":\"ok\"}")
  handle echo s request response = handle_echo request
  handle stats s request response = handle_stats s response

  -- The last argument is the Allow header's value, empty if there is none.
  unfoldable pub build_api_error : Response → ℕ → Bytes → Bytes → Bool × Response
  build_api_error response status json_error allow =
      let (built, filled) = http_response_build_json alloc response status json_error in
      if not built
      then (false, filled)
      else if is_empty allow
      then (true, filled)
      else http_response_add_header alloc filled (codes "Allow") allow

abbrev has_method : Method → Method → Bool
has_method get get = true
has_method post post = true
has_method _ _ = false

-- The loop of `build_allow_header` for one of its two flags.
unfoldable pub any_route : Method → Bytes → List Route → Bool
any_route m path [] = false
any_route m path (r ∷ rs) = strcmp_eq r.path path && has_method m r.method || any_route m path rs

-- `snprintf` into what is left of the 64 bytes.
abbrev pub allow_post : Bool → Bytes → Option Bytes
allow_post false out = if is_empty out then none else some out
allow_post true out =
    let text = if is_empty out then codes "POST" else codes ", POST" in
    if leb (64 - length out) (length text) then none else some (out ++ text)

abbrev pub allow_get : Bool → Bool → Option Bytes
allow_get false has_post = allow_post has_post []
allow_get true has_post = allow_post has_post (codes "GET, HEAD")

unfoldable pub build_allow_header : Bytes → Option Bytes
build_allow_header path = allow_get (any_route get path routes) (any_route post path routes)

abbrev pub allow_or_none : Option Bytes → Bytes
allow_or_none none = []
allow_or_none (some allow) = allow

abbrev pub as_result : Bool × Response → RouterResult × Response
as_result (true, r) = (handled, r)
as_result (false, r) = (router_error, r)

module _ (alloc : Alloc) where
  -- What follows the loop, with the path that was met on the way.
  unfoldable pub answer_unmatched : Response → Option Bytes → RouterResult × Response
  answer_unmatched response (some path) = as_result (
      build_api_error alloc response 405 (codes "{\"error\":\"method not allowed\"}")
        (allow_or_none (build_allow_header path)))
  answer_unmatched response none =
      as_result (build_api_error alloc response 404 (codes "{\"error\":\"not found\"}") [])

  -- The loop of `router_dispatch` over the routes that are left.
  unfoldable pub dispatch_from :
      List Route
      → Option Bytes
      → Option Stats
      → Request
      → Bytes
      → Response
      → RouterResult × Response
  dispatch_from [] matched s request target response = answer_unmatched response matched
  dispatch_from (r ∷ rs) matched s request target response = elim (path_equals target r.path) [
    | false ↦ dispatch_from rs matched s request target response
    | true ↦ elim (method_compatible r.method request.method) [
      | true ↦ as_result (handle alloc r.handler s request response)
      | false ↦ dispatch_from rs (some r.path) s request target response
    ]
  ]

  abbrev pub dispatch_target :
      Option Bytes → Option Stats → Request → Response → RouterResult × Response
  dispatch_target none s request response = (router_error, response)
  dispatch_target (some target) s request response =
      dispatch_from routes none s request target response

  unfoldable pub router_dispatch : Option Stats → Request → Response → RouterResult × Response
  router_dispatch s request response = dispatch_target request.target s request response
