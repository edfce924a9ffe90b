-- ===== src/Router/Bodies.antt =====
-- No response of src/router.c holds a descriptor.
use cinder_http.Prelude.{
  ℕ, zero, suc, refl, Bool, true, false, not, List, [], ◌∷◌, leb, if◌then◌else◌, Option, none, some,
  length, is_empty,
}
use cinder_http.Text.{Bytes, codes, Alloc}
use cinder_http.Request.{Request, http_request_get_header}
use cinder_http.Response.{
  Response, http_response_init, http_response_set_status, http_response_set_body_copy,
  http_response_add_header, build_with_type, set_body_owned,
}
use cinder_http.Response.Bodies.{
  HoldsNone, add_header-HoldsNone, then_header-HoldsNone, build_with_type-HoldsNone,
}
use cinder_http.Stats.{Stats, server_stats_snapshot}
use cinder_http.Router.{
  path_equals, method_compatible, Handler, health, echo, stats, Route, routes, RouterResult,
  handle_echo, handle_stats, handle, build_api_error, answer_unmatched, as_result, dispatch_from,
  router_dispatch, echoed_type, stats_json,
}

set_body_copy-HoldsNone :
    (alloc : Alloc) (r : Response) (body : Bytes) (n : ℕ)
    → HoldsNone r
    → HoldsNone (http_response_set_body_copy alloc r (some body) n).1
unfolding http_response_set_body_copy
set_body_copy-HoldsNone alloc r body zero h = refl
set_body_copy-HoldsNone alloc r body (suc n) h = go (alloc (suc n))
  where
    go :
        (b : Bool)
        → let p : Bool × Response =
            if b then (true, set_body_owned r (some body) (suc n)) else (false, r) in
          HoldsNone p.1
    go true = refl
    go false = h

handle-HoldsNone :
    (alloc : Alloc) (h : Handler) (s : Option Stats) (request : Request) (r : Response)
    → HoldsNone r
    → HoldsNone (handle alloc h s request r).1
unfolding handle handle_echo handle_stats
handle-HoldsNone alloc health s request r e = build_with_type-HoldsNone alloc _ r 200 _
handle-HoldsNone alloc echo s request r e =
    let started = http_response_set_status http_response_init 200 in
    then_header-HoldsNone alloc
      (http_response_set_body_copy alloc started (some request.body) (length request.body))
      (codes "Content-Type") (echoed_type (http_request_get_header request (codes "Content-Type")))
      (set_body_copy-HoldsNone alloc started request.body (length request.body) refl)
handle-HoldsNone alloc stats none request r e = e
handle-HoldsNone alloc stats (some s) request r e =
    go (leb 512 (length (stats_json (server_stats_snapshot s))))
  where
    go :
        (b : Bool)
        → let p : Bool × Response =
            if b
            then (false, r)
            else build_with_type alloc
                (codes "application/json")
                r
                200
                (stats_json (server_stats_snapshot s)) in
          HoldsNone p.1
    go true = e
    go false = build_with_type-HoldsNone alloc (codes "application/json") r 200 _

build_api_error-HoldsNone :
    (alloc : Alloc) (r : Response) (status : ℕ) (json allow : Bytes)
    → HoldsNone (build_api_error alloc r status json allow).1
unfolding build_api_error
build_api_error-HoldsNone alloc r status json allow =
    go (build_with_type alloc (codes "application/json") r status json)
      (build_with_type-HoldsNone alloc (codes "application/json") r status json) (is_empty allow)
  where
    go :
        (p : Bool × Response)
        → HoldsNone p.1
        → (no_allow : Bool)
        → let (built, filled) = p in
          HoldsNone
            (if not built
              then (false, filled)
              else if no_allow
              then (true, filled)
              else http_response_add_header alloc filled (codes "Allow") allow).1
    go (false, r') h no_allow = h
    go (true, r') h true = h
    go (true, r') h false = add_header-HoldsNone alloc r' (codes "Allow") allow h

as_result-HoldsNone : (p : Bool × Response) → HoldsNone p.1 → HoldsNone (as_result p).1
as_result-HoldsNone (true, r) h = h
as_result-HoldsNone (false, r) h = h

dispatch_from-HoldsNone :
    (alloc : Alloc) (rs : List Route) (matched : Option Bytes) (s : Option Stats)
    (request : Request) (target : Bytes) (r : Response)
    → HoldsNone r
    → HoldsNone (dispatch_from alloc rs matched s request target r).1
unfolding dispatch_from answer_unmatched
dispatch_from-HoldsNone alloc [] (some path) s request target r h =
    as_result-HoldsNone _ (build_api_error-HoldsNone alloc r 405 _ _)
dispatch_from-HoldsNone alloc [] none s request target r h =
    as_result-HoldsNone _ (build_api_error-HoldsNone alloc r 404 _ [])
dispatch_from-HoldsNone alloc (x ∷ rs) matched s request target r h =
    go (path_equals target x.path) (method_compatible x.method request.method)
      (dispatch_from-HoldsNone alloc rs matched s request target r h)
      (dispatch_from-HoldsNone alloc rs (some x.path) s request target r h)
  where
    go :
        (path_taken method_taken : Bool)
        → HoldsNone (dispatch_from alloc rs matched s request target r).1
        → HoldsNone (dispatch_from alloc rs (some x.path) s request target r).1
        → let d : RouterResult × Response = elim path_taken [
          | false ↦ dispatch_from alloc rs matched s request target r
          | true ↦ elim method_taken [
            | true ↦ as_result (handle alloc x.handler s request r)
            | false ↦ dispatch_from alloc rs (some x.path) s request target r
          ]
        ] in
          HoldsNone d.1
    go false m k l = k
    go true true k l = as_result-HoldsNone _ (handle-HoldsNone alloc x.handler s request r h)
    go true false k l = l

-- Whatever the router answers, no descriptor hangs on the response.
pub router_dispatch-HoldsNone :
    (alloc : Alloc) (s : Option Stats) (request : Request) (r : Response)
    → HoldsNone r
    → HoldsNone (router_dispatch alloc s request r).1
unfolding router_dispatch
router_dispatch-HoldsNone alloc s request r h = go request.target
  where
    go :
        (t : Option Bytes) → HoldsNone (router_dispatch alloc s (record request { target = t }) r).1
    go none = h
    go (some target) =
        dispatch_from-HoldsNone alloc routes none s (record request { target = some target }) target
          r h
