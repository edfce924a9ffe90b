-- ===== src/Router/Dispatch.antt =====
-- What `router_dispatch` of src/router.c answers.
use cinder_http.Prelude.{
  ℕ, zero, suc, ◌+◌, ◌*◌, ◌≡◌, refl, ap, sym, subst, ◌∙◌, Bool, true, false, not, ◌&&◌, List, [],
  ◌∷◌, ◌++◌, if◌then◌else◌, Option, none, some, is_empty, length, leb,
}
use cinder_http.Text.{Bytes, codes, Alloc}
use cinder_http.Parser.HeaderLine.{sizeof_header}
use cinder_http.Request.{Method, Request, http_request_get_header}
use cinder_http.Response.{
  Response, http_response_init, http_response_set_status, http_response_set_body_copy,
  http_response_set_body_text, http_response_add_header, build_with_type, set_body_owned,
}
use cinder_http.Stats.{Stats, server_stats_snapshot}
use cinder_http.Router.{
  path_equals, method_compatible, Handler, health, echo, stats, Route, routes, RouterResult,
  handled, router_error, handle_echo, handle_stats, handle, build_api_error, answer_unmatched,
  as_result, dispatch_from, dispatch_target, router_dispatch, allow_or_none, build_allow_header,
  echoed_type, stats_json,
}

-- What comes of a table of routes: 200 if one takes path and method, 405 if one takes the path, else
-- 404.
unfoldable pub table_status : List Route → Bool → Bytes → Method → ℕ
table_status [] met target method = if met then 405 else 404
table_status (r ∷ rs) met target method =
    let with_path = table_status rs true target method in
    let without = table_status rs met target method in
    if not (path_equals target r.path)
    then without
    else if method_compatible r.method method
    then 200
    else with_path

-- A function that builds a response leaves that status, if it answers 0.
abbrev pub Keeps : ℕ → Bool × Response → Type 0
Keeps status (false, r) = Unit {0}
Keeps status (true, r) = r.status_code ≡ status

pub add_header-Keeps :
    (alloc : Alloc) (r : Response) (name value : Bytes)
    → Keeps r.status_code (http_response_add_header alloc r name value)
unfolding http_response_add_header
add_header-Keeps alloc r name value = go (
    alloc (length name + 1)
    && alloc (length value + 1)
    && alloc ((length r.headers + 1) * sizeof_header))
  where
    go :
        (b : Bool)
        → Keeps r.status_code (
            if b
            then (
              true,
              record r { headers = r.headers ++ record { name = name; value = value } ∷ [] },
            )
            else (false, r))
    go true = refl
    go false = tt

pub build_with_type-Keeps :
    (alloc : Alloc) (t : Bytes) (r : Response) (status : ℕ) (text : Bytes)
    → Keeps status (build_with_type alloc t r status text)
unfolding build_with_type http_response_set_body_text
build_with_type-Keeps alloc t r status text = go (alloc (length text + 1))
  where
    go :
        (b : Bool)
        → Keeps status (
            let (copied, filled) : Bool × Response =
              if b
              then (
                true,
                set_body_owned
                    (http_response_set_status http_response_init status)
                    (some text)
                    (length text),
              )
              else (false, http_response_set_status http_response_init status) in
            if not copied
            then (false, filled)
            else http_response_add_header alloc filled (codes "Content-Type") t)
    go true =
        add_header-Keeps alloc
          (set_body_owned (http_response_set_status http_response_init status) (some text)
            (length text))
          (codes "Content-Type") t
    go false = tt

set_body_copy-Keeps :
    (alloc : Alloc) (r : Response) (body : Bytes) (n : ℕ)
    → Keeps r.status_code (http_response_set_body_copy alloc r (some body) n)
unfolding http_response_set_body_copy
set_body_copy-Keeps alloc r body zero = refl
set_body_copy-Keeps alloc r body (suc n) = go (alloc (suc n))
  where
    go :
        (b : Bool)
        → Keeps r.status_code
            (if b then (true, set_body_owned r (some body) (suc n)) else (false, r))
    go true = refl
    go false = tt

handle_echo-Keeps : (alloc : Alloc) (request : Request) → Keeps 200 (handle_echo alloc request)
unfolding handle_echo
handle_echo-Keeps alloc request =
    go (http_response_set_body_copy alloc started (some request.body) (length request.body))
      (set_body_copy-Keeps alloc started request.body (length request.body))
  where
    started : Response
    started = http_response_set_status http_response_init 200

    type_of : Bytes
    type_of = echoed_type (http_request_get_header request (codes "Content-Type"))

    go :
        (p : Bool × Response)
        → Keeps 200 p
        → Keeps 200 (
            let (done, filled) = p in
            if not done
            then (false, filled)
            else http_response_add_header alloc filled (codes "Content-Type") type_of)
    go (false, filled) k = tt
    go (true, filled) k =
        subst (λ n. Keeps n (http_response_add_header alloc filled (codes "Content-Type") type_of))
          k (add_header-Keeps alloc filled (codes "Content-Type") type_of)

handle_stats-Keeps :
    (alloc : Alloc) (s : Option Stats) (r : Response) → Keeps 200 (handle_stats alloc s r)
unfolding handle_stats
handle_stats-Keeps alloc none r = tt
handle_stats-Keeps alloc (some s) r = go (leb 512 (length (stats_json (server_stats_snapshot s))))
  where
    go :
        (b : Bool)
        → Keeps 200 (
            if b
            then (false, r)
            else build_with_type alloc
                (codes "application/json")
                r
                200
                (stats_json (server_stats_snapshot s)))
    go true = tt
    go false =
        build_with_type-Keeps alloc (codes "application/json") r 200
          (stats_json (server_stats_snapshot s))

handle-Keeps :
    (alloc : Alloc) (h : Handler) (s : Option Stats) (request : Request) (r : Response)
    → Keeps 200 (handle alloc h s request r)
unfolding handle
handle-Keeps alloc health s request r =
    build_with_type-Keeps alloc (codes "application/json") r 200 (codes "{\"status\":\"ok\"}")
handle-Keeps alloc echo s request r = handle_echo-Keeps alloc request
handle-Keeps alloc stats s request r = handle_stats-Keeps alloc s r

build_api_error-Keeps :
    (alloc : Alloc) (r : Response) (status : ℕ) (text allow : Bytes)
    → Keeps status (build_api_error alloc r status text allow)
unfolding build_api_error
build_api_error-Keeps alloc r status text allow =
    go (build_with_type alloc (codes "application/json") r status text)
      (build_with_type-Keeps alloc (codes "application/json") r status text) (is_empty allow)
  where
    go :
        (p : Bool × Response)
        → Keeps status p
        → (b : Bool)
        → Keeps status (
            let (built, filled) = p in
            if not built
            then (false, filled)
            else if b
            then (true, filled)
            else http_response_add_header alloc filled (codes "Allow") allow)
    go (false, filled) k b = tt
    go (true, filled) k true = k
    go (true, filled) k false =
        subst (λ n. Keeps n (http_response_add_header alloc filled (codes "Allow") allow)) k
          (add_header-Keeps alloc filled (codes "Allow") allow)

abbrev KeepsHandled : ℕ → RouterResult × Response → Type 0
KeepsHandled status (handled, r) = r.status_code ≡ status
KeepsHandled status (router_error, r) = Unit {0}

as_result-KeepsHandled :
    (status : ℕ) (p : Bool × Response) → Keeps status p → KeepsHandled status (as_result p)
as_result-KeepsHandled status (true, r) k = k
as_result-KeepsHandled status (false, r) k = tt

abbrev is_met : Option Bytes → Bool
is_met none = false
is_met (some path) = true

answer_unmatched-KeepsHandled :
    (alloc : Alloc) (r : Response) (matched : Option Bytes)
    → KeepsHandled (if is_met matched then 405 else 404) (answer_unmatched alloc r matched)
unfolding answer_unmatched
answer_unmatched-KeepsHandled alloc r (some path) = as_result-KeepsHandled 405 _ (
    build_api_error-Keeps alloc r 405 (codes "{\"error\":\"method not allowed\"}")
      (allow_or_none (build_allow_header path)))
answer_unmatched-KeepsHandled alloc r none =
    as_result-KeepsHandled 404 _
      (build_api_error-Keeps alloc r 404 (codes "{\"error\":\"not found\"}") [])

dispatch_from-KeepsHandled :
    (alloc : Alloc) (rs : List Route) (matched : Option Bytes) (s : Option Stats)
    (request : Request) (target : Bytes) (r : Response)
    → KeepsHandled
        (table_status rs (is_met matched) target request.method)
        (dispatch_from alloc rs matched s request target r)
unfolding dispatch_from table_status
dispatch_from-KeepsHandled alloc [] matched s request target r =
    answer_unmatched-KeepsHandled alloc r matched
dispatch_from-KeepsHandled alloc (x ∷ rs) matched s request target r =
    go (path_equals target x.path) (method_compatible x.method request.method)
      (dispatch_from-KeepsHandled alloc rs matched s request target r)
      (dispatch_from-KeepsHandled alloc rs (some x.path) s request target r)
  where
    without : ℕ
    without = table_status rs (is_met matched) target request.method

    with_path : ℕ
    with_path = table_status rs true target request.method

    go :
        (path_taken method_taken : Bool)
        → KeepsHandled without (dispatch_from alloc rs matched s request target r)
        → KeepsHandled with_path (dispatch_from alloc rs (some x.path) s request target r)
        → KeepsHandled
            (if not path_taken then without else if method_taken then 200 else with_path)
            (elim path_taken [
              | false ↦ dispatch_from alloc rs matched s request target r
              | true ↦ elim method_taken [
                | true ↦ as_result (handle alloc x.handler s request r)
                | false ↦ dispatch_from alloc rs (some x.path) s request target r
              ]
            ])
    go false m k l = k
    go true true k l = as_result-KeepsHandled 200 _ (handle-Keeps alloc x.handler s request r)
    go true false k l = l

pub router_dispatch-table :
    (alloc : Alloc) (s : Option Stats) (request : Request) (target : Bytes) (response r : Response)
    → request.target ≡ some target
    → router_dispatch alloc s request response ≡ (handled, r)
    → r.status_code ≡ table_status routes false target request.method
unfolding router_dispatch
router_dispatch-table alloc s request target response r e h =
    let dispatched : dispatch_from alloc routes none s request target response ≡ (handled, r) =
      sym (ap (λ t. dispatch_target alloc t s request response) e) ∙ h in
    subst (KeepsHandled (table_status routes false target request.method)) dispatched
      (dispatch_from-KeepsHandled alloc routes none s request target response)
