-- ===== src/Client/Named.antt =====
-- The status that a reply of src/client_handler.c names is that of its response.
use cinder_http.Prelude.{
  ℕ, ◌≡◌, refl, sym, subst, Bool, true, false, List, [], ◌==◌, ==→eq, if◌then◌else◌, Option, none,
  some, ok, err, ℤ,
}
use cinder_http.Text.{Bytes}
use cinder_http.Request.{Request}
use cinder_http.Parser.Errors.{Parsed}
use cinder_http.Response.{Response, http_response_init}
use cinder_http.Router.{RouterResult, handled, router_error, router_is_api_request, router_dispatch}
use cinder_http.Router.Dispatch.{Keeps, build_with_type-Keeps}
use cinder_http.StaticFiles.Files.{
  Filled, not_found_request, static_files_serve, static_files_build_error,
  static_files_build_not_found,
}
use cinder_http.StaticFiles.Statuses.{
  Serves, static_files_serve-Serves, build_error-Keeps, build_not_found-Keeps,
}
use cinder_http.Config.{Config}
use cinder_http.Client.{Visit, answering, paging, texting, Reply}
use cinder_http.Client.Status.{status_for_static_result, error_heading_for_status}
use cinder_http.Client.Pages.{
  built, error_page_for, or_text, build_static_error_response, after_serve, handle_static_get_head,
}
use cinder_http.Client.Round.{
  close_if_required, requires_close, reply_to, after_routing, dispatch_request, after_parse,
  is_get_or_head,
}

-- A status, if there is one, is the response's.
abbrev pub Names : Option ℕ → Response → Type 0
Names none r = Unit {0}
Names (some status) r = r.status_code ≡ status

module _ (document_root : Bytes) (v : Visit) where
  built-Names :
      (status : ℕ) (closed : List ℤ) (p : Bool × Response)
      → Keeps status p
      → let b = built status closed p in Names b.status b.response
  built-Names status closed (true, r) k = k
  built-Names status closed (false, r) k = tt

  error_page_for-Keeps : (status : ℕ) → Keeps status (error_page_for document_root v status).0
  unfolding error_page_for
  error_page_for-Keeps status = go (status == 404) refl
    where
      go :
          (b : Bool)
          → status == 404 ≡ b
          → let q : (Bool × Response) × List ℤ =
              if b
              then (
                static_files_build_not_found (v.alloc paging) v.fs document_root http_response_init,
                (static_files_serve (v.alloc paging) v.fs document_root not_found_request).1,
              )
              else (
                static_files_build_error
                    (v.alloc paging)
                    http_response_init
                    status
                    (error_heading_for_status status),
                [],
              ) in
            Keeps status q.0
      go true e =
          subst
            (λ n.
              Keeps n (
                static_files_build_not_found (v.alloc paging) v.fs document_root
                  http_response_init))
            (sym (==→eq status 404 e)) (build_not_found-Keeps (v.alloc paging) v.fs document_root)
      go false e = build_error-Keeps (v.alloc paging) status (error_heading_for_status status)

  or_text-Names :
      (status : ℕ) (closed : List ℤ) (q : (Bool × Response) × List ℤ)
      → Keeps status q.0
      → let b = or_text document_root v status closed q in Names b.status b.response
  or_text-Names status closed ((true, page), by_page) k = k
  or_text-Names status closed ((false, page), by_page) k = built-Names status _ _ (
      build_with_type-Keeps (v.alloc texting) _ http_response_init status
        (error_heading_for_status status))

  pub build_static_error_response-Names :
      (r : Response) (status : ℕ)
      → let b = build_static_error_response document_root v r status in Names b.status b.response
  unfolding build_static_error_response
  build_static_error_response-Names r status =
      or_text-Names status _ (error_page_for document_root v status) (error_page_for-Keeps status)

  handle_static-Names :
      (request : Request)
      → let b = handle_static_get_head document_root v request in Names b.status b.response
  unfolding handle_static_get_head
  handle_static-Names request =
      go (static_files_serve (v.alloc answering) v.fs document_root request)
        (static_files_serve-Serves (v.alloc answering) v.fs document_root request)
    where
      go :
          (f : Filled)
          → Serves 200 f.0
          → let b = after_serve document_root v f in Names b.status b.response
      go (ok r, closed) e = e
      go (err x, closed) e =
          build_static_error_response-Names http_response_init
            (status_for_static_result {A = Response} (err x))

module _ (c : Config) (v : Visit) where
  dispatch_request-Names :
      (request : Request) → let p = dispatch_request c v request in Names p.status p.response
  unfolding dispatch_request
  dispatch_request-Names request =
      go (router_is_api_request request) (is_get_or_head request.method)
        (router_dispatch (v.alloc answering) (some v.stats) request http_response_init)
    where
      routed :
          (d : RouterResult × Response)
          → let p = after_routing c v request d in Names p.status p.response
      routed (handled, r) = refl
      routed (router_error, r) = build_static_error_response-Names c.document_root v r 500

      go :
          (api file : Bool) (d : RouterResult × Response)
          → let p : Reply =
              if api
              then after_routing c v request d
              else if file
              then reply_to request false (handle_static_get_head c.document_root v request)
              else reply_to request false
                  (build_static_error_response c.document_root v http_response_init 405) in
            Names p.status p.response
      go true file d = routed d
      go false true d = handle_static-Names c.document_root v request
      go false false d = build_static_error_response-Names c.document_root v http_response_init 405

  close_if_required-Names :
      (p : Reply)
      → Names p.status p.response
      → let q = close_if_required p in Names q.status q.response
  unfolding close_if_required
  close_if_required-Names p n = go (requires_close p.status)
    where
      go :
          (b : Bool)
          → let q : Reply = if b then record p { force_close = true; keep_alive = false } else p in
            Names q.status q.response
      go true = n
      go false = n

  pub after_parse-Names :
      (m : Parsed Request) → let p = after_parse c v m in Names p.status p.response
  after_parse-Names (ok request) =
      close_if_required-Names (dispatch_request c v request) (dispatch_request-Names request)
  after_parse-Names (err e) =
      build_static_error_response-Names c.document_root v http_response_init _
