-- ===== src/Client/Opened.antt =====
-- The descriptors that a reply of src/client_handler.c opens, and where they are then.
use cinder_http.Prelude.{
  ℕ, ◌≡◌, refl, sym, ap, ◌∙◌, Bool, true, false, List, [], ◌++◌, ◌==◌, if◌then◌else◌, some, ok, err,
  ℤ, append_assoc, append-nil,
}
use cinder_http.Text.{Bytes}
use cinder_http.Request.{Request}
use cinder_http.Parser.Errors.{
  Parsed, ParseError, bad_request, unsupported_method, unsupported_version, too_large,
  too_many_headers, invalid_content_length, unsupported_transfer_encoding, out_of_memory,
}
use cinder_http.Response.{Response, http_response_init, closed_by_destroy}
use cinder_http.Response.Bodies.{build_with_type-HoldsNone}
use cinder_http.Router.{RouterResult, handled, router_error, router_is_api_request, router_dispatch}
use cinder_http.Router.Bodies.{router_dispatch-HoldsNone}
use cinder_http.StaticFiles.Errors.{Static}
use cinder_http.StaticFiles.Files.{
  Filled, not_found_request, static_files_serve, static_files_build_error,
  static_files_build_not_found,
}
use cinder_http.StaticFiles.Confined.{owned_by}
use cinder_http.StaticFiles.Descriptors.{
  opened_by_serve, static_files_serve-accounts, build_error-HoldsNone, build_not_found-accounts,
}
use cinder_http.Config.{Config}
use cinder_http.Client.{Visit, answering, paging, texting, Reply}
use cinder_http.Client.Status.{
  status_for_parse_result, status_for_static_result, error_heading_for_status,
}
use cinder_http.Client.Pages.{
  Built, built, error_page_for, or_text, build_static_error_response, after_serve,
  handle_static_get_head,
}
use cinder_http.Client.Round.{
  close_if_required, requires_close, reply_to, after_routing, dispatch_request, after_parse,
  is_get_or_head,
}

module _ (document_root : Bytes) (v : Visit) where
  -- For the page 404 alone a file is looked for.
  unfoldable pub opened_by_page : ℕ → List ℤ
  opened_by_page status =
      if status == 404
      then opened_by_serve (v.alloc paging) v.fs document_root not_found_request
      else []

  -- For a file and, when there is none to be served, for the page in its place.
  abbrev pub opened_by_static : Static Response → List ℤ
  opened_by_static (ok r) = []
  opened_by_static (err e) = opened_by_page (status_for_static_result {A = Response} (err e))

  unfoldable pub opened_by_request : Request → List ℤ
  opened_by_request request =
      if router_is_api_request request
      then []
      else if is_get_or_head request.method
      then opened_by_serve (v.alloc answering) v.fs document_root request
        ++ opened_by_static (static_files_serve (v.alloc answering) v.fs document_root request).0
      else []

  -- Closed already, or closed with the response.
  abbrev pub Balanced : Built → List ℤ → Type 0
  Balanced b opened = b.closed ++ closed_by_destroy b.response ≡ opened

  error_page_for-accounts :
      (status : ℕ)
      → let (page, closed) = error_page_for document_root v status in
        closed ++ closed_by_destroy page.1 ≡ opened_by_page status
  unfolding error_page_for opened_by_page
  error_page_for-accounts status = go (status == 404)
    where
      go :
          (b : Bool)
          → let q : (Bool × Response) × List ℤ =
              if b
              then (
                static_files_build_not_found (v.alloc paging) v.fs document_root http_response_init,
                (static_files_serve (v.alloc paging) v.fs document_root not_found_request).1,
              )
              else (
                static_files_build_error
                    (v.alloc paging)
                    http_response_init
                    status
                    (error_heading_for_status status),
                [],
              ) in
            q.1 ++ closed_by_destroy q.0.1 ≡ (
              if b
              then opened_by_serve (v.alloc paging) v.fs document_root not_found_request
              else [])
      go true = build_not_found-accounts (v.alloc paging) v.fs document_root
      go false = build_error-HoldsNone (v.alloc paging) status (error_heading_for_status status)

  built-Balanced :
      (status : ℕ) (closed : List ℤ) (p : Bool × Response)
      → closed_by_destroy p.1 ≡ []
      → Balanced (built status closed p) closed
  built-Balanced status closed (true, r) h = ap (λ t. closed ++ t) h ∙ append-nil closed
  built-Balanced status closed (false, r) h = ap (λ t. closed ++ t) h ∙ append-nil closed

  or_text-Balanced :
      (status : ℕ) (closed opened : List ℤ) (q : (Bool × Response) × List ℤ)
      → q.1 ++ closed_by_destroy q.0.1 ≡ opened
      → Balanced (or_text document_root v status closed q) (closed ++ opened)
  or_text-Balanced status closed opened ((true, page), by_page) e =
      append_assoc closed by_page (closed_by_destroy page) ∙ ap (λ t. closed ++ t) e
  or_text-Balanced status closed opened ((false, page), by_page) e =
      built-Balanced status (closed ++ (by_page ++ closed_by_destroy page)) _
        (build_with_type-HoldsNone (v.alloc texting) _ http_response_init status _)
      ∙ ap (λ t. closed ++ t) e

  pub build_static_error_response-Balanced :
      (r : Response) (status : ℕ)
      → Balanced
          (build_static_error_response document_root v r status)
          (closed_by_destroy r ++ opened_by_page status)
  unfolding build_static_error_response
  build_static_error_response-Balanced r status =
      or_text-Balanced status (closed_by_destroy r) (opened_by_page status)
        (error_page_for document_root v status) (error_page_for-accounts status)

  handle_static-Balanced :
      (request : Request)
      → Balanced (handle_static_get_head document_root v request) (
          opened_by_serve (v.alloc answering) v.fs document_root request
          ++ opened_by_static (static_files_serve (v.alloc answering) v.fs document_root request).0)
  unfolding handle_static_get_head
  handle_static-Balanced request =
      go (static_files_serve (v.alloc answering) v.fs document_root request)
        (static_files_serve-accounts (v.alloc answering) v.fs document_root request)
    where
      opened : List ℤ
      opened = opened_by_serve (v.alloc answering) v.fs document_root request

      go :
          (f : Filled)
          → f.1 ++ owned_by f.0 ≡ opened
          → Balanced (after_serve document_root v f) (opened ++ opened_by_static f.0)
      go (ok r, closed) e = e ∙ sym (append-nil opened)
      go (err x, closed) e =
          let status = status_for_static_result {A = Response} (err x) in
          let b = build_static_error_response document_root v http_response_init status in
          append_assoc closed b.closed (closed_by_destroy b.response)
          ∙ ap (λ t. closed ++ t) (build_static_error_response-Balanced http_response_init status)
          ∙ ap (λ t. t ++ opened_by_page status) (sym (append-nil closed) ∙ e)

abbrev pub ReplyBalanced : Reply → List ℤ → Type 0
ReplyBalanced p opened = p.closed ++ closed_by_destroy p.response ≡ opened

module _ (c : Config) (v : Visit) where
  dispatch_request-Balanced :
      (request : Request)
      → ReplyBalanced (dispatch_request c v request) (opened_by_request c.document_root v request)
  unfolding dispatch_request opened_by_request opened_by_page
  dispatch_request-Balanced request =
      go (router_is_api_request request) (is_get_or_head request.method)
        (router_dispatch (v.alloc answering) (some v.stats) request http_response_init)
        (router_dispatch-HoldsNone (v.alloc answering) (some v.stats) request http_response_init
          refl)
    where
      routed :
          (d : RouterResult × Response)
          → closed_by_destroy d.1 ≡ []
          → ReplyBalanced (after_routing c v request d) []
      routed (handled, r) h = h
      routed (router_error, r) h =
          build_static_error_response-Balanced c.document_root v r 500 ∙ ap (λ t. t ++ []) h

      go :
          (api file : Bool) (d : RouterResult × Response)
          → closed_by_destroy d.1 ≡ []
          → ReplyBalanced
              (if api
                then after_routing c v request d
                else if file
                then reply_to request false (handle_static_get_head c.document_root v request)
                else reply_to request false
                    (build_static_error_response c.document_root v http_response_init 405))
              (if api
                then []
                else if file
                then opened_by_serve (v.alloc answering) v.fs c.document_root request
                  ++ opened_by_static c.document_root v
                      (static_files_serve (v.alloc answering) v.fs c.document_root request).0
                else [])
      go true file d h = routed d h
      go false true d h = handle_static-Balanced c.document_root v request
      go false false d h =
          build_static_error_response-Balanced c.document_root v http_response_init 405

  close_if_required-Balanced :
      (p : Reply) (opened : List ℤ)
      → ReplyBalanced p opened
      → ReplyBalanced (close_if_required p) opened
  unfolding close_if_required
  close_if_required-Balanced p opened h = go (requires_close p.status)
    where
      go :
          (b : Bool)
          → ReplyBalanced
              (if b then record p { force_close = true; keep_alive = false } else p)
              opened
      go true = h
      go false = h

  abbrev pub opened_by_parsed : Parsed Request → List ℤ
  opened_by_parsed (ok request) = opened_by_request c.document_root v request
  opened_by_parsed (err e) = []

  parse_error_opens_none :
      (e : ParseError)
      → opened_by_page c.document_root v (status_for_parse_result {A = Request} (err e)) ≡ []
  unfolding opened_by_page status_for_parse_result
  parse_error_opens_none bad_request = refl
  parse_error_opens_none unsupported_method = refl
  parse_error_opens_none unsupported_version = refl
  parse_error_opens_none too_large = refl
  parse_error_opens_none too_many_headers = refl
  parse_error_opens_none invalid_content_length = refl
  parse_error_opens_none unsupported_transfer_encoding = refl
  parse_error_opens_none out_of_memory = refl

  pub after_parse-Balanced :
      (m : Parsed Request) → ReplyBalanced (after_parse c v m) (opened_by_parsed m)
  after_parse-Balanced (ok request) =
      close_if_required-Balanced (dispatch_request c v request) _
        (dispatch_request-Balanced request)
  after_parse-Balanced (err e) =
      build_static_error_response-Balanced c.document_root v http_response_init
        (status_for_parse_result {A = Request} (err e))
      ∙ parse_error_opens_none e
