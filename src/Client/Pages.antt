-- ===== src/Client/Pages.antt =====
-- `build_static_error_response` and `handle_static_get_head` of src/client_handler.c.
use cinder_http.Prelude.{
  ℕ, Bool, true, false, List, [], ◌++◌, ◌==◌, if◌then◌else◌, Option, none, some, ok, err, ℤ,
}
use cinder_http.Text.{Bytes}
use cinder_http.Request.{Request}
use cinder_http.Response.{Response, http_response_init, closed_by_destroy, http_response_build_text}
use cinder_http.StaticFiles.Files.{
  Filled, not_found_request, static_files_serve, static_files_build_error,
  static_files_build_not_found,
}
use cinder_http.Client.{Visit, answering, paging, texting}
use cinder_http.Client.Status.{status_for_static_result, error_heading_for_status}

-- The status, or none for -1, the response, and the descriptors closed on the way.
pub record Built : Type 0 where
  pub status : Option ℕ
  pub response : Response
  pub closed : List ℤ

abbrev pub built : ℕ → List ℤ → Bool × Response → Built
built status closed (true, response) = record {
  status = some status;
  response = response;
  closed = closed;
}
built status closed (false, response) = record {
  status = none;
  response = response;
  closed = closed;
}

module _ (document_root : Bytes) (v : Visit) where
  -- The page, and the descriptors that `static_files_build_not_found` closes while it looks for it.
  unfoldable pub error_page_for : ℕ → (Bool × Response) × List ℤ
  error_page_for status =
      if status == 404
      then (
        static_files_build_not_found (v.alloc paging) v.fs document_root http_response_init,
        (static_files_serve (v.alloc paging) v.fs document_root not_found_request).1,
      )
      else (
        static_files_build_error (v.alloc paging) http_response_init status
            (error_heading_for_status status),
        [],
      )

  abbrev pub or_text : ℕ → List ℤ → (Bool × Response) × List ℤ → Built
  or_text status closed ((true, page), closed_by_page) =
      built status (closed ++ closed_by_page) (true, page)
  or_text status closed ((false, page), closed_by_page) =
      built status (closed ++ (closed_by_page ++ closed_by_destroy page)) (
        http_response_build_text (v.alloc texting) http_response_init status
          (error_heading_for_status status))

  unfoldable pub build_static_error_response : Response → ℕ → Built
  build_static_error_response response status =
      or_text status (closed_by_destroy response) (error_page_for status)

  abbrev pub prepend_closed : List ℤ → Built → Built
  prepend_closed closed b = record b { closed = closed ++ b.closed }

  abbrev pub after_serve : Filled → Built
  after_serve (ok response, closed) = record {
    status = some 200;
    response = response;
    closed = closed;
  }
  after_serve (err e, closed) = prepend_closed closed (
      build_static_error_response http_response_init
        (status_for_static_result {A = Response} (err e)))

  -- The descriptor is opened for HEAD too; the body is left out when the response is sent.
  unfoldable pub handle_static_get_head : Request → Built
  handle_static_get_head request =
      after_serve (static_files_serve (v.alloc answering) v.fs document_root request)
