-- ===== src/StaticFiles/Descriptors.antt =====
-- What becomes of the descriptors that `static_files_serve` and the pages of src/static_files.c open,
-- and the status of what they build.
use cinder_http.Prelude.{
  ℕ, ◌≡◌, refl, ap, ◌∙◌, Bool, true, false, not, List, [], ◌++◌, leb, if◌then◌else◌, ok, err, ℤ,
  length,
}
use cinder_http.Text.{Bytes, codes, Alloc}
use cinder_http.Request.{Request}
use cinder_http.Response.{
  Response, http_response_init, closed_by_destroy, http_response_set_status,
  http_response_set_body_text, http_response_add_header,
}
use cinder_http.Response.Bodies.{HoldsNone, set_body_text-HoldsNone, then_header-HoldsNone}
use cinder_http.StaticFiles.Errors.{Static}
use cinder_http.StaticFiles.FileSystem.{FileSystem, Resolved}
use cinder_http.StaticFiles.Resolve.{resolve_target}
use cinder_http.StaticFiles.Files.{
  Filled, error_page, not_found_request, fill_resolved, static_files_serve, not_found_page,
  static_files_build_error, static_files_build_not_found,
}
use cinder_http.StaticFiles.Confined.{owned_by, opened_by, fill_file_response-accounts}

-- The descriptor that `static_files_serve` is given, if the target resolves.
unfoldable pub opened_by_serve : Alloc → FileSystem → Bytes → Request → List ℤ
opened_by_serve alloc fs document_root request =
    elim (resolve_target alloc fs document_root request.target) [
      | ok found ↦ opened_by alloc fs found.path
      | err e ↦ []
    ]

-- What it opened it has either closed itself or handed over in the response.
pub static_files_serve-accounts :
    (alloc : Alloc) (fs : FileSystem) (document_root : Bytes) (request : Request)
    → let (served, closed) = static_files_serve alloc fs document_root request in
      closed ++ owned_by served ≡ opened_by_serve alloc fs document_root request
unfolding static_files_serve opened_by_serve
static_files_serve-accounts alloc fs document_root request =
    go (resolve_target alloc fs document_root request.target)
  where
    go :
        (m : Static Resolved)
        → let (served, closed) = fill_resolved alloc fs m in
          closed ++ owned_by served
          ≡ elim m [ ok found ↦ opened_by alloc fs found.path | err e ↦ [] ]
    go (err e) = refl
    go (ok found) = fill_file_response-accounts alloc fs found.path

build_error-cases :
    (alloc : Alloc) (status : ℕ) (page : Bytes) (long : Bool)
    → let started = http_response_set_status http_response_init status in
      let p : Bool × Response =
        if long
        then (false, http_response_init)
        else if not (http_response_set_body_text alloc started page).0
        then (false, (http_response_set_body_text alloc started page).1)
        else http_response_add_header alloc
            (http_response_set_body_text alloc started page).1
            (codes "Content-Type")
            (codes "text/html; charset=utf-8") in
      HoldsNone p.1
build_error-cases alloc status page true = refl
build_error-cases alloc status page false =
    let started = http_response_set_status http_response_init status in
    then_header-HoldsNone alloc (http_response_set_body_text alloc started page)
      (codes "Content-Type") (codes "text/html; charset=utf-8")
      (set_body_text-HoldsNone alloc started page refl)

pub build_error-HoldsNone :
    (alloc : Alloc) (status : ℕ) (heading : Bytes)
    → HoldsNone (static_files_build_error alloc http_response_init status heading).1
unfolding static_files_build_error
build_error-HoldsNone alloc status heading =
    build_error-cases alloc status (error_page status heading)
      (leb 512 (length (error_page status heading)))

-- The file of the page, if there is one, hangs on the response.
pub build_not_found-accounts :
    (alloc : Alloc) (fs : FileSystem) (document_root : Bytes)
    → (static_files_serve alloc fs document_root not_found_request).1
        ++ closed_by_destroy
            (static_files_build_not_found alloc fs document_root http_response_init).1
      ≡ opened_by_serve alloc fs document_root not_found_request
unfolding static_files_build_not_found
build_not_found-accounts alloc fs document_root =
    go (static_files_serve alloc fs document_root not_found_request)
      (static_files_serve-accounts alloc fs document_root not_found_request)
  where
    go :
        (f : Filled)
        → f.1 ++ owned_by f.0 ≡ opened_by_serve alloc fs document_root not_found_request
        → f.1 ++ closed_by_destroy (not_found_page alloc fs http_response_init f.0).1
          ≡ opened_by_serve alloc fs document_root not_found_request
    go (ok page, closed) e = e
    go (err x, closed) e =
        ap (λ t. closed ++ t) (build_error-HoldsNone alloc 404 (codes "Not Found")) ∙ e
