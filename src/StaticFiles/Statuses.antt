-- ===== src/StaticFiles/Statuses.antt =====
-- The status of the responses that src/static_files.c builds.
use cinder_http.Prelude.{
  ℕ, ◌+◌, ◌≡◌, refl, subst, Bool, true, false, not, [], ◌∷◌, leb, if◌then◌else◌, Option, none, some,
  Result, ok, err, ℤ, pos, negsuc, length,
}
use cinder_http.Text.{Bytes, codes, Alloc}
use cinder_http.Mime.{mime_type_from_path}
use cinder_http.Request.{Request}
use cinder_http.Response.{
  Response, http_response_init, http_response_set_status, http_response_set_body_text,
  http_response_set_file_body, http_response_add_header, set_body_owned,
}
use cinder_http.Router.Dispatch.{Keeps, add_header-Keeps}
use cinder_http.StaticFiles.Errors.{Static, forbidden}
use cinder_http.StaticFiles.FileSystem.{FileSystem, Stat, Errno, Resolved, is_regular, check_size}
use cinder_http.StaticFiles.Resolve.{resolve_target}
use cinder_http.StaticFiles.Files.{
  Filled, error_page, typed_response, attach, fill_sized, fill_opened, open_and_fill, fill_typed,
  fill_file_response, fill_resolved, static_files_serve, not_found_page, not_found_request,
  static_files_build_error, static_files_build_not_found,
}

abbrev pub Serves : ℕ → Static Response → Type 0
Serves status (ok r) = r.status_code ≡ status
Serves status (err e) = Unit {0}

attach-Serves : (r : Response) (fd : ℤ) (size : ℕ) → Serves r.status_code (attach r fd size).0
unfolding http_response_set_file_body
attach-Serves r (pos fd) size = refl
attach-Serves r (negsuc fd) size = tt

fill_opened-Serves :
    (r : Response) (fd : ℤ) (st : Option Stat) → Serves r.status_code (fill_opened r fd st).0
fill_opened-Serves r fd none = tt
fill_opened-Serves r fd (some st) = go (is_regular st.kind) (check_size st.size)
  where
    go :
        (regular : Bool) (m : Static ℕ)
        → let f : Filled = if not regular then (err forbidden, fd ∷ []) else fill_sized r fd m in
          Serves r.status_code f.0
    go false m = tt
    go true (err e) = tt
    go true (ok size) = attach-Serves r fd size

fill_typed-Serves :
    (fs : FileSystem) (path : Bytes) (t : Bool × Response)
    → Keeps 200 t
    → Serves 200 (fill_typed fs path t).0
fill_typed-Serves fs path (false, typed) k = tt
fill_typed-Serves fs path (true, typed) k = go (fs.open_file path)
  where
    go : (m : Result Errno ℤ) → Serves 200 (open_and_fill fs typed m).0
    go (err e) = tt
    go (ok fd) =
        subst (λ n. Serves n (fill_opened typed fd (fs.fstat fd)).0) k
          (fill_opened-Serves typed fd (fs.fstat fd))

pub static_files_serve-Serves :
    (alloc : Alloc) (fs : FileSystem) (document_root : Bytes) (request : Request)
    → Serves 200 (static_files_serve alloc fs document_root request).0
unfolding static_files_serve fill_file_response
static_files_serve-Serves alloc fs document_root request =
    go (resolve_target alloc fs document_root request.target)
  where
    go : (m : Static Resolved) → Serves 200 (fill_resolved alloc fs m).0
    go (err e) = tt
    go (ok found) = fill_typed-Serves fs found.path (typed_response alloc found.path) (
        add_header-Keeps alloc (http_response_set_status http_response_init 200)
          (codes "Content-Type") (mime_type_from_path found.path))

pub build_error-Keeps :
    (alloc : Alloc) (status : ℕ) (heading : Bytes)
    → Keeps status (static_files_build_error alloc http_response_init status heading)
unfolding static_files_build_error http_response_set_body_text
build_error-Keeps alloc status heading =
    go (leb 512 (length (error_page status heading)))
      (alloc (length (error_page status heading) + 1))
  where
    started : Response
    started = http_response_set_status http_response_init status

    page : Bytes
    page = error_page status heading

    go :
        (long granted : Bool)
        → let copied : Bool × Response =
            if granted
            then (true, set_body_owned started (some page) (length page))
            else (false, started) in
          Keeps status (
            if long
            then (false, http_response_init)
            else if not copied.0
            then (false, copied.1)
            else http_response_add_header alloc copied.1
                (codes "Content-Type")
                (codes "text/html; charset=utf-8"))
    go true granted = tt
    go false false = tt
    go false true =
        add_header-Keeps alloc (set_body_owned started (some page) (length page))
          (codes "Content-Type") (codes "text/html; charset=utf-8")

pub build_not_found-Keeps :
    (alloc : Alloc) (fs : FileSystem) (document_root : Bytes)
    → Keeps 404 (static_files_build_not_found alloc fs document_root http_response_init)
unfolding static_files_build_not_found
build_not_found-Keeps alloc fs document_root =
    go (static_files_serve alloc fs document_root not_found_request).0
  where
    go : (m : Static Response) → Keeps 404 (not_found_page alloc fs http_response_init m)
    go (ok page) = refl
    go (err e) = build_error-Keeps alloc 404 (codes "Not Found")
