-- ===== src/StaticFiles/Files.antt =====
-- What src/static_files.c answers: `fill_file_response`, `static_files_serve` and the error pages. A
-- result comes with the descriptors that were opened and closed again on the way.
use cinder_http.Prelude.{
  ℕ, Bool, true, false, not, List, [], ◌∷◌, ◌++◌, leb, if◌then◌else◌, Option, none, some, Result,
  ok, err, ℤ, pos, length,
}
use cinder_http.Text.{Bytes, codes, Alloc}
use cinder_http.Decimal.{format_decimal}
use cinder_http.Request.{Request, get, http_request_init}
use cinder_http.Response.{
  Response, http_response_init, http_response_set_status, http_response_add_header,
  http_response_set_file_body, http_response_set_body_text,
}
use cinder_http.Mime.{mime_type_from_path}
use cinder_http.StaticFiles.Errors.{Static, forbidden, io_error, out_of_memory}
use cinder_http.StaticFiles.FileSystem.{
  FileSystem, Stat, Errno, is_regular, check_size, access_error, Resolved,
}
use cinder_http.StaticFiles.Resolve.{resolve_target}

abbrev pub Filled : Type 0
Filled = Static Response × List ℤ

abbrev pub attach : Response → ℤ → ℕ → Filled
attach response fd size =
    let (attached, filled) = http_response_set_file_body response fd (pos size) in
    if attached then (ok filled, []) else (err out_of_memory, fd ∷ [])

-- From the open descriptor on.
abbrev pub fill_sized : Response → ℤ → Static ℕ → Filled
fill_sized response fd (err e) = (err e, fd ∷ [])
fill_sized response fd (ok size) = attach response fd size

abbrev pub fill_opened : Response → ℤ → Option Stat → Filled
fill_opened response fd none = (err io_error, fd ∷ [])
fill_opened response fd (some st) =
    if not (is_regular st.kind)
    then (err forbidden, fd ∷ [])
    else fill_sized response fd (check_size st.size)

abbrev pub error_page : ℕ → Bytes → Bytes
error_page status_code heading =
    let title = format_decimal status_code ++ b' ' ∷ heading in
    codes "<!doctype html>\n<html><head><title>"
    ++ (title ++ (codes "</title></head><body><h1>" ++ (title ++ codes "</h1></body></html>\n")))

abbrev pub not_found_request : Request
not_found_request = record http_request_init {
  method = get;
  target = some (codes "/404.html");
  version = some (codes "HTTP/1.1");
}

-- The response before the file is opened.
abbrev pub typed_response : Alloc → Bytes → Bool × Response
typed_response alloc path =
    http_response_add_header alloc (http_response_set_status http_response_init 200)
      (codes "Content-Type") (mime_type_from_path path)

-- `static_files_build_error`; the page goes through a buffer of 512 bytes.
unfoldable pub static_files_build_error : Alloc → Response → ℕ → Bytes → Bool × Response
static_files_build_error alloc response status_code heading =
    let page = error_page status_code heading in
    let started = http_response_set_status http_response_init status_code in
    let (copied, filled) = http_response_set_body_text alloc started page in
    if leb 512 (length page)
    then (false, response)
    else if not copied
    then (false, filled)
    else http_response_add_header alloc filled (codes "Content-Type")
        (codes "text/html; charset=utf-8")

module _ (fs : FileSystem) where
  abbrev pub open_and_fill : Response → Result Errno ℤ → Filled
  open_and_fill response (err e) = (err (access_error e), [])
  open_and_fill response (ok fd) = fill_opened response fd (fs.fstat fd)

  abbrev pub fill_typed : Bytes → Bool × Response → Filled
  fill_typed path (false, typed) = (err out_of_memory, [])
  fill_typed path (true, typed) = open_and_fill typed (fs.open_file path)

module _ (alloc : Alloc) (fs : FileSystem) where
  unfoldable pub fill_file_response : Bytes → Filled
  fill_file_response path = fill_typed fs path (typed_response alloc path)

  abbrev pub fill_resolved : Static Resolved → Filled
  fill_resolved (err e) = (err e, [])
  fill_resolved (ok found) = fill_file_response found.path

  -- A result other than `ok` leaves an empty response.
  unfoldable pub static_files_serve : Bytes → Request → Filled
  static_files_serve document_root request =
      fill_resolved (resolve_target alloc fs document_root request.target)

  abbrev pub not_found_page : Response → Static Response → Bool × Response
  not_found_page response (ok page) = (true, http_response_set_status page 404)
  not_found_page response (err e) = static_files_build_error alloc response 404 (codes "Not Found")

  unfoldable pub static_files_build_not_found : Bytes → Response → Bool × Response
  static_files_build_not_found document_root response =
      not_found_page response (static_files_serve document_root not_found_request).0
