-- ===== src/Tests/Serving.antt =====
-- src/static_files.c on a concrete document root.
use cinder_http.Prelude.{
  ◌≡◌, refl, true, false, List, [], ◌∷◌, some, ok, err, ◌↔◌, arith, pos, if◌then◌else◌, ◌==◌, ◌||◌,
}
use cinder_http.Text.{Bytes, codes, Alloc, strcmp_eq, has_byte}
use cinder_http.Request.{Request, get, http_request_init}
use cinder_http.Response.{Response, http_response_init, file}
use cinder_http.StaticFiles.Errors.{forbidden}
use cinder_http.StaticFiles.Paths.{
  static_files_normalize_path, static_files_url_decode, split_slash, join_slash,
}
use cinder_http.StaticFiles.Decoding.{percent_encode, url_decode-percent_encode}
use cinder_http.StaticFiles.Normal.{normalize-ArePlain, ArePlain}
use cinder_http.StaticFiles.Climbing.{normalize_escapes, escapes, Outcome}
use cinder_http.StaticFiles.Within.{
  path_is_within_root, path_is_within_root_iff, IsWithin, file_system_root_refuses,
}
use cinder_http.StaticFiles.FileSystem.{FileSystem, Errno, enoent, Stat, directory, regular}
use cinder_http.StaticFiles.Files.{fill_file_response, static_files_serve}
use cinder_http.StaticFiles.Confined.{IsConfined, static_files_serve-IsConfined}
use cinder_http.Tests.Parsing.{granted_all}

abbrev pub site : FileSystem
site = record {
  realpath = λ p.
      if strcmp_eq p (codes "/srv") || strcmp_eq p (codes "/srv/a.txt") then ok p else err enoent;
  stat = λ p.
      if strcmp_eq p (codes "/srv")
      then ok (record { kind = directory; size = pos 4096 })
      else ok (record { kind = regular; size = pos 5 });
  open_file = λ p. ok (pos 3);
  fstat = λ fd. some (record { kind = regular; size = pos 5 });
}

abbrev asked : Request
asked = record http_request_init { method = get; target = some (codes "/x/../%61.txt?v=1") }

abbrev pub page : Response
page = record http_response_init {
  status_code = 200;
  reason_phrase = some (codes "OK");
  headers = record { name = codes "Content-Type"; value = codes "text/plain; charset=utf-8" } ∷ [];
  body = file (pos 3);
  body_length = 5;
}

serves_page : (static_files_serve granted_all site (codes "/srv") asked).0 ≡ ok page
unfolding static_files_serve cinder_http.StaticFiles.Resolve.resolve_target
    cinder_http.StaticFiles.Resolve.relative_path
    cinder_http.StaticFiles.Paths.static_files_extract_path
    cinder_http.StaticFiles.Paths.path_portion static_files_url_decode
    cinder_http.StaticFiles.Paths.decode cinder_http.StaticFiles.Paths.until_query
    cinder_http.StaticFiles.Paths.is_hex cinder_http.StaticFiles.Paths.hex_value
    static_files_normalize_path cinder_http.StaticFiles.Paths.add_segments split_slash
    cinder_http.StaticFiles.Paths.add_segment strcmp_eq cinder_http.StaticFiles.Paths.push_segment
    cinder_http.StaticFiles.FileSystem.canonical_directory cinder_http.Mime.basename_from
    cinder_http.Mime.last_dot cinder_http.Mime.lookup_type cinder_http.Mime.mime_type_from_path
    cinder_http.Response.http_reason_phrase cinder_http.Response.http_response_add_header
    cinder_http.Response.http_response_set_file_body
    cinder_http.StaticFiles.FileSystem.stat_resolved fill_file_response
    cinder_http.StaticFiles.Paths.in_order join_slash
    cinder_http.StaticFiles.Resolve.resolve_relative
    cinder_http.StaticFiles.Resolve.resolve_under_root cinder_http.StaticFiles.Resolve.try_index
    cinder_http.StaticFiles.Within.join_root_relative path_is_within_root
    cinder_http.StaticFiles.Within.print_path cinder_http.Text.ascii_tolower
    cinder_http.Text.header_name_equal cinder_http.Text.starts_with
serves_page = refl

static_files_serve-IsConfined_example : IsConfined site (codes "/srv") page
static_files_serve-IsConfined_example =
    static_files_serve-IsConfined granted_all site (codes "/srv") asked page serves_page

url_decode-percent_encode_example :
    static_files_url_decode granted_all (percent_encode (λ c. c == b'%') (codes "/50%"))
    ≡ ok (codes "/50%")
url_decode-percent_encode_example =
    url_decode-percent_encode granted_all (λ c. c == b'%') (codes "/50%") refl refl refl

decodes : static_files_url_decode granted_all (codes "/%41") ≡ ok (codes "/A")
unfolding static_files_url_decode cinder_http.StaticFiles.Paths.decode
    cinder_http.StaticFiles.Paths.is_hex cinder_http.StaticFiles.Paths.hex_value
decodes = refl

normalizes : static_files_normalize_path granted_all (codes "/a/./b/..//c") ≡ ok (codes "a/c")
unfolding static_files_normalize_path cinder_http.StaticFiles.Paths.add_segments split_slash
    cinder_http.StaticFiles.Paths.add_segment strcmp_eq cinder_http.StaticFiles.Paths.push_segment
    join_slash cinder_http.StaticFiles.Paths.in_order
normalizes = refl

normalize-ArePlain_example : (segs : List Bytes) × (codes "a/c" ≡ join_slash segs) × ArePlain segs
normalize-ArePlain_example = normalize-ArePlain granted_all (codes "/a/./b/..//c") normalizes

normalize_escapes_example :
    Outcome
      (escapes 0 (split_slash (codes "a/../..")))
      (static_files_normalize_path granted_all (codes "/a/../.."))
normalize_escapes_example = normalize_escapes granted_all (λ n. refl) (codes "a/../..")

refuses_climbing : static_files_normalize_path granted_all (codes "/a/../..") ≡ err forbidden
unfolding static_files_normalize_path cinder_http.StaticFiles.Paths.add_segments split_slash
    cinder_http.StaticFiles.Paths.add_segment strcmp_eq cinder_http.StaticFiles.Paths.push_segment
refuses_climbing = refl

path_is_within_root_iff_example :
    (path_is_within_root (codes "/srv2") (codes "/srv") ≡ true)
    ↔ IsWithin (codes "/srv2") (codes "/srv")
path_is_within_root_iff_example = path_is_within_root_iff (codes "/srv2") (codes "/srv")

file_system_root_refuses_example : path_is_within_root (codes "/a") (codes "/") ≡ false
file_system_root_refuses_example = file_system_root_refuses b'a' [] (omega arith)
