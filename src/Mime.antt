-- ===== src/Mime.antt =====
-- src/mime.c: the media type of a path by its extension.
use cinder_http.Prelude.{
  Bool, true, false, List, [], ◌∷◌, ◌==◌, ◌||◌, if◌then◌else◌, Option, none, some, is_empty,
}
use cinder_http.Text.{Bytes, codes, header_name_equal}

pub record MimeEntry : Type 0 where
  pub extension : Bytes
  pub mime_type : Bytes

abbrev entry : Bytes → Bytes → MimeEntry
entry extension mime_type = record { extension = extension; mime_type = mime_type }

abbrev pub mime_table : List MimeEntry
mime_table =
    entry (codes "html") (codes "text/html; charset=utf-8")
    ∷ entry (codes "htm") (codes "text/html; charset=utf-8")
    ∷ entry (codes "css") (codes "text/css; charset=utf-8")
    ∷ entry (codes "js") (codes "application/javascript")
    ∷ entry (codes "json") (codes "application/json")
    ∷ entry (codes "txt") (codes "text/plain; charset=utf-8")
    ∷ entry (codes "csv") (codes "text/csv; charset=utf-8")
    ∷ entry (codes "xml") (codes "application/xml")
    ∷ entry (codes "png") (codes "image/png")
    ∷ entry (codes "jpg") (codes "image/jpeg")
    ∷ entry (codes "jpeg") (codes "image/jpeg")
    ∷ entry (codes "gif") (codes "image/gif")
    ∷ entry (codes "svg") (codes "image/svg+xml")
    ∷ entry (codes "ico") (codes "image/x-icon")
    ∷ entry (codes "webp") (codes "image/webp")
    ∷ entry (codes "pdf") (codes "application/pdf")
    ∷ entry (codes "woff") (codes "font/woff")
    ∷ entry (codes "woff2") (codes "font/woff2")
    ∷ []

abbrev pub octet_stream : Bytes
octet_stream = codes "application/octet-stream"

-- The first loop: `base` is behind the last slash met so far.
unfoldable pub basename_from : Bytes → Bytes → Bytes
basename_from base [] = base
basename_from base (c ∷ cs) = basename_from (if c == b'/' then cs else base) cs

abbrev pub basename : Bytes → Bytes
basename path = basename_from path path

-- A dot met by the second loop: whether it is the first byte, and the bytes behind it.
pub record Dot : Type 0 where
  pub at_base : Bool
  pub rest : Bytes

-- The second loop; the first argument says whether the next byte is the first.
unfoldable pub last_dot : Bool → Option Dot → Bytes → Option Dot
last_dot first dot [] = dot
last_dot first dot (c ∷ cs) =
    last_dot false (if c == b'.' then some (record { at_base = first; rest = cs }) else dot) cs

unfoldable pub lookup_type : Bytes → List MimeEntry → Bytes
lookup_type ext [] = octet_stream
lookup_type ext (e ∷ es) =
    if header_name_equal ext e.extension then e.mime_type else lookup_type ext es

abbrev pub type_of_dot : Option Dot → Bytes
type_of_dot none = octet_stream
type_of_dot (some d) =
    if d.at_base || is_empty d.rest then octet_stream else lookup_type d.rest mime_table

unfoldable pub mime_type_from_path : Bytes → Bytes
mime_type_from_path path =
    if is_empty path then octet_stream else type_of_dot (last_dot true none (basename path))
