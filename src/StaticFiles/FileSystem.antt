-- ===== src/StaticFiles/FileSystem.antt =====
-- The file system that src/static_files.c asks, a parameter, and the tests of its answers:
-- `realpath`, `stat`, `open` and `fstat` with the errors they are turned into.
use cinder_http.Prelude.{
  ℕ, Bool, true, false, not, ltb, if◌then◌else◌, Option, Result, ok, err, ◌>>=◌, ◌>>◌, require, ℤ,
  pos, negsuc,
}
use cinder_http.Limits.{http_max_static_file_size}
use cinder_http.Text.{Bytes, codes}
use cinder_http.StaticFiles.Errors.{Static, StaticError, not_found, forbidden, too_large, io_error}

pub data Errno : Type 0 where
  enoent eacces other_errno : Errno

pub data FileKind : Type 0 where
  directory regular special : FileKind

-- `st_mode` and `st_size`.
pub record Stat : Type 0 where
  pub kind : FileKind
  pub size : ℤ

-- What `realpath`, `stat`, `open` and `fstat` answer.
pub record FileSystem : Type 0 where
  pub realpath : Bytes → Result Errno Bytes
  pub stat : Bytes → Result Errno Stat
  pub open_file : Bytes → Result Errno ℤ
  pub fstat : ℤ → Option Stat

abbrev pub is_directory : FileKind → Bool
is_directory directory = true
is_directory _ = false

abbrev pub is_regular : FileKind → Bool
is_regular regular = true
is_regular _ = false

-- The sizes that both `resolve_under_root` and `fill_file_response` accept.
abbrev pub check_size : ℤ → Static ℕ
check_size (negsuc n) = err io_error
check_size (pos n) = if ltb http_max_static_file_size n then err too_large else ok n

abbrev pub realpath_error : Errno → StaticError
realpath_error enoent = not_found
realpath_error eacces = forbidden
realpath_error other_errno = not_found

-- Of `stat` and of `open`.
abbrev pub access_error : Errno → StaticError
access_error enoent = not_found
access_error eacces = forbidden
access_error other_errno = io_error

abbrev pub map_error {ℓ} : {E F A : Type ℓ} → (E → F) → Result E A → Result F A
map_error f (ok a) = ok a
map_error f (err e) = err (f e)

pub record Resolved : Type 0 where
  pub path : Bytes
  pub size : ℕ
  pub is_dir : Bool

unfoldable pub stat_resolved : Bytes → Stat → Static Resolved
stat_resolved path st =
    if is_directory st.kind
    then ok (record { path = path; size = 0; is_dir = true })
    else if not (is_regular st.kind)
    then err forbidden
    else do size ← check_size st.size; ok (record { path = path; size = size; is_dir = false })

-- The canonical root, if it is a directory.
unfoldable pub canonical_directory : FileSystem → Bytes → Static Bytes
canonical_directory fs document_root = do
  root ← map_error (λ _. io_error) (fs.realpath document_root)
  st ← map_error (λ _. io_error) (fs.stat root)
  require (is_directory st.kind) io_error
  ok root

abbrev pub index_html : Bytes
index_html = codes "index.html"
