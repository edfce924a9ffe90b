-- ===== src/StaticFiles/Resolve.antt =====
-- `resolve_under_root`, `try_index` and the part of `static_files_serve` in src/static_files.c that
-- finds the path to open.
use cinder_http.Prelude.{
  ◌+◌, not, ◌∷◌, ◌++◌, if◌then◌else◌, Option, ok, err, ◌>>=◌, ◌>>◌, require, length, is_empty,
}
use cinder_http.Text.{Bytes, Alloc}
use cinder_http.StaticFiles.Errors.{Static, not_found, forbidden, out_of_memory}
use cinder_http.StaticFiles.Paths.{
  static_files_extract_path, static_files_url_decode, static_files_normalize_path,
}
use cinder_http.StaticFiles.Within.{path_is_within_root, join_root_relative, print_path}
use cinder_http.StaticFiles.FileSystem.{
  FileSystem, realpath_error, access_error, map_error, Resolved, stat_resolved, canonical_directory,
  index_html,
}

abbrev pub forbid_listing : Static Resolved → Static Resolved
forbid_listing (err not_found) = err forbidden
forbid_listing r = r

unfoldable pub relative_path : Alloc → Option Bytes → Static Bytes
relative_path alloc target = do
  path_only ← static_files_extract_path alloc target
  decoded ← static_files_url_decode alloc path_only
  static_files_normalize_path alloc decoded

module _ (alloc : Alloc) (fs : FileSystem) where
  unfoldable pub resolve_under_root : Bytes → Bytes → Static Resolved
  resolve_under_root canonical_root relative = do
    joined ← join_root_relative canonical_root relative
    resolved ← map_error realpath_error (fs.realpath joined)
    require (path_is_within_root resolved canonical_root) forbidden
    st ← map_error access_error (fs.stat resolved)
    found ← stat_resolved resolved st
    require (alloc (length resolved + 1)) out_of_memory
    ok found

  unfoldable pub try_index : Bytes → Bytes → Static Resolved
  try_index canonical_root dir_relative = do
    index_rel ←
        print_path (if is_empty dir_relative then index_html else dir_relative ++ b'/' ∷ index_html)
    found ← resolve_under_root canonical_root index_rel
    require (not found.is_dir) forbidden
    ok found

  unfoldable pub resolve_relative : Bytes → Bytes → Static Resolved
  resolve_relative root relative = do
    found ← resolve_under_root root relative
    if found.is_dir then forbid_listing (try_index root relative) else ok found

  -- The path that `static_files_serve` opens.
  unfoldable pub resolve_target : Bytes → Option Bytes → Static Resolved
  resolve_target document_root target = do
    relative ← relative_path alloc target
    root ← canonical_directory fs document_root
    resolve_relative root relative
