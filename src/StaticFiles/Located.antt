-- ===== src/StaticFiles/Located.antt =====
-- Where the path that src/static_files.c opens can lie: `resolve_under_root`, `try_index` and
-- `resolve_target`.
use cinder_http.Prelude.{
  ℕ, ◌+◌, ◌≡◌, refl, sym, ◌∙◌, ap, Bool, true, false, not, [], ◌∷◌, ◌++◌, if◌then◌else◌, Option,
  Result, ok, err, ◌>>=◌, >>=-eq-ok, require-eq-ok, length, is_empty, subst, inl, inr, Bool-cases,
}
use cinder_http.Text.{Bytes, Alloc}
use cinder_http.StaticFiles.Errors.{
  Static, not_found, forbidden, bad_target, too_large, io_error, out_of_memory,
}
use cinder_http.StaticFiles.Within.{
  path_is_within_root, path_is_within_root_iff, IsWithin, join_root_relative, print_path,
}
use cinder_http.StaticFiles.FileSystem.{
  FileSystem, Stat, Resolved, map_error, realpath_error, access_error, check_size, stat_resolved,
  canonical_directory, is_directory, is_regular, index_html,
}
use cinder_http.StaticFiles.Resolve.{
  resolve_under_root, try_index, forbid_listing, resolve_relative, relative_path, resolve_target,
}

map_error-eq-ok :
    {E F A : Type 0} (f : E → F) (m : Result E A) {a : A} → map_error f m ≡ ok a → m ≡ ok a
map_error-eq-ok f (ok a) h = cc
map_error-eq-ok f (err e) h = cc

abbrev path_or : Bytes → Static Resolved → Bytes
path_or path (ok r) = r.path
path_or path (err e) = path

path_or-stat_resolved : (path : Bytes) (st : Stat) → path_or path (stat_resolved path st) ≡ path
unfolding stat_resolved
path_or-stat_resolved path st = go (is_directory st.kind) (is_regular st.kind) (check_size st.size)
  where
    go :
        (d r : Bool) (n : Static ℕ)
        → path_or path (
            if d
            then ok (record { path = path; size = 0; is_dir = true })
            else if not r
            then err forbidden
            else (n >>= (λ size. ok (record { path = path; size = size; is_dir = false }))))
          ≡ path
    go true r n = refl
    go false false n = refl
    go false true (ok n) = refl
    go false true (err e) = refl

stat_resolved-path :
    (path : Bytes) (st : Stat) (found : Resolved)
    → stat_resolved path st ≡ ok found
    → found.path ≡ path
stat_resolved-path path st found h = sym (ap (path_or path) h) ∙ path_or-stat_resolved path st

-- The path is a canonical one below the root.
pub record Located (fs : FileSystem) (root : Bytes) (path : Bytes) : Type 0 where
  pub joined : Bytes
  pub canonical : fs.realpath joined ≡ ok path
  pub within : IsWithin path root

forbid_listing-eq-ok :
    (m : Static Resolved) (found : Resolved) → forbid_listing m ≡ ok found → m ≡ ok found
forbid_listing-eq-ok (ok r) found h = h
forbid_listing-eq-ok (err not_found) found h = cc
forbid_listing-eq-ok (err forbidden) found h = h
forbid_listing-eq-ok (err bad_target) found h = h
forbid_listing-eq-ok (err too_large) found h = h
forbid_listing-eq-ok (err io_error) found h = h
forbid_listing-eq-ok (err out_of_memory) found h = h

directory_case :
    (r : Resolved) (x y : Static Resolved) (found : Resolved)
    → r.is_dir ≡ true
    → (if r.is_dir then x else y) ≡ ok found
    → x ≡ ok found
directory_case r x y found dir h = rw dir at h

file_case :
    (r : Resolved) (x y : Static Resolved) (found : Resolved)
    → r.is_dir ≡ false
    → (if r.is_dir then x else y) ≡ ok found
    → y ≡ ok found
file_case r x y found dir h = rw dir at h

moved :
    {fs : FileSystem} {root : Bytes} (found' found : Resolved)
    → ◌≡◌ {A = Static Resolved} (ok found') (ok found)
    → Located fs root found'.path
    → Located fs root found.path
moved {fs = fs} {root = root} found' found h l = subst (λ r. Located fs root (path_or [] r)) h l

resolved-Located :
    (fs : FileSystem) (joined root path : Bytes) (found' found : Resolved)
    → map_error realpath_error (fs.realpath joined) ≡ ok path
    → path_is_within_root path root ≡ true
    → found'.path ≡ path
    → ◌≡◌ {A = Static Resolved} (ok found') (ok found)
    → Located fs root found.path
resolved-Located fs joined root path found' found real inside same last =
    moved found' found last (record {
      joined = joined;
      canonical = map_error-eq-ok realpath_error (fs.realpath joined) real ∙ ap ok (sym same);
      within = rw same ((path_is_within_root_iff path root).0 inside);
    })

canonical_directory-eq-ok :
    (fs : FileSystem) (document_root root : Bytes)
    → canonical_directory fs document_root ≡ ok root
    → fs.realpath document_root ≡ ok root
unfolding canonical_directory
canonical_directory-eq-ok fs document_root root h =
    let (real, resolved, h1) =
      >>=-eq-ok (map_error (λ _. io_error) (fs.realpath document_root)) _ h in
    let (st, answered, h2) = >>=-eq-ok (map_error (λ _. io_error) (fs.stat real)) _ h1 in
    let (dir, h3) = require-eq-ok (is_directory st.kind) io_error _ h2 in
    map_error-eq-ok (λ _. io_error) (fs.realpath document_root) (resolved ∙ h3)

module _ (alloc : Alloc) (fs : FileSystem) where
  resolve_under_root-Located :
      (root relative : Bytes) (found : Resolved)
      → resolve_under_root alloc fs root relative ≡ ok found
      → Located fs root found.path
  unfolding resolve_under_root
  resolve_under_root-Located root relative found h =
      let (joined, join, h1) = >>=-eq-ok (join_root_relative root relative) _ h in
      let (resolved, real, h2) = >>=-eq-ok (map_error realpath_error (fs.realpath joined)) _ h1 in
      let (inside, h3) = require-eq-ok (path_is_within_root resolved root) forbidden _ h2 in
      let (st, answered, h4) = >>=-eq-ok (map_error access_error (fs.stat resolved)) _ h3 in
      let (found', kept, h5) = >>=-eq-ok (stat_resolved resolved st) _ h4 in
      let (granted, h6) = require-eq-ok (alloc (length resolved + 1)) out_of_memory _ h5 in
      let same = stat_resolved-path resolved st found' kept in
      resolved-Located fs joined root resolved found' found real inside same h6

  try_index-Located :
      (root relative : Bytes) (found : Resolved)
      → try_index alloc fs root relative ≡ ok found
      → Located fs root found.path
  unfolding try_index
  try_index-Located root relative found h =
      let (index_rel, printed, h1) =
        >>=-eq-ok
          (print_path (if is_empty relative then index_html else relative ++ b'/' ∷ index_html)) _
          h in
      let (found', at, h2) = >>=-eq-ok (resolve_under_root alloc fs root index_rel) _ h1 in
      let (listed, h3) = require-eq-ok (not found'.is_dir) forbidden _ h2 in
      moved found' found h3 (resolve_under_root-Located root index_rel found' at)

  resolve_relative-Located :
      (root relative : Bytes) (found : Resolved)
      → resolve_relative alloc fs root relative ≡ ok found
      → Located fs root found.path
  unfolding resolve_relative
  resolve_relative-Located root relative found h =
      let (found', at, h1) = >>=-eq-ok (resolve_under_root alloc fs root relative) _ h in
      elim (Bool-cases found'.is_dir) [
        | inl dir ↦ try_index-Located root relative found (
            forbid_listing-eq-ok (try_index alloc fs root relative) found
              (directory_case found' _ _ found dir h1))
        | inr dir ↦
            moved found' found (file_case found' _ _ found dir h1)
              (resolve_under_root-Located root relative found' at)
      ]

  -- A resolved target lies below the canonical document root.
  pub resolve_target-Located :
      (document_root : Bytes) (target : Option Bytes) (found : Resolved)
      → resolve_target alloc fs document_root target ≡ ok found
      → (root : Bytes) × (fs.realpath document_root ≡ ok root) × Located fs root found.path
  unfolding resolve_target
  resolve_target-Located document_root target found h =
      let (relative, extracted, h1) = >>=-eq-ok (relative_path alloc target) _ h in
      let (root, canonical, h2) = >>=-eq-ok (canonical_directory fs document_root) _ h1 in
      (
        root,
        canonical_directory-eq-ok fs document_root root canonical,
        resolve_relative-Located root relative found h2,
      )
