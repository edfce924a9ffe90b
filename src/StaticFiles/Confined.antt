-- ===== src/StaticFiles/Confined.antt =====
-- What src/static_files.c may serve, for every answer of the file system, and what becomes of the
-- descriptors it opens: `fill_file_response` and `static_files_serve`.
use cinder_http.Prelude.{
  ℕ, ◌≤◌, ◌≡◌, refl, sym, ap, Bool, true, false, not, List, [], ◌∷◌, ◌++◌, if◌then◌else◌, Option,
  none, some, Result, ok, err, ℤ, pos, negsuc, arith,
}
use cinder_http.Limits.{http_max_static_file_size}
use cinder_http.Text.{Bytes, Alloc}
use cinder_http.Request.{Request}
use cinder_http.Response.{Response, closed_by_destroy, file, http_response_set_file_body}
use cinder_http.StaticFiles.Errors.{Static, StaticError, forbidden}
use cinder_http.StaticFiles.FileSystem.{
  Errno, FileSystem, Stat, FileKind, regular, directory, special, Resolved, check_size, is_regular,
}
use cinder_http.StaticFiles.Resolve.{resolve_target}
use cinder_http.StaticFiles.Files.{
  Filled, typed_response, fill_typed, attach, fill_sized, fill_opened, open_and_fill,
  fill_file_response, fill_resolved, static_files_serve,
}
use cinder_http.StaticFiles.Located.{Located, resolve_target-Located}

-- The response holds an open regular file of at most the limit, and its length.
pub record HoldsFile (fs : FileSystem) (path : Bytes) (r : Response) : Type 0 where
  pub fd : ℤ
  pub size : ℕ
  pub opened : fs.open_file path ≡ ok fd
  pub st : Stat
  pub answered : fs.fstat fd ≡ some st
  pub is_regular_file : st.kind ≡ regular
  pub exact_size : st.size ≡ pos size
  pub body : r.body ≡ file fd
  pub body_length : r.body_length ≡ size
  pub bounded : size ≤ http_max_static_file_size

-- What a served response rests on.
pub record IsConfined (fs : FileSystem) (document_root : Bytes) (r : Response) : Type 0 where
  pub root : Bytes
  pub canonical_root : fs.realpath document_root ≡ ok root
  pub path : Bytes
  pub located : Located fs root path
  pub holds : HoldsFile fs path r

check_size-eq-ok :
    (z : ℤ) (n : ℕ) → check_size z ≡ ok n → (z ≡ pos n) × (n ≤ http_max_static_file_size)
check_size-eq-ok (pos m) n h = ground arith
check_size-eq-ok (negsuc m) n h = cc

-- What attaching a descriptor of a file of that size leaves.
abbrev Attached : ℤ → ℕ → Response → Type 0
Attached fd size r = (r.body ≡ file fd) × (r.body_length ≡ size)

abbrev response_or : Response → Static Response → Response
response_or start (ok r) = r
response_or start (err e) = start

attach-eq-ok :
    (start r : Response) (fd : ℤ) (size : ℕ) → (attach start fd size).0 ≡ ok r → Attached fd size r
unfolding http_response_set_file_body
attach-eq-ok start r (pos fd) size h = (
  sym (ap (λ m. (response_or start m).body) h),
  sym (ap (λ m. (response_or start m).body_length) h),
)
attach-eq-ok start r (negsuc fd) size h = cc

fill_sized-eq-ok :
    (start r : Response) (fd : ℤ) (m : Static ℕ)
    → (fill_sized start fd m).0 ≡ ok r
    → (size : ℕ) × (m ≡ ok size) × Attached fd size r
fill_sized-eq-ok start r fd (ok size) h = (size, refl, attach-eq-ok start r fd size h)
fill_sized-eq-ok start r fd (err e) h = cc

err-no-ok : {A : Type 0} {e : StaticError} {a : A} → ◌≡◌ {A = Static A} (err e) (ok a) → ⊥
err-no-ok h = cc

fill_opened-eq-ok :
    (start r : Response) (fd : ℤ) (st : Option Stat)
    → (fill_opened start fd st).0 ≡ ok r
    → (found : Stat) × (st ≡ some found)
      × (found.kind ≡ regular)
      × ((size : ℕ) × (check_size found.size ≡ ok size) × Attached fd size r)
fill_opened-eq-ok start r fd none h = cc
fill_opened-eq-ok start r fd (some st) h = go st.kind refl
  where
    go :
        (k : FileKind)
        → st.kind ≡ k
        → (found : Stat) × (some st ≡ some found)
          × (found.kind ≡ regular)
          × ((size : ℕ) × (check_size found.size ≡ ok size) × Attached fd size r)
    go regular e = (st, refl, e, fill_sized-eq-ok start r fd (check_size st.size) (rw e at h))
    go directory e = absurd (err-no-ok (rw e at h))
    go special e = absurd (err-no-ok (rw e at h))

open_and_fill-HoldsFile :
    (fs : FileSystem) (path : Bytes) (start r : Response)
    → (open_and_fill fs start (fs.open_file path)).0 ≡ ok r
    → HoldsFile fs path r
open_and_fill-HoldsFile fs path start r h = go (fs.open_file path) refl h
  where
    go :
        (m : Result Errno ℤ)
        → fs.open_file path ≡ m
        → (open_and_fill fs start m).0 ≡ ok r
        → HoldsFile fs path r
    go (err e) asked g = absurd (err-no-ok g)
    go (ok fd) asked g =
        let (st, answered, reg, measured) = fill_opened-eq-ok start r fd (fs.fstat fd) g in
        let (size, sized, attached) = measured in
        let (exact, bounded) = check_size-eq-ok st.size size sized in
        record {
          fd = fd;
          size = size;
          opened = asked;
          st = st;
          answered = answered;
          is_regular_file = reg;
          exact_size = exact;
          body = attached.0;
          body_length = attached.1;
          bounded = bounded;
        }

fill_file_response-HoldsFile :
    (alloc : Alloc) (fs : FileSystem) (path : Bytes) (r : Response)
    → (fill_file_response alloc fs path).0 ≡ ok r
    → HoldsFile fs path r
unfolding fill_file_response
fill_file_response-HoldsFile alloc fs path r h = go (typed_response alloc path) h
  where
    go : (t : Bool × Response) → (fill_typed fs path t).0 ≡ ok r → HoldsFile fs path r
    go (true, typed) g = open_and_fill-HoldsFile fs path typed r g
    go (false, typed) g = absurd (err-no-ok g)

-- A response that `static_files_serve` hands out holds an open regular file of at most the limit,
-- opened under a canonical name that is the canonical document root or lies below it, whatever the
-- request's target, the allocations and the answers of the file system are.
pub static_files_serve-IsConfined :
    (alloc : Alloc) (fs : FileSystem) (document_root : Bytes) (request : Request) (r : Response)
    → (static_files_serve alloc fs document_root request).0 ≡ ok r
    → IsConfined fs document_root r
unfolding static_files_serve
static_files_serve-IsConfined alloc fs document_root request r h =
    go (resolve_target alloc fs document_root request.target) refl h
  where
    go :
        (m : Static Resolved)
        → resolve_target alloc fs document_root request.target ≡ m
        → (fill_resolved alloc fs m).0 ≡ ok r
        → IsConfined fs document_root r
    go (err e) at g = absurd (err-no-ok g)
    go (ok found) at g =
        let (root, canonical, located) =
          resolve_target-Located alloc fs document_root request.target found at in
        record {
          root = root;
          canonical_root = canonical;
          path = found.path;
          located = located;
          holds = fill_file_response-HoldsFile alloc fs found.path r g;
        }

abbrev pub given : Bool → Result Errno ℤ → List ℤ
given true (ok fd) = fd ∷ []
given true (err e) = []
given false m = []

-- The descriptor that `open` gave `fill_file_response`, if it came to ask.
abbrev pub opened_by : Alloc → FileSystem → Bytes → List ℤ
opened_by alloc fs path = given (typed_response alloc path).0 (fs.open_file path)

-- The descriptors that a result's response still holds, and `http_response_destroy` closes.
abbrev pub owned_by : Static Response → List ℤ
owned_by (err e) = []
owned_by (ok r) = closed_by_destroy r

abbrev Accounts : Filled → List ℤ → Type 0
Accounts (filled, closed) opened = closed ++ owned_by filled ≡ opened

attach-Accounts : (start : Response) (fd : ℤ) (size : ℕ) → Accounts (attach start fd size) (fd ∷ [])
unfolding http_response_set_file_body
attach-Accounts start (pos fd) size = refl
attach-Accounts start (negsuc fd) size = refl

fill_sized-Accounts :
    (start : Response) (fd : ℤ) (m : Static ℕ) → Accounts (fill_sized start fd m) (fd ∷ [])
fill_sized-Accounts start fd (ok size) = attach-Accounts start fd size
fill_sized-Accounts start fd (err e) = refl

fill_opened-Accounts :
    (start : Response) (fd : ℤ) (m : Option Stat) → Accounts (fill_opened start fd m) (fd ∷ [])
fill_opened-Accounts start fd none = refl
fill_opened-Accounts start fd (some st) = go (is_regular st.kind)
  where
    go :
        (b : Bool)
        → Accounts
            (if not b then (err forbidden, fd ∷ []) else fill_sized start fd (check_size st.size))
            (fd ∷ [])
    go true = fill_sized-Accounts start fd (check_size st.size)
    go false = refl

open_and_fill-Accounts :
    (fs : FileSystem) (start : Response) (m : Result Errno ℤ)
    → Accounts (open_and_fill fs start m) (given true m)
open_and_fill-Accounts fs start (ok fd) = fill_opened-Accounts start fd (fs.fstat fd)
open_and_fill-Accounts fs start (err e) = refl

-- No descriptor leaks: what `fill_file_response` opened it has either closed itself or handed over
-- in the response, once and not both, on every path through it.
pub fill_file_response-accounts :
    (alloc : Alloc) (fs : FileSystem) (path : Bytes)
    → let (filled, closed) = fill_file_response alloc fs path in
      closed ++ owned_by filled ≡ opened_by alloc fs path
unfolding fill_file_response
fill_file_response-accounts alloc fs path = go (typed_response alloc path)
  where
    go : (t : Bool × Response) → Accounts (fill_typed fs path t) (given t.0 (fs.open_file path))
    go (false, typed) = refl
    go (true, typed) = open_and_fill-Accounts fs typed (fs.open_file path)
