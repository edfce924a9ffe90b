-- ===== src/Router/Statuses.antt =====
-- The statuses of the routes of src/router.c.
use cinder_http.Prelude.{
  ◌≡◌, refl, Bool, false, ◌||◌, [], ◌∷◌, ◌==◌, if◌then◌else◌, Option, some, ℕ, arith, ◌∙◌,
}
use cinder_http.Text.{Bytes, codes, Alloc, strcmp_eq}
use cinder_http.Request.{Method, get, head, post, unknown, Request}
use cinder_http.Response.{Response}
use cinder_http.Stats.{Stats}
use cinder_http.Router.{path_equals, method_compatible, routes, handled, router_dispatch}
use cinder_http.Router.Dispatch.{table_status, router_dispatch-table}

-- The path of a target.
unfoldable pub before_query : Bytes → Bytes
before_query [] = []
before_query (c ∷ cs) = let rest = before_query cs in if c == b'?' then [] else c ∷ rest

-- What may be read, and what takes a body.
abbrev pub is_readable : Bytes → Bool
is_readable path = strcmp_eq path (codes "/api/health") || strcmp_eq path (codes "/api/stats")

abbrev pub is_writable : Bytes → Bool
is_writable path = strcmp_eq path (codes "/api/echo")

-- 200 for GET and HEAD of what may be read and for POST of what takes a body, 405 for another method
-- on one of these paths, and 404 for another path.
unfoldable pub expected_status : Bytes → Method → ℕ
expected_status path get = if is_readable path then 200 else if is_writable path then 405 else 404
expected_status path head = if is_readable path then 200 else if is_writable path then 405 else 404
expected_status path post = if is_writable path then 200 else if is_readable path then 405 else 404
expected_status path unknown = if is_readable path || is_writable path then 405 else 404

path_equals-before_query :
    (target path : Bytes) → path_equals target path ≡ strcmp_eq (before_query target) path
unfolding path_equals strcmp_eq before_query
path_equals-before_query [] [] = refl
path_equals-before_query [] (p ∷ ps) = refl
path_equals-before_query (t ∷ ts) [] = ground arith
path_equals-before_query (t ∷ ts) (p ∷ ps) = ground (arith, path_equals-before_query ts ps)

table_status-expected :
    (target : Bytes) (m : Method)
    → table_status routes false target m ≡ expected_status (before_query target) m
unfolding table_status expected_status method_compatible
table_status-expected target get = ground (
  arith,
  path_equals-before_query target (codes "/api/health"),
  path_equals-before_query target (codes "/api/echo"),
  path_equals-before_query target (codes "/api/stats"),
)
table_status-expected target head = ground (
  arith,
  path_equals-before_query target (codes "/api/health"),
  path_equals-before_query target (codes "/api/echo"),
  path_equals-before_query target (codes "/api/stats"),
)
table_status-expected target post = ground (
  arith,
  path_equals-before_query target (codes "/api/health"),
  path_equals-before_query target (codes "/api/echo"),
  path_equals-before_query target (codes "/api/stats"),
)
table_status-expected target unknown = ground (
  arith,
  path_equals-before_query target (codes "/api/health"),
  path_equals-before_query target (codes "/api/echo"),
  path_equals-before_query target (codes "/api/stats"),
)

-- Whenever `router_dispatch` answers HANDLED, the status of the response is, by the target up to its
-- query: 200 for GET and HEAD of "/api/health" and "/api/stats" and for POST of "/api/echo", 405 for
-- another method on one of these three, and 404 for every other path.
pub router_dispatch-status :
    (alloc : Alloc) (s : Option Stats) (request : Request) (target : Bytes) (response r : Response)
    → request.target ≡ some target
    → router_dispatch alloc s request response ≡ (handled, r)
    → r.status_code ≡ expected_status (before_query target) request.method
router_dispatch-status alloc s request target response r e h =
    router_dispatch-table alloc s request target response r e h
    ∙ table_status-expected target request.method
