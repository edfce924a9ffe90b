-- ===== src/Parser/Accepted/Head.antt =====
-- What `parse_request_line` and `parse_header_line` of src/http_parser.c leave in the request.
use cinder_http.Prelude.{
  ◌≡◌, ◌≢◌, ◌≤◌, refl, ◌∙◌, true, not, List, [], ◌∷◌, ◌++◌, Option, none, some, ok, ◌>>=◌, ◌>>◌,
  require, or_fail, arith, length, all, length-append, is_empty, ◌⊎◌, >>=-eq-ok, or_fail-eq-ok,
  subst,
}
use cinder_http.Limits.{http_max_headers}
use cinder_http.Text.{Bytes, Alloc, memchr, has_byte, dup_range, skip_ows, trim_ows_end, c_string}
use cinder_http.Text.Laws.{strcmp_eq_iff}
use cinder_http.Request.{
  Header, Request, get, head, post, http_method_from_string, http_request_init,
}
use cinder_http.Parser.Errors.{bad_request, out_of_memory}
use cinder_http.Parser.Tokens.{is_supported_method_token}
use cinder_http.Parser.Framing.{Lines, tail, line, strip_cr}
use cinder_http.Parser.RequestLine.{
  http_1_0, http_1_1, check_version, check_method, Fields, request_fields, start_request,
  parse_request_line,
}
use cinder_http.Parser.HeaderLine.{is_name_char, append_header, header_fields, parse_header_line}
use cinder_http.Parser.Message.{parse_header_lines, parse_head}

-- Method and version are among those served.
pub record IsStarted (r : Request) : Type 0 where
  pub method_served : (r.method ≡ get) ⊎ (r.method ≡ head) ⊎ (r.method ≡ post)
  pub http1 : (r.version ≡ some http_1_0) ⊎ (r.version ≡ some http_1_1)
  pub has_target : r.target ≢ none

check_method-served :
    (m : Bytes) {u : Unit {0}}
    → check_method m ≡ ok u
    → let k = http_method_from_string m in (k ≡ get) ⊎ (k ≡ head) ⊎ (k ≡ post)
unfolding check_method is_supported_method_token http_method_from_string
check_method-served m h = ground arith

check_version-http1 :
    (v : Bytes) {u : Unit {0}} → check_version v ≡ ok u → (v ≡ http_1_0) ⊎ (v ≡ http_1_1)
unfolding check_version
check_version-http1 v h = ground (arith, strcmp_eq_iff v http_1_0, strcmp_eq_iff v http_1_1)

start_request-IsStarted :
    (alloc : Alloc) (r : Request) (f : Fields) {r' : Request}
    → start_request alloc r f ≡ ok r'
    → IsStarted r' × (r'.headers ≡ r.headers)
unfolding start_request dup_range
start_request-IsStarted alloc r f h =
    ground (arith, check_method-served f.method, check_version-http1 (c_string f.version_part))

parse_request_line-IsStarted :
    (alloc : Alloc) (l : Bytes) (r : Request) {r' : Request}
    → parse_request_line alloc l r ≡ ok r'
    → IsStarted r' × (r'.headers ≡ r.headers)
unfolding parse_request_line
parse_request_line-IsStarted alloc l r h =
    let (f, _, h') = >>=-eq-ok (request_fields alloc l) (start_request alloc r) h in
    start_request-IsStarted alloc r f h'

-- At most 100 headers, with names that are not empty and hold no white space and no NUL.
abbrev pub IsNamed : List Header → Type 0
IsNamed [] = Unit
IsNamed (h ∷ hs) = (h.name ≢ []) × (all is_name_char h.name ≡ true) × IsNamed hs

IsNamed-append :
    (hs : List Header) (h : Header)
    → IsNamed hs
    → h.name ≢ []
    → all is_name_char h.name ≡ true
    → IsNamed (hs ++ h ∷ [])
IsNamed-append [] h n ne c = (ne, c, tt)
IsNamed-append (g ∷ hs) h n ne c = (n.0, n.1, IsNamed-append hs h n.2 ne c)

-- What each header line leaves of the request.
record Grows (r r' : Request) : Type 0 where
  method_same : r'.method ≡ r.method
  target_same : r'.target ≡ r.target
  version_same : r'.version ≡ r.version
  few : length r'.headers ≤ http_max_headers
  named : IsNamed r.headers → IsNamed r'.headers

c_string-name : (xs : Bytes) → all is_name_char xs ≡ true → c_string xs ≡ xs
unfolding c_string
c_string-name [] h = refl
c_string-name (x ∷ xs) h = ground (arith, c_string-name xs)

append_header-Grows :
    (alloc : Alloc) (r : Request) (name value : Bytes) {r' : Request}
    → name ≢ []
    → all is_name_char name ≡ true
    → append_header alloc r name value ≡ ok r'
    → Grows r r'
unfolding append_header
append_header-Grows alloc r name value {r'} ne c h = record {
  method_same = ground arith;
  target_same = ground arith;
  version_same = ground arith;
  few = ground (arith, length-append r.headers (record { name = name; value = value } ∷ []));
  named =
      λ n. ground (arith, IsNamed-append r.headers (record { name = name; value = value }) n ne c);
}

header_fields-named :
    (alloc : Alloc) (l : Bytes) {h : Header}
    → header_fields alloc l ≡ ok h
    → (h.name ≢ []) × (all is_name_char h.name ≡ true)
unfolding header_fields dup_range
header_fields-named alloc [] e = cc
header_fields-named alloc (x ∷ xs) {h} e = go (memchr b':' (x ∷ xs)) e
  where
    go :
        (o : Option (Bytes × Bytes))
        → (do
          (before, after) ← or_fail o bad_request
          require (not (is_empty before)) bad_request
          require (all is_name_char before) bad_request
          name ← dup_range alloc out_of_memory before
          let trimmed = trim_ows_end (skip_ows after)
          require (not (has_byte 0 trimmed)) bad_request
          value ← dup_range alloc out_of_memory trimmed
          ok (let g : Header = record { name = name; value = value } in g))
          ≡ ok h
        → (h.name ≢ []) × (all is_name_char h.name ≡ true)
    go none e = cc
    go (some ([], after)) e = cc
    go (some (y ∷ ys, after)) e = ground (arith, c_string-name (y ∷ ys))

parse_header_line-Grows :
    (alloc : Alloc) (l : Bytes) (r : Request) {r' : Request}
    → parse_header_line alloc l r ≡ ok r'
    → Grows r r'
unfolding parse_header_line
parse_header_line-Grows alloc l r e =
    let (h, he, later) =
      >>=-eq-ok (header_fields alloc l) (λ h. append_header alloc r h.name h.value) e in
    let (ne, chars) = header_fields-named alloc l he in
    append_header-Grows alloc r h.name h.value ne chars later

Grows-trans : {a b c : Request} → Grows a b → Grows b c → Grows a c
Grows-trans g h = record {
  method_same = h.method_same ∙ g.method_same;
  target_same = h.target_same ∙ g.target_same;
  version_same = h.version_same ∙ g.version_same;
  few = h.few;
  named = λ n. h.named (g.named n);
}

parse_header_lines-Grows :
    (alloc : Alloc) (ls : Lines) (r : Request) {r' : Request}
    → length r.headers ≤ http_max_headers
    → parse_header_lines alloc ls r ≡ ok r'
    → Grows r r'
unfolding parse_header_lines
parse_header_lines-Grows alloc (tail []) r {r'} le e =
    let same : r ≡ r' = cc in
    subst (λ q. Grows r q) same
      (record {
        method_same = refl;
        target_same = refl;
        version_same = refl;
        few = le;
        named = λ n. n;
      })
parse_header_lines-Grows alloc (tail (c ∷ cs)) r le e = cc
parse_header_lines-Grows alloc (line l ls) r {r'} le e =
    let (content, _, e₁) =
      or_fail-eq-ok (strip_cr l) bad_request
        (λ c. parse_header_line alloc c r >>= λ q. parse_header_lines alloc ls q) e in
    let (q, step, e₂) =
      >>=-eq-ok (parse_header_line alloc content r) (λ q. parse_header_lines alloc ls q) e₁ in
    let g = parse_header_line-Grows alloc content r step in
    Grows-trans g (parse_header_lines-Grows alloc ls q g.few e₂)

-- What the head gives.
pub record IsHead (r : Request) : Type 0 where
  pub started : IsStarted r
  pub few : length r.headers ≤ http_max_headers
  pub named : IsNamed r.headers

pub parse_head-IsHead :
    (alloc : Alloc) (ls : Lines) {r : Request} → parse_head alloc ls ≡ ok r → IsHead r
unfolding parse_head
parse_head-IsHead alloc (tail t) e = cc
parse_head-IsHead alloc (line l ls) {r} e =
    let (content, _, e₁) =
      or_fail-eq-ok (strip_cr l) bad_request
        (λ c. parse_request_line alloc c http_request_init >>= λ q. parse_header_lines alloc ls q)
        e in
    let (q, step, e₂) =
      >>=-eq-ok (parse_request_line alloc content http_request_init)
        (λ q. parse_header_lines alloc ls q) e₁ in
    let (started, none_yet) = parse_request_line-IsStarted alloc content http_request_init step in
    let g = parse_header_lines-Grows alloc ls q (rw none_yet (omega arith)) e₂ in
    record {
      started = record {
        method_served = rw g.method_same started.method_served;
        http1 = rw g.version_same started.http1;
        has_target = rw g.target_same started.has_target;
      };
      few = g.few;
      named = g.named (rw none_yet tt);
    }
