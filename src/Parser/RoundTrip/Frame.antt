-- ===== src/Parser/RoundTrip/Frame.antt =====
-- The terminator, the request line and the header lines of a printed request.
use cinder_http.Prelude.{
  ℕ, ◌+◌, ◌≡◌, ◌≢◌, ◌≤◌, ◌<◌, refl, sym, ap, ◌∙◌, true, false, List, [], ◌∷◌, ◌++◌, ◌==◌, some, ok,
  arith, length, all, append_assoc, append-nil, length-append, ltb, is_empty, inl, inr, ◌⊎◌,
}
use cinder_http.Limits.{http_max_headers, http_max_request_line}
use cinder_http.Text.{Bytes, Alloc, has_byte, strcmp_eq}
use cinder_http.Text.Laws.{memchr-append, dup_range_ok, has_byte-append}
use cinder_http.Request.{
  Header, Request, Method, get, head, post, http_method_from_string, http_method_to_string,
}
use cinder_http.Parser.Errors.{out_of_memory}
use cinder_http.Parser.Tokens.{
  is_supported_method_token, method_token_is_well_formed, is_token_char,
}
use cinder_http.Parser.Terminator.{find_terminator}
use cinder_http.Parser.Terminator.First.{find_terminator-append}
use cinder_http.Parser.Framing.{Lines, line, split_lf}
use cinder_http.Parser.Framing.LineLaws.{split_lf-append, strip_cr-concat}
use cinder_http.Parser.RequestLine.{
  http_1_0, http_1_1, check_version, check_method, starts_with_space, request_fields, start_request,
  parse_request_line,
}
use cinder_http.Parser.Message.{parse_header_lines}
use cinder_http.Parser.RoundTrip.{
  is_target_char, header_line, print_headers, request_line, FitsLine, FitLines,
}
use cinder_http.Parser.RoundTrip.Pieces.{
  has_byte-line_char, has_byte-field_name, has_byte-target, is_empty_ne, is_empty-append-cons,
  parse_header_line_ok,
}

abbrev pub IsServed : Method → Type 0
IsServed m = (m ≡ get) ⊎ (m ≡ head) ⊎ (m ≡ post)

abbrev pub IsHttp1 : Bytes → Type 0
IsHttp1 v = (v ≡ http_1_0) ⊎ (v ≡ http_1_1)

-- A line with its line end is one line of the text.
pub split_lf-line :
    (l rest : Bytes)
    → has_byte 10 l ≡ false
    → split_lf (l ++ 13 ∷ 10 ∷ rest) ≡ line (l ++ 13 ∷ []) (split_lf rest)
unfolding has_byte
split_lf-line l rest h =
    ap split_lf (sym (append_assoc l (13 ∷ []) (10 ∷ rest)))
    ∙ split_lf-append (l ++ 13 ∷ []) rest (rw (has_byte-append, h))

pub header_line-chars :
    (h : Header)
    → FitsLine h
    → (has_byte 10 (header_line h) ≡ false) × (has_byte 13 (header_line h) ≡ false)
unfolding has_byte
header_line-chars h f =
    let (name, _, _) = has_byte-field_name h.name f.name_chars in
    let (_, lf, cr) = has_byte-line_char h.name name in
    let (_, lf', cr') = has_byte-line_char h.value f.value_chars in
    (rw (has_byte-append, lf, lf'), rw (has_byte-append, cr, cr'))

header_line-ne-nil : (h : Header) → header_line h ≢ []
header_line-ne-nil h = append-cons-ne-nil h.name b':' (b' ' ∷ h.value)
  where
    append-cons-ne-nil : (xs : Bytes) (c : ℕ) (ys : Bytes) → xs ++ c ∷ ys ≢ []
    append-cons-ne-nil [] c ys e = cc
    append-cons-ne-nil (x ∷ xs) c ys e = cc

find_terminator-crlf :
    (i x : ℕ) (rest : Bytes)
    → x == 13 ≡ false
    → find_terminator i (13 ∷ 10 ∷ x ∷ rest) ≡ find_terminator (i + 2) (x ∷ rest)
unfolding find_terminator
find_terminator-crlf i x [] h =
    let e : i + 1 + 1 ≡ i + 2 = omega arith in ap (λ k. find_terminator k (x ∷ [])) e
find_terminator-crlf i x (a ∷ []) h =
    let e : i + 1 + 1 ≡ i + 2 = omega arith in rw h (ap (λ k. find_terminator k (x ∷ a ∷ [])) e)
find_terminator-crlf i x (a ∷ b ∷ rest) h =
    let e : i + 1 + 1 ≡ i + 2 = omega arith in
    rw h (ap (λ k. find_terminator k (x ∷ a ∷ b ∷ rest)) e)

find_terminator-next_line :
    (i : ℕ) (l rest : Bytes)
    → l ≢ []
    → has_byte 13 l ≡ false
    → find_terminator i (13 ∷ 10 ∷ (l ++ rest)) ≡ find_terminator (i + 2 + length l) rest
unfolding has_byte
find_terminator-next_line i [] rest ne h = absurd (ne refl)
find_terminator-next_line i (x ∷ xs) rest ne h =
    find_terminator-crlf i x (xs ++ rest) (ground arith)
    ∙ find_terminator-append (x ∷ xs) rest (i + 2) h

-- Behind a line end, the lines of the headers and the empty line: the terminator begins at the
-- line end of the last of these lines.
pub find_terminator-print_headers :
    (hs : List Header) (rest : Bytes) (i : ℕ)
    → FitLines hs
    → find_terminator i (13 ∷ 10 ∷ (print_headers hs ++ 13 ∷ 10 ∷ rest))
      ≡ some (i + length (print_headers hs))
unfolding print_headers
find_terminator-print_headers [] rest i f = unfold find_terminator in ap some (omega arith)
find_terminator-print_headers (h ∷ hs) rest i (f, fs) =
    ap (λ t. find_terminator i (13 ∷ 10 ∷ t))
      (append_assoc (header_line h) (13 ∷ 10 ∷ print_headers hs) (13 ∷ 10 ∷ rest))
    ∙ find_terminator-next_line i (header_line h) _ (header_line-ne-nil h) (header_line-chars h f).1
    ∙ find_terminator-print_headers hs rest (i + 2 + length (header_line h)) fs
    ∙ ap some (omega (arith, length-append (header_line h) (13 ∷ 10 ∷ print_headers hs)))

pub print_headers-lines :
    (h : Header) (hs : List Header) (rest : Bytes)
    → FitsLine h
    → split_lf (print_headers (h ∷ hs) ++ rest)
      ≡ line (header_line h ++ 13 ∷ []) (split_lf (print_headers hs ++ rest))
unfolding print_headers
print_headers-lines h hs rest f =
    ap split_lf (append_assoc (header_line h) (13 ∷ 10 ∷ print_headers hs) rest)
    ∙ split_lf-line (header_line h) _ (header_line-chars h f).0

lines_of :
    (h : Header) (hs : List Header)
    → FitsLine h
    → split_lf (print_headers (h ∷ hs))
      ≡ line (header_line h ++ 13 ∷ []) (split_lf (print_headers hs))
lines_of h hs f =
    ap split_lf (sym (append-nil (print_headers (h ∷ hs))))
    ∙ print_headers-lines h hs [] f
    ∙ ap (λ t. line (header_line h ++ 13 ∷ []) (split_lf t)) (append-nil (print_headers hs))

request_fits :
    (l : Bytes) → length l ≤ http_max_request_line → ltb http_max_request_line (length l) ≡ false
request_fits l h = ground arith

no_space_first :
    (xs ys : Bytes) → xs ≢ [] → has_byte b' ' xs ≡ false → starts_with_space (xs ++ ys) ≡ false
unfolding has_byte
no_space_first [] ys ne h = absurd (ne refl)
no_space_first (x ∷ xs) ys ne h = ground arith

served_method :
    (m : Method)
    → IsServed m
    → let t = http_method_to_string m in
      (has_byte b' ' t ≡ false)
      × (has_byte 0 t ≡ false)
      × (is_empty t ≡ false)
      × (method_token_is_well_formed t ≡ true)
      × (check_method t ≡ ok tt)
      × (http_method_from_string t ≡ m)
unfolding has_byte http_method_to_string method_token_is_well_formed is_token_char check_method
    is_supported_method_token strcmp_eq http_method_from_string
served_method get h = (refl, refl, refl, refl, refl, refl)
served_method head h = (refl, refl, refl, refl, refl, refl)
served_method post h = (refl, refl, refl, refl, refl, refl)
served_method Method.unknown h = ground arith

http1_version :
    (v : Bytes)
    → IsHttp1 v
    → (check_version v ≡ ok tt)
      × (has_byte b' ' v ≡ false)
      × (has_byte 0 v ≡ false)
      × (is_empty v ≡ false)
unfolding check_version has_byte strcmp_eq
http1_version v (inl e) = rw e (refl, refl, refl, refl)
http1_version v (inr e) = rw e (refl, refl, refl, refl)

pub method_chars :
    (m : Method)
    → IsServed m
    → (has_byte 10 (http_method_to_string m) ≡ false)
      × (has_byte 13 (http_method_to_string m) ≡ false)
unfolding has_byte http_method_to_string
method_chars get h = (refl, refl)
method_chars head h = (refl, refl)
method_chars post h = (refl, refl)
method_chars Method.unknown h = (refl, refl)

pub version_chars : (v : Bytes) → IsHttp1 v → (has_byte 10 v ≡ false) × (has_byte 13 v ≡ false)
unfolding has_byte
version_chars v (inl e) = rw e (refl, refl)
version_chars v (inr e) = rw e (refl, refl)

-- The copies are all granted.
module _ (alloc : Alloc) (granted : (n : ℕ) → alloc n ≡ true) where
  next_line :
      (r : Request) (h : Header) (rest : Lines)
      → FitsLine h
      → length r.headers < http_max_headers
      → parse_header_lines alloc (line (header_line h ++ 13 ∷ []) rest) r
        ≡ parse_header_lines alloc rest (record r { headers = r.headers ++ h ∷ [] })
  unfolding parse_header_lines
  next_line r h rest f lt =
      rw (strip_cr-concat (header_line h), parse_header_line_ok alloc granted r h f lt)

  pub parse_header_lines_ok :
      (hs : List Header) (r : Request)
      → FitLines hs
      → length r.headers + length hs ≤ http_max_headers
      → parse_header_lines alloc (split_lf (print_headers hs)) r
        ≡ ok (record r { headers = r.headers ++ hs })
  parse_header_lines_ok [] r f le =
      unfold print_headers split_lf parse_header_lines in rw append-nil
  parse_header_lines_ok (h ∷ hs) r (f, fs) le =
      let r' : Request = record r { headers = r.headers ++ h ∷ [] } in
      ap (λ t. parse_header_lines alloc t r) (lines_of h hs f)
      ∙ next_line r h (split_lf (print_headers hs)) f (omega arith)
      ∙ parse_header_lines_ok hs r' fs (omega (arith, length-append r.headers (h ∷ [])))
      ∙ ap (λ t. ok (record r { headers = t })) (append_assoc r.headers (h ∷ []) hs)

  -- A request line of a served method, a target and a version.
  pub parse_request_line_ok :
      (m : Method) (target version : Bytes) (r : Request)
      → IsServed m
      → target ≢ []
      → all is_target_char target ≡ true
      → IsHttp1 version
      → length (request_line (http_method_to_string m) target version) ≤ http_max_request_line
      → parse_request_line alloc (request_line (http_method_to_string m) target version) r
        ≡ ok (record r { method = m; target = some target; version = some version })
  unfolding parse_request_line request_fields start_request
  parse_request_line_ok m target version r s ne chars v le =
      let t : Bytes = http_method_to_string m in
      let (space, zero_m, some_m, token, supported, same) = served_method m s in
      let (target_line, target_space) = has_byte-target target chars in
      let (target_zero, _, _) = has_byte-line_char target target_line in
      let (checked, v_space, v_zero, v_some) = http1_version version v in
      rw (
        request_fits _ le,
        is_empty-append-cons t b' ' (target ++ b' ' ∷ version),
        memchr-append b' ' t (target ++ b' ' ∷ version) space,
        some_m,
        zero_m,
        dup_range_ok alloc out_of_memory t (granted _) zero_m,
        token,
        is_empty-append-cons target b' ' version,
        no_space_first target (b' ' ∷ version) ne target_space,
        memchr-append b' ' target version target_space,
        is_empty_ne target ne,
        v_some,
        v_space,
        target_zero,
        v_zero,
        supported,
        dup_range_ok alloc out_of_memory target (granted _) target_zero,
        dup_range_ok alloc out_of_memory version (granted _) v_zero,
        checked,
        same,
      )
