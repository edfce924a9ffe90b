-- ===== src/Parser/Accepted.antt =====
-- What src/http_parser.c guarantees of a request that it accepts.
pub mod Head
use cinder_http.Prelude.{
  ℕ, suc, zero, ◌+◌, ◌-◌, ◌≡◌, ◌≢◌, ◌≤◌, ◌<◌, refl, sym, ap, ◌∙◌, Bool, true, false, not, ◌&&◌,
  ◌||◌, List, [], ◌∷◌, ◌++◌, ◌==◌, if◌then◌else◌, Option, none, some, ok, err, ◌>>=◌, ◌>>◌, require,
  or_fail, arith, length, all, append_assoc, append-nil, length-append, ltb, leb, is_empty, inl,
  inr, ◌⊎◌, take, drop, Bool-cases, >>=-eq-ok, or_fail-eq-ok, require-eq-ok, subst, leb→le, ==→eq,
  length-drop, length-take,
}
use cinder_http.Limits.{
  http_max_headers, http_max_request_line, http_max_header_bytes, http_max_body_size,
}
use cinder_http.Text.{
  Bytes, Alloc, memchr, has_byte, dup_range, codes, strcmp_eq, header_name_equal, skip_ows,
  trim_ows_end, c_string,
}
use cinder_http.Text.Laws.{dup_range-eq-ok, strcmp_eq_iff}
use cinder_http.Request.{
  Header, Request, Method, get, head, post, unknown, find_header, http_method_from_string,
  http_request_init,
}
use cinder_http.Parser.Errors.{
  Parsed, ParseError, bad_request, out_of_memory, too_large, too_many_headers, unsupported_version,
  unsupported_transfer_encoding, invalid_content_length,
}
use cinder_http.Parser.Tokens.{is_supported_method_token, is_digit}
use cinder_http.Parser.ContentLength.{http_parse_content_length_value, decimal, ullong_max}
use cinder_http.Parser.Terminator.{http_find_header_terminator}
use cinder_http.Parser.Framing.{
  Lines, tail, line, split_lf, strip_cr, transfer_encoding, content_length_name,
  http_inspect_message_framing,
}
use cinder_http.Parser.RequestLine.{
  http_1_0, http_1_1, check_version, check_method, Fields, request_fields, start_request,
  parse_request_line,
}
use cinder_http.Parser.HeaderLine.{is_name_char, append_header, header_fields, parse_header_line}
use cinder_http.Parser.RoundTrip.Framed.{FitsFraming, FitsLength, count-find_none}
use cinder_http.Parser.Message.{
  count_headers, is_some, announced_length, parse_header_lines, parse_head, finish_request,
  http_parse_request,
}
use cinder_http.Parser.Accepted.Head.{IsStarted, IsNamed, IsHead, parse_head-IsHead}

pub content_length-le :
    (v : Bytes) {n : ℕ} → http_parse_content_length_value v ≡ ok n → n ≤ http_max_body_size
unfolding http_parse_content_length_value
content_length-le v h = ground arith

no_header-count :
    (name : Bytes) (hs : List Header)
    → is_some (find_header name hs) ≡ false
    → count_headers name hs ≡ 0
unfolding find_header count_headers is_some
no_header-count name [] e = refl
no_header-count name (h ∷ hs) e = ground (arith, no_header-count name hs)

record IsFinished (message : Bytes) (header_bytes n : ℕ) (q r : Request) : Type 0 where
  kept : r ≡ record q { body = take n (drop header_bytes message) }
  no_te : is_some (find_header transfer_encoding q.headers) ≡ false
  announced : announced_length q (find_header content_length_name q.headers) ≡ ok n

finish_request-IsFinished :
    (alloc : Alloc) (message : Bytes) (header_bytes n : ℕ) (q : Request) {r : Request}
    → finish_request alloc message header_bytes n q ≡ ok r
    → IsFinished message header_bytes n q r
unfolding finish_request
finish_request-IsFinished alloc message header_bytes n q {r} e =
    go (is_some (find_header transfer_encoding q.headers)) refl
      (announced_length q (find_header content_length_name q.headers)) refl e
  where
    go :
        (b : Bool)
        → is_some (find_header transfer_encoding q.headers) ≡ b
        → (a : Parsed ℕ) → announced_length q (find_header content_length_name q.headers) ≡ a
        → (do
          require (not b) unsupported_transfer_encoding
          body_length ← a
          require (body_length == n) bad_request
          require (if ltb 0 body_length then alloc (body_length + 1) else true) out_of_memory
          ok (
              let s : Request = record q { body = take body_length (drop header_bytes message) } in
              s))
          ≡ ok r
        → IsFinished message header_bytes n q r
    go true eb a ea h = cc
    go false eb (err x) ea h = cc
    go false eb (ok m) ea h = record {
      kept = ground arith;
      no_te = eb;
      announced = let same : m ≡ n = ground arith in ea ∙ ap ok same;
    }

-- What an accepted message and its request look like.
pub record IsAccepted (message : Bytes) (r : Request) : Type 0 where
  pub term : ℕ
  pub first_terminator : http_find_header_terminator message ≡ some term
  pub short_head : term + 4 ≤ http_max_header_bytes
  pub body_is_rest : r.body ≡ drop (term + 4) message
  pub small_body : length r.body ≤ http_max_body_size
  pub started : IsStarted r
  pub few_headers : length r.headers ≤ http_max_headers
  pub named : IsNamed r.headers
  pub framing : FitsFraming r.headers r.body

take_all : (n : ℕ) (xs : Bytes) → length xs ≡ n → take n xs ≡ xs
take_all zero [] h = refl
take_all (suc n) [] h = refl
take_all zero (x ∷ xs) h = absurd (omega arith)
take_all (suc n) (x ∷ xs) h = ap (◌∷◌ x) (take_all n xs (omega arith))

nil_of_length : (xs : Bytes) → 0 ≡ length xs → xs ≡ []
nil_of_length [] h = refl
nil_of_length (x ∷ xs) h = absurd (omega arith)

announced_some :
    (q : Request) (v : Bytes) {n : ℕ}
    → announced_length q (some v) ≡ ok n
    → (count_headers content_length_name q.headers ≤ 1) × (http_parse_content_length_value v ≡ ok n)
unfolding announced_length
announced_some q v h = ground arith

announced-FitsFraming :
    (q : Request) (body : Bytes)
    → is_some (find_header transfer_encoding q.headers) ≡ false
    → announced_length q (find_header content_length_name q.headers) ≡ ok (length body)
    → FitsFraming q.headers body × (length body ≤ http_max_body_size)
announced-FitsFraming q body te e = go (find_header content_length_name q.headers) refl
  where
    fits :
        (o : Option Bytes)
        → find_header content_length_name q.headers ≡ o
        → FitsLength o body
        → FitsLength (find_header content_length_name q.headers) body
    fits o eo f = subst (λ x. FitsLength x body) (sym eo) f

    go :
        (o : Option Bytes)
        → find_header content_length_name q.headers ≡ o
        → FitsFraming q.headers body × (length body ≤ http_max_body_size)
    go none eo =
        let none_announced : 0 ≡ length body =
          unfold announced_length in ground (arith, rw eo at e) in
        (
          record {
            no_transfer_encoding = no_header-count transfer_encoding q.headers te;
            one_length = rw (count-find_none content_length_name q.headers eo) (omega arith);
            fits_length = fits none eo (nil_of_length body none_announced);
          },
          omega arith,
        )
    go (some v) eo =
        let (few, parsed) = announced_some q v (rw eo at e) in
        (
          record {
            no_transfer_encoding = no_header-count transfer_encoding q.headers te;
            one_length = few;
            fits_length = fits (some v) eo parsed;
          },
          content_length-le v parsed,
        )

finished-IsAccepted :
    (alloc : Alloc) (message : Bytes) (term n : ℕ) (q r : Request)
    → http_find_header_terminator message ≡ some term
    → term + 4 ≤ http_max_header_bytes
    → length message ≡ term + 4 + n
    → IsHead q
    → IsFinished message (term + 4) n q r
    → IsAccepted message r
finished-IsAccepted alloc message term n q r found short long h f =
    let rest : length (drop (term + 4) message) ≡ n =
      omega (arith, length-drop (term + 4) message) in
    let whole : take n (drop (term + 4) message) ≡ drop (term + 4) message = take_all n _ rest in
    let r_is : r ≡ record q { body = drop (term + 4) message } =
      f.kept ∙ ap (λ b. record q { body = b }) whole in
    let (framing, small) =
      announced-FitsFraming q (drop (term + 4) message) f.no_te (f.announced ∙ ap ok (sym rest)) in
    let accepted : IsAccepted message (record q { body = drop (term + 4) message }) = record {
      term = term;
      first_terminator = found;
      short_head = short;
      body_is_rest = refl;
      small_body = small;
      started = record {
        method_served = h.started.method_served;
        http1 = h.started.http1;
        has_target = h.started.has_target;
      };
      few_headers = h.few;
      named = h.named;
      framing = framing;
    } in
    subst (λ x. IsAccepted message x) (sym r_is) accepted

-- An accepted message ends where its announced body ends: its head stops at the first empty line
-- and is within the limit, the method is GET, HEAD or POST and the version HTTP/1.0 or 1.1, at most
-- 100 headers have names without white space or NUL, none is a Transfer-Encoding, at most one is a
-- Content-Length, which gives exactly the length of the body, at most 1 MiB; with none the body is
-- empty.
pub http_parse_request-IsAccepted :
    (alloc : Alloc) (message : Bytes) {r : Request}
    → http_parse_request alloc message ≡ ok r
    → IsAccepted message r
unfolding http_parse_request
http_parse_request-IsAccepted alloc message {r} e =
    let (_, e₁) = require-eq-ok (not (is_empty message)) bad_request _ e in
    let (term, found, e₂) = or_fail-eq-ok (http_find_header_terminator message) bad_request _ e₁ in
    let (short, e₃) = require-eq-ok (leb (term + 4) http_max_header_bytes) too_large _ e₂ in
    let (n, _, e₄) =
      >>=-eq-ok (http_inspect_message_framing alloc (take (term + 4) message)) _ e₃ in
    let (long, e₅) = require-eq-ok (length message == term + 4 + n) bad_request _ e₄ in
    let (q, parsed, e₆) = >>=-eq-ok (parse_head alloc (split_lf (take (term + 2) message))) _ e₅ in
    finished-IsAccepted alloc message term n q r found (leb→le _ _ short) (==→eq _ _ long)
      (parse_head-IsHead alloc _ parsed) (finish_request-IsFinished alloc message (term + 4) n q e₆)
