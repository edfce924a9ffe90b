-- ===== src/Parser/RoundTrip/Whole.antt =====
-- The framing of a printed request, and the parse of the whole of it.
use cinder_http.Prelude.{
  ℕ, ◌+◌, ◌≡◌, ◌≤◌, refl, sym, ap, ◌∙◌, true, false, List, [], ◌∷◌, ◌++◌, ◌==◌, if◌then◌else◌,
  Option, none, some, ok, arith, length, append_assoc, append-nil, length-append, take-append,
  drop-append, ltb, le→leb, is_empty, take, drop,
}
use cinder_http.Limits.{http_max_header_bytes}
use cinder_http.Text.{Bytes, Alloc, has_byte}
use cinder_http.Request.{
  Header, Request, Method, find_header, http_method_to_string, http_request_init,
}
use cinder_http.Parser.Terminator.{http_find_header_terminator}
use cinder_http.Parser.Terminator.First.{find_terminator-append}
use cinder_http.Parser.Framing.{
  split_lf, transfer_encoding, content_length_name, http_inspect_message_framing,
}
use cinder_http.Parser.Message.{
  count_headers, is_some, announced_length, parse_head, finish_request, http_parse_request,
}
use cinder_http.Parser.RoundTrip.{print_headers, request_line, print_head, print_request, FitLines}
use cinder_http.Parser.RoundTrip.Pieces.{is_empty-append-cons}
use cinder_http.Parser.RoundTrip.Framed.{FitsFraming, no_length, exact_length}
use cinder_http.Parser.RoundTrip.Frame.{find_terminator-print_headers}
use cinder_http.Parser.RoundTrip.Head.{IsPrintable, request_line-chars, inspect_ok, parse_head_ok}

module _ (alloc : Alloc) (granted : (n : ℕ) → alloc n ≡ true) where
  announced_ok :
      (r : Request) (body : Bytes)
      → FitsFraming r.headers body
      → announced_length r (find_header content_length_name r.headers) ≡ ok (length body)
  announced_ok r body f = go (find_header content_length_name r.headers) refl
    where
      few : ltb 1 (count_headers content_length_name r.headers) ≡ false
      few = ground (arith, f.one_length)

      go :
          (o : Option Bytes)
          → find_header content_length_name r.headers ≡ o
          → announced_length r o ≡ ok (length body)
      go none e = unfold announced_length in rw (no_length f e)
      go (some v) e = unfold announced_length in rw few (exact_length v f e)

  no_transfer_encoding_found :
      (hs : List Header)
      → count_headers transfer_encoding hs ≡ 0
      → is_some (find_header transfer_encoding hs) ≡ false
  unfolding find_header count_headers is_some
  no_transfer_encoding_found [] e = refl
  no_transfer_encoding_found (h ∷ hs) e = ground (arith, no_transfer_encoding_found hs)

  finish_ok :
      (message head body : Bytes) (r : Request)
      → message ≡ head ++ body
      → FitsFraming r.headers body
      → finish_request alloc message (length head) (length body) r ≡ ok (record r { body = body })
  unfolding finish_request
  finish_ok message head body r e f =
      rw (no_transfer_encoding_found r.headers f.no_transfer_encoding, announced_ok r body f)
        (rw (==_refl (length body))
          (rw (room (length body)) (ap (λ t. ok (record r { body = t })) body_part)))
    where
      body_part : take (length body) (drop (length head) message) ≡ body
      body_part =
          rw (e, drop-append (length head) head body refl)
            (ap (take (length body)) (sym (append-nil body))
              ∙ take-append (length body) body [] refl)

      ==_refl : (n : ℕ) → n == n ≡ true
      ==_refl n = ground arith

      room : (n : ℕ) → (if ltb 0 n then alloc (n + 1) else true) ≡ true
      room n = ground (arith, granted (n + 1))

  -- The parser's steps, each given its answer.
  parse_steps :
      (message : Bytes) (term n : ℕ) (r : Request) {r' : Request}
      → is_empty message ≡ false
      → http_find_header_terminator message ≡ some term
      → term + 4 ≤ http_max_header_bytes
      → http_inspect_message_framing alloc (take (term + 4) message) ≡ ok n
      → length message ≡ term + 4 + n
      → parse_head alloc (split_lf (take (term + 2) message)) ≡ ok r
      → finish_request alloc message (term + 4) n r ≡ ok r'
      → http_parse_request alloc message ≡ ok r'
  unfolding http_parse_request
  parse_steps message term n r some_bytes found fits framed long parsed finished =
      rw (some_bytes, found)
        (rw (le→leb (term + 4) http_max_header_bytes fits, framed)
          (rw (eq→== (length message) (term + 4 + n) long) (rw parsed finished)))
    where
      eq→== : (a b : ℕ) → a ≡ b → a == b ≡ true
      eq→== a b e = ground arith

  -- Where the pieces of a printed request lie.
  found_at :
      (l : Bytes) (hs : List Header) (body : Bytes)
      → has_byte 13 l ≡ false
      → FitLines hs
      → http_find_header_terminator ((l ++ 13 ∷ 10 ∷ print_headers hs) ++ 13 ∷ 10 ∷ body)
        ≡ some (length l + length (print_headers hs))
  found_at l hs body cr fs =
      ap http_find_header_terminator (append_assoc l (13 ∷ 10 ∷ print_headers hs) (13 ∷ 10 ∷ body))
      ∙ find_terminator-append l _ 0 cr
      ∙ find_terminator-print_headers hs body (0 + length l) fs
      ∙ ap some (omega arith)

  -- A printed request is read back whole: a served method, a target and an HTTP/1 version, at most
  -- 100 headers that each fit a line, within the limits on the line and the head, and a body of the
  -- announced length. The parser returns its parts, the headers in their order, when every
  -- allocation is granted.
  pub http_parse_request-print_request :
      (m : Method) (target version : Bytes) (headers : List Header) (body : Bytes)
      → IsPrintable m target version headers body
      → http_parse_request alloc
          (print_request (http_method_to_string m) target version headers body)
        ≡ ok (record {
          method = m;
          target = some target;
          version = some version;
          headers = headers;
          body = body;
        })
  http_parse_request-print_request m target version hs body p =
      let l : Bytes = request_line (http_method_to_string m) target version in
      let (lf, cr) = request_line-chars m target version p.served p.target_chars p.http1 in
      let section : Bytes =
        print_head (http_method_to_string m) target version hs ++ 13 ∷ 10 ∷ [] in
      let term : ℕ = length l + length (print_headers hs) in
      let parsed : Request = record http_request_init {
        method = m;
        target = some target;
        version = some version;
        headers = hs;
      } in
      let head_size : term + 2 ≡ length (print_head (http_method_to_string m) target version hs) =
        omega (arith, length-append l (13 ∷ 10 ∷ print_headers hs)) in
      let size : term + 4 ≡ length section = omega (
        arith,
        head_size,
        length-append (print_head (http_method_to_string m) target version hs) (13 ∷ 10 ∷ []),
      ) in
      let split : print_request (http_method_to_string m) target version hs body ≡ section ++ body =
        sym (
          append_assoc (print_head (http_method_to_string m) target version hs) (13 ∷ 10 ∷ [])
            body) in
      parse_steps (print_request (http_method_to_string m) target version hs body) term
        (length body) parsed
        (is_empty-append-cons (print_head (http_method_to_string m) target version hs) 13
          (10 ∷ body))
        (found_at l hs body cr p.lines) (omega (arith, head_size, p.short_head))
        (rw (split, take-append (term + 4) section body size)
          (inspect_ok alloc granted l hs body lf p.lines p.framing))
        (rw split (omega (arith, length-append section body, size)))
        (rw
          (take-append (term + 2) (print_head (http_method_to_string m) target version hs)
            (13 ∷ 10 ∷ body) head_size)
          (parse_head_ok alloc granted m target version hs body p))
        (rw size (finish_ok _ section body parsed split p.framing))
