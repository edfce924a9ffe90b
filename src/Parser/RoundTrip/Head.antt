-- ===== src/Parser/RoundTrip/Head.antt =====
-- The framing and the head of a printed request, as src/http_parser.c reads them.
use cinder_http.Prelude.{
  ℕ, ◌+◌, ◌-◌, ◌≡◌, ◌≢◌, ◌≤◌, refl, sym, ap, ◌∙◌, true, false, List, [], ◌∷◌, ◌++◌, Option, none,
  some, ok, ◌>>=◌, arith, length, all, append_assoc, length-append, drop-append, leb, drop,
}
use cinder_http.Limits.{http_max_headers, http_max_request_line, http_max_header_bytes}
use cinder_http.Text.{Bytes, Alloc, has_byte, strcmp_eq}
use cinder_http.Text.Laws.{has_byte-append, strcmp_eq_iff}
use cinder_http.Request.{Header, Method, find_header, http_method_to_string, http_request_init}
use cinder_http.Parser.Terminator.{crlf_crlf}
use cinder_http.Parser.Framing.{
  line, split_lf, no_framing, content_length_name, inspect_after_request_line, body_length_of,
  http_inspect_message_framing,
}
use cinder_http.Parser.Framing.LineLaws.{strip_cr-concat}
use cinder_http.Parser.Message.{parse_head}
use cinder_http.Parser.RoundTrip.{
  is_target_char, header_line, print_headers, request_line, print_head, FitLines,
}
use cinder_http.Parser.RoundTrip.Pieces.{has_byte-line_char, has_byte-target}
use cinder_http.Parser.RoundTrip.Framed.{
  frame_headers, inspect_lines_ok, frame_headers-none, frame_headers-some, count-find_none,
  FitsFraming, no_length, exact_length,
}
use cinder_http.Parser.RoundTrip.Frame.{
  method_chars, version_chars, IsServed, IsHttp1, split_lf-line, parse_header_lines_ok,
  parse_request_line_ok,
}

-- What a request must be for its printed form to be accepted.
pub record IsPrintable (m : Method) (target version : Bytes) (headers : List Header) (body : Bytes)
    : Type 0 where
  pub served : IsServed m
  pub target_ne_nil : target ≢ []
  pub target_chars : all is_target_char target ≡ true
  pub http1 : IsHttp1 version
  pub lines : FitLines headers
  pub few_headers : length headers ≤ http_max_headers
  pub short_line :
      length (request_line (http_method_to_string m) target version) ≤ http_max_request_line
  pub short_head :
      length (print_head (http_method_to_string m) target version headers) + 2
      ≤ http_max_header_bytes
  pub framing : FitsFraming headers body

-- The text of a head ends in a line end.
pub head_end :
    (l : Bytes) (hs : List Header)
    → (pre : Bytes) × (l ++ 13 ∷ 10 ∷ print_headers hs ≡ pre ++ 13 ∷ 10 ∷ [])
unfolding print_headers
head_end l [] = (l, refl)
head_end l (h ∷ hs) =
    let (pre, e) = head_end (l ++ 13 ∷ 10 ∷ header_line h) hs in
    (pre, sym (append_assoc l (13 ∷ 10 ∷ header_line h) (13 ∷ 10 ∷ print_headers hs)) ∙ e)

pub ends_in_terminator :
    (l : Bytes) (hs : List Header)
    → let header = (l ++ 13 ∷ 10 ∷ print_headers hs) ++ 13 ∷ 10 ∷ [] in
      (leb 4 (length header) ≡ true)
      × (strcmp_eq (drop (length header - 4) header) crlf_crlf ≡ true)
ends_in_terminator l hs =
    let (pre, e) = head_end l hs in
    let whole : (l ++ 13 ∷ 10 ∷ print_headers hs) ++ 13 ∷ 10 ∷ [] ≡ pre ++ crlf_crlf =
      ap (λ t. t ++ 13 ∷ 10 ∷ []) e ∙ append_assoc pre (13 ∷ 10 ∷ []) (13 ∷ 10 ∷ []) in
    rw whole (at_end pre)
  where
    at_end :
        (pre : Bytes)
        → (leb 4 (length (pre ++ crlf_crlf)) ≡ true)
          × (strcmp_eq (drop (length (pre ++ crlf_crlf) - 4) (pre ++ crlf_crlf)) crlf_crlf ≡ true)
    at_end pre = (
      ground (arith, length-append pre crlf_crlf),
      (strcmp_eq_iff _ _).1 (
          drop-append (length (pre ++ crlf_crlf) - 4) pre crlf_crlf
            (omega (arith, length-append pre crlf_crlf))),
    )

pub request_line-chars :
    (m : Method) (target version : Bytes)
    → IsServed m
    → all is_target_char target ≡ true
    → IsHttp1 version
    → let l = request_line (http_method_to_string m) target version in
      (has_byte 10 l ≡ false) × (has_byte 13 l ≡ false)
unfolding has_byte
request_line-chars m target version s chars v =
    let (target_line, _) = has_byte-target target chars in
    let (_, lf, cr) = has_byte-line_char target target_line in
    let (m_lf, m_cr) = method_chars m s in
    let (v_lf, v_cr) = version_chars version v in
    let t = http_method_to_string m in
    let rest = target ++ b' ' ∷ version in
    (
      rw (
        has_byte-append 10 t (b' ' ∷ rest),
        m_lf,
        has_byte-append 10 target (b' ' ∷ version),
        lf,
        v_lf,
      ),
      rw (
        has_byte-append 13 t (b' ' ∷ rest),
        m_cr,
        has_byte-append 13 target (b' ' ∷ version),
        cr,
        v_cr,
      ),
    )

module _ (alloc : Alloc) (granted : (n : ℕ) → alloc n ≡ true) where
  framing_ok :
      (hs : List Header) (body : Bytes)
      → FitsFraming hs body
      → (frame_headers no_framing hs >>= body_length_of) ≡ ok (length body)
  framing_ok hs body f = go (find_header content_length_name hs) refl
    where
      go :
          (r : Option Bytes)
          → find_header content_length_name hs ≡ r
          → (frame_headers no_framing hs >>= body_length_of) ≡ ok (length body)
      go none e =
          rw (frame_headers-none no_framing hs f.no_transfer_encoding (count-find_none _ hs e))
            (rw (no_length f e))
      go (some v) e = rw (
          frame_headers-some no_framing hs v (length body) f.no_transfer_encoding f.one_length refl
            e (exact_length v f e))

  pub inspect_ok :
      (l : Bytes) (hs : List Header) (body : Bytes)
      → has_byte 10 l ≡ false
      → FitLines hs
      → FitsFraming hs body
      → http_inspect_message_framing alloc ((l ++ 13 ∷ 10 ∷ print_headers hs) ++ 13 ∷ 10 ∷ [])
        ≡ ok (length body)
  unfolding http_inspect_message_framing inspect_after_request_line
  inspect_ok l hs body lf fs f =
      let (long, last) = ends_in_terminator l hs in
      let lines : split_lf ((l ++ 13 ∷ 10 ∷ print_headers hs) ++ 13 ∷ 10 ∷ [])
          ≡ line (l ++ 13 ∷ []) (split_lf (print_headers hs ++ 13 ∷ 10 ∷ [])) =
        ap split_lf (append_assoc l (13 ∷ 10 ∷ print_headers hs) (13 ∷ 10 ∷ []))
        ∙ split_lf-line l _ lf in
      rw (long, last, lines, strip_cr-concat l, inspect_lines_ok alloc granted hs no_framing fs)
        (framing_ok hs body f)

  pub parse_head_ok :
      (m : Method) (target version : Bytes) (hs : List Header) (body : Bytes)
      → IsPrintable m target version hs body
      → parse_head alloc (split_lf (print_head (http_method_to_string m) target version hs))
        ≡ ok (record http_request_init {
          method = m;
          target = some target;
          version = some version;
          headers = hs;
        })
  unfolding parse_head
  parse_head_ok m target version hs body p =
      let l = request_line (http_method_to_string m) target version in
      let (lf, _) = request_line-chars m target version p.served p.target_chars p.http1 in
      rw
        (
          split_lf-line l (print_headers hs) lf,
          strip_cr-concat l,
          parse_request_line_ok alloc granted m target version http_request_init p.served
              p.target_ne_nil p.target_chars p.http1 p.short_line,
        )
        (parse_header_lines_ok alloc granted hs
          (record http_request_init { method = m; target = some target; version = some version })
          p.lines (omega (arith, p.few_headers)))
