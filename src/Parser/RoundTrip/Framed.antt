-- ===== src/Parser/RoundTrip/Framed.antt =====
-- The framing loop of src/http_parser.c on the headers of a printed request.
use cinder_http.Prelude.{
  subst, ℕ, ◌≡◌, ◌≢◌, ◌≤◌, refl, ap, ◌∙◌, true, false, List, [], ◌∷◌, ◌++◌, Option, none, some, ok,
  err, ◌>>=◌, require, arith, length, inl, inr, Bool-cases,
}
use cinder_http.Text.{Bytes, Alloc, has_byte, strcmp_eq, header_name_equal}
use cinder_http.Text.Laws.{memchr-append, dup_range_ok}
use cinder_http.Request.{Header, find_header}
use cinder_http.Parser.Errors.{Parsed, out_of_memory}
use cinder_http.Parser.ContentLength.{http_parse_content_length_value}
use cinder_http.Parser.Framing.{
  Lines, line, split_lf, Framing, transfer_encoding, content_length_name, inspect_field,
  inspect_line, inspect_lines,
}
use cinder_http.Parser.Framing.LineLaws.{strip_cr-concat}
use cinder_http.Parser.Message.{count_headers}
use cinder_http.Parser.RoundTrip.{header_line, print_headers, FitsLine, FitLines}
use cinder_http.Parser.RoundTrip.Pieces.{
  has_byte-line_char, has_byte-field_name, is_empty_ne, skip_ows-space,
}
use cinder_http.Parser.RoundTrip.Frame.{header_line-chars, print_headers-lines}

-- What the framing loop makes of the headers one by one.
pub frame_headers : Framing → List Header → Parsed Framing
frame_headers st [] = ok st
frame_headers st (h ∷ hs) = do st' ← inspect_field st h.name h.value; frame_headers st' hs

module _ (alloc : Alloc) (granted : (n : ℕ) → alloc n ≡ true) where
  inspect_line_ok :
      (st : Framing) (h : Header)
      → FitsLine h
      → inspect_line alloc st (header_line h) ≡ inspect_field st h.name h.value
  unfolding inspect_line
  inspect_line_ok st h f =
      let (line_name, colon, name) = has_byte-field_name h.name f.name_chars in
      let (zero_name, _, _) = has_byte-line_char h.name line_name in
      let (zero_value, _, _) = has_byte-line_char h.value f.value_chars in
      rw (
        memchr-append b':' h.name (b' ' ∷ h.value) colon,
        is_empty_ne h.name f.name_ne_nil,
        dup_range_ok alloc out_of_memory h.name (granted _) zero_name,
        skip_ows-space h.value,
        f.no_left_blank,
        f.no_right_blank,
        dup_range_ok alloc out_of_memory h.value (granted _) zero_value,
      )

  not_last : (h : Header) → FitsLine h → strcmp_eq (header_line h ++ 13 ∷ []) (13 ∷ []) ≡ false
  unfolding strcmp_eq has_byte
  not_last h f = go h.name (b':' ∷ b' ' ∷ h.value) f.name_ne_nil ((header_line-chars h f).1)
    where
      go :
          (n v : Bytes)
          → n ≢ []
          → has_byte 13 (n ++ v) ≡ false
          → strcmp_eq ((n ++ v) ++ 13 ∷ []) (13 ∷ []) ≡ false
      go [] v ne e = absurd (ne refl)
      go (x ∷ xs) v ne e = ground arith

  inspect_lines-step :
      (st : Framing) (h : Header) (rest : Lines)
      → FitsLine h
      → inspect_lines alloc st (line (header_line h ++ 13 ∷ []) rest)
        ≡ (inspect_field st h.name h.value >>= λ st'. inspect_lines alloc st' rest)
  unfolding inspect_lines
  inspect_lines-step st h rest f =
      rw (not_last h f, inspect_lines)
        (rw (strip_cr-concat (header_line h)) (rw (inspect_line_ok st h f)))

  inspect_lines-end : (st : Framing) → inspect_lines alloc st (split_lf (13 ∷ 10 ∷ [])) ≡ ok st
  unfolding inspect_lines split_lf strcmp_eq
  inspect_lines-end st = refl

  bind_path :
      (m : Parsed Framing) (f g : Framing → Parsed Framing)
      → ((st : Framing) → f st ≡ g st)
      → (m >>= f) ≡ (m >>= g)
  bind_path (ok st) f g h = h st
  bind_path (err e) f g h = refl

  pub inspect_lines_ok :
      (hs : List Header) (st : Framing)
      → FitLines hs
      → inspect_lines alloc st (split_lf (print_headers hs ++ 13 ∷ 10 ∷ [])) ≡ frame_headers st hs
  unfolding frame_headers
  inspect_lines_ok [] st f = unfold print_headers in inspect_lines-end st
  inspect_lines_ok (h ∷ hs) st (f, fs) =
      ap (inspect_lines alloc st) (print_headers-lines h hs (13 ∷ 10 ∷ []) f)
      ∙ inspect_lines-step st h _ f
      ∙ bind_path (inspect_field st h.name h.value) _ _ (λ st'. inspect_lines_ok hs st' fs)

-- One Content-Length at most, its value the body's length; no Transfer-Encoding.
-- The body that goes with the Content-Length, if there is one.
abbrev pub FitsLength : Option Bytes → Bytes → Type 0
FitsLength none body = body ≡ []
FitsLength (some v) body = http_parse_content_length_value v ≡ ok (length body)

pub record FitsFraming (headers : List Header) (body : Bytes) : Type 0 where
  pub no_transfer_encoding : count_headers transfer_encoding headers ≡ 0
  pub one_length : count_headers content_length_name headers ≤ 1
  pub fits_length : FitsLength (find_header content_length_name headers) body

pub no_length :
    {headers : List Header} {body : Bytes}
    → FitsFraming headers body
    → find_header content_length_name headers ≡ none
    → body ≡ []
no_length {body = body} f e = subst (λ o. FitsLength o body) e f.fits_length

pub exact_length :
    {headers : List Header} {body : Bytes} (v : Bytes)
    → FitsFraming headers body
    → find_header content_length_name headers ≡ some v
    → http_parse_content_length_value v ≡ ok (length body)
exact_length {body = body} v f e = subst (λ o. FitsLength o body) e f.fits_length

inspect_field-other :
    (st : Framing) (h : Header)
    → header_name_equal h.name transfer_encoding ≡ false
    → header_name_equal h.name content_length_name ≡ false
    → inspect_field st h.name h.value ≡ ok st
unfolding inspect_field
inspect_field-other st h a b = rw (a, inspect_field) (rw b)

inspect_field-length :
    (st : Framing) (h : Header) (n : ℕ)
    → header_name_equal h.name transfer_encoding ≡ false
    → header_name_equal h.name content_length_name ≡ true
    → http_parse_content_length_value h.value ≡ ok n
    → st.saw_content_length ≡ false
    → inspect_field st h.name h.value
      ≡ ok (record st { saw_content_length = true; content_length = n })
unfolding inspect_field
inspect_field-length st h n a b c d = rw (a, inspect_field) (rw b (rw c (rw (d, require))))

pub count-find_none :
    (name : Bytes) (hs : List Header) → find_header name hs ≡ none → count_headers name hs ≡ 0
unfolding find_header count_headers
count-find_none name [] e = refl
count-find_none name (h ∷ hs) e = ground (arith, count-find_none name hs)

pub frame_headers-none :
    (st : Framing) (hs : List Header)
    → count_headers transfer_encoding hs ≡ 0
    → count_headers content_length_name hs ≡ 0
    → frame_headers st hs ≡ ok st
unfolding frame_headers count_headers
frame_headers-none st [] t c = refl
frame_headers-none st (h ∷ hs) t c =
    rw (inspect_field-other st h (ground arith) (ground arith))
      (frame_headers-none st hs (ground arith) (ground arith))

pub frame_headers-some :
    (st : Framing) (hs : List Header) (v : Bytes) (n : ℕ)
    → count_headers transfer_encoding hs ≡ 0
    → count_headers content_length_name hs ≤ 1
    → st.saw_content_length ≡ false
    → find_header content_length_name hs ≡ some v
    → http_parse_content_length_value v ≡ ok n
    → frame_headers st hs ≡ ok (record st { saw_content_length = true; content_length = n })
unfolding frame_headers count_headers find_header
frame_headers-some st [] v n t c s e p = cc
frame_headers-some st (h ∷ hs) v n t c s e p =
    elim (Bool-cases (header_name_equal h.name content_length_name)) [
      | inl b ↦
          let same : h.value ≡ v = ground arith in
          let parsed : http_parse_content_length_value h.value ≡ ok n =
            ap http_parse_content_length_value same ∙ p in
          rw (inspect_field-length st h n (ground arith) b parsed s)
            (frame_headers-none _ hs (ground arith) (ground arith))
      | inr b ↦
          rw (inspect_field-other st h (ground arith) b)
            (frame_headers-some st hs v n (ground arith) (ground arith) s (ground arith) p)
    ]
