-- ===== src/Parser/RoundTrip/Pieces.antt =====
-- The parser's functions on one line, and on the lines of the headers.
use cinder_http.Prelude.{
  ℕ, ◌+◌, ◌*◌, ◌≡◌, ◌≢◌, ◌<◌, refl, true, false, [], ◌∷◌, ◌++◌, ok, arith, length, all, is_empty,
}
use cinder_http.Limits.{http_max_headers}
use cinder_http.Text.{Bytes, Alloc, has_byte, skip_ows}
use cinder_http.Text.Laws.{memchr-append, dup_range_ok}
use cinder_http.Request.{Header, Request}
use cinder_http.Parser.Errors.{out_of_memory}
use cinder_http.Parser.HeaderLine.{is_name_char, append_header, header_fields, parse_header_line}
use cinder_http.Parser.RoundTrip.{
  is_line_char, is_field_name_char, is_target_char, header_line, FitsLine,
}

pub has_byte-line_char :
    (xs : Bytes)
    → all is_line_char xs ≡ true
    → (has_byte 0 xs ≡ false) × (has_byte 10 xs ≡ false) × (has_byte 13 xs ≡ false)
unfolding has_byte
has_byte-line_char [] h = (refl, refl, refl)
has_byte-line_char (x ∷ xs) h = ground (arith, has_byte-line_char xs)

pub has_byte-field_name :
    (xs : Bytes)
    → all is_field_name_char xs ≡ true
    → (all is_line_char xs ≡ true) × (has_byte b':' xs ≡ false) × (all is_name_char xs ≡ true)
unfolding has_byte
has_byte-field_name [] h = (refl, refl, refl)
has_byte-field_name (x ∷ xs) h = ground (arith, has_byte-field_name xs)

pub has_byte-target :
    (xs : Bytes)
    → all is_target_char xs ≡ true
    → (all is_line_char xs ≡ true) × (has_byte b' ' xs ≡ false)
unfolding has_byte
has_byte-target [] h = (refl, refl)
has_byte-target (x ∷ xs) h = ground (arith, has_byte-target xs)

pub is_empty_ne : (xs : Bytes) → xs ≢ [] → is_empty xs ≡ false
is_empty_ne [] h = absurd (h refl)
is_empty_ne (x ∷ xs) h = refl

pub is_empty-append-cons : (xs : Bytes) (c : ℕ) (ys : Bytes) → is_empty (xs ++ c ∷ ys) ≡ false
is_empty-append-cons [] c ys = refl
is_empty-append-cons (x ∷ xs) c ys = refl

pub skip_ows-space : (xs : Bytes) → skip_ows (b' ' ∷ xs) ≡ skip_ows xs
unfolding skip_ows
skip_ows-space xs = refl

-- The copies that a line's parsing makes are all granted.
module _ (alloc : Alloc) (granted : (n : ℕ) → alloc n ≡ true) where
  pub append_header_ok :
      (r : Request) (h : Header)
      → length r.headers < http_max_headers
      → append_header alloc r h.name h.value ≡ ok (record r { headers = r.headers ++ h ∷ [] })
  unfolding append_header
  append_header_ok r h lt = ground (arith, granted ((length r.headers + 1) * 16))

  -- A header line that fits is appended as it is.
  pub parse_header_line_ok :
      (r : Request) (h : Header)
      → FitsLine h
      → length r.headers < http_max_headers
      → parse_header_line alloc (header_line h) r ≡ ok (record r { headers = r.headers ++ h ∷ [] })
  unfolding parse_header_line header_fields
  parse_header_line_ok r h f lt =
      let (line_name, colon, name) = has_byte-field_name h.name f.name_chars in
      let (zero_name, _, _) = has_byte-line_char h.name line_name in
      let (zero_value, _, _) = has_byte-line_char h.value f.value_chars in
      rw
        (
          is_empty-append-cons h.name b':' (b' ' ∷ h.value),
          memchr-append b':' h.name (b' ' ∷ h.value) colon,
          is_empty_ne h.name f.name_ne_nil,
          name,
          dup_range_ok alloc out_of_memory h.name (granted _) zero_name,
          skip_ows-space h.value,
          f.no_left_blank,
          f.no_right_blank,
          zero_value,
          dup_range_ok alloc out_of_memory h.value (granted _) zero_value,
        )
        (append_header_ok r h lt)
