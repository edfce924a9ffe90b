-- ===== src/StaticFiles/Decoding.antt =====
-- What `static_files_url_decode` makes of escaped text.
use cinder_http.Prelude.{
  ℕ, suc, ◌+◌, ◌-◌, ◌*◌, ◌/◌, ◌%◌, ◌≤◌, ◌<◌, ◌≡◌, refl, ◌∙◌, Bool, true, false, not, ◌&&◌, ◌||◌, [],
  ◌∷◌, ◌==◌, ltb, if◌then◌else◌, ok, err, arith, all, length, Bool-cases, inl, inr, ◌>>◌, require,
}
use cinder_http.Text.{Bytes, Alloc, has_byte}
use cinder_http.StaticFiles.Errors.{Static, bad_target, out_of_memory}
use cinder_http.StaticFiles.Paths.{is_hex, hex_value, cons_byte, decode, static_files_url_decode}

hex_digit : ℕ → ℕ
hex_digit n = if ltb n 10 then b'0' + n else b'A' + (n - 10)

-- Text with the bytes that `escaped` picks written as escapes.
pub percent_encode : (ℕ → Bool) → Bytes → Bytes
percent_encode escaped [] = []
percent_encode escaped (c ∷ cs) =
    let rest = percent_encode escaped cs in
    if escaped c then b'%' ∷ hex_digit (c / 16) ∷ hex_digit (c % 16) ∷ rest else c ∷ rest

hex_digit_lem : (n : ℕ) → n < 16 → (is_hex (hex_digit n) ≡ true) × (hex_value (hex_digit n) ≡ n)
unfolding hex_digit is_hex hex_value
hex_digit_lem n h = ground arith

decode_plain : (c : ℕ) (cs : Bytes) → c == b'%' ≡ false → decode (c ∷ cs) ≡ cons_byte c (decode cs)
unfolding decode
decode_plain c [] e = rw e
decode_plain c (a ∷ []) e = rw e
decode_plain c (a ∷ b ∷ cs) e = rw e

decode_escape :
    (a b : ℕ) (cs : Bytes)
    → is_hex a ≡ true
    → is_hex b ≡ true
    → hex_value a * 16 + hex_value b == 0 ≡ false
    → decode (b'%' ∷ a ∷ b ∷ cs) ≡ cons_byte (hex_value a * 16 + hex_value b) (decode cs)
unfolding decode
decode_escape a b cs ha hb nz = rw (ha, hb, nz)

abbrev pub is_text_byte : ℕ → Bool
is_text_byte c = ltb 0 c && ltb c 256

decode-encode :
    (escaped : ℕ → Bool) (s : Bytes)
    → escaped b'%' ≡ true
    → all is_text_byte s ≡ true
    → decode (percent_encode escaped s) ≡ ok s
unfolding percent_encode
decode-encode escaped [] p h = unfold decode in refl
decode-encode escaped (c ∷ cs) p h = elim (Bool-cases (escaped c)) [
  | inl e ↦
      let (hi, hi_value) = hex_digit_lem (c / 16) (ground arith) in
      let (lo, lo_value) = hex_digit_lem (c % 16) (omega arith) in
      let value : hex_value (hex_digit (c / 16)) * 16 + hex_value (hex_digit (c % 16)) ≡ c =
        omega (arith, hi_value, lo_value) in
      rw e (
        decode_escape _ _ (percent_encode escaped cs) hi lo (rw value (ground arith))
        ∙ rw (value, decode-encode escaped cs p (ground arith)))
  | inr e ↦
      rw e (decode_plain c _ (not_percent c e) ∙ rw (decode-encode escaped cs p (ground arith)))
]
  where
    not_percent : (x : ℕ) → escaped x ≡ false → x == b'%' ≡ false
    not_percent x e = ground (arith, e, p)

-- Decoding undoes any percent-encoding that escapes at least the percent sign, for text without
-- NUL, when the buffer is granted.
pub url_decode-percent_encode :
    (alloc : Alloc) (escaped : ℕ → Bool) (s : Bytes)
    → alloc (length (percent_encode escaped s) + 1) ≡ true
    → escaped b'%' ≡ true
    → all is_text_byte s ≡ true
    → static_files_url_decode alloc (percent_encode escaped s) ≡ ok s
unfolding static_files_url_decode
url_decode-percent_encode alloc escaped s a p h = rw a (decode-encode escaped s p h)

-- What is decoded fits the buffer and has no NUL.
abbrev pub Fits : ℕ → Static Bytes → Type 0
Fits n (ok out) = (length out ≤ n) × (has_byte 0 out ≡ false)
Fits n (err e) = Unit {0}

Fits-cons : (c n : ℕ) (r : Static Bytes) → c == 0 ≡ false → Fits n r → Fits (suc n) (cons_byte c r)
unfolding has_byte
Fits-cons c n (ok out) e f = (omega (arith, f.0), ground (arith, f.1))
Fits-cons c n (err x) e f = tt

Fits-weaken : (n m : ℕ) (r : Static Bytes) → n ≤ m → Fits n r → Fits m r
Fits-weaken n m (ok out) le f = (omega (arith, f.0), f.1)
Fits-weaken n m (err x) le f = tt

decode-Fits : (s : Bytes) → has_byte 0 s ≡ false → Fits (length s) (decode s)
unfolding decode has_byte
decode-Fits [] h = (omega arith, refl)
decode-Fits (c ∷ []) h = elim (Bool-cases (c == b'%')) [
  | inl e ↦ rw e tt
  | inr e ↦ rw e (omega arith, ground arith)
]
decode-Fits (c ∷ a ∷ []) h = elim (Bool-cases (c == b'%')) [
  | inl e ↦ rw e tt
  | inr e ↦
      rw e (Fits-cons c 1 (decode (a ∷ [])) (ground arith) (decode-Fits (a ∷ []) (ground arith)))
]
decode-Fits (c ∷ a ∷ b ∷ cs) h = elim (Bool-cases (c == b'%')) [
  | inl e ↦ rw e (
      escaped (not (is_hex a) || not (is_hex b) || hex_value a * 16 + hex_value b == 0) refl
        (decode-Fits cs (ground arith)))
  | inr e ↦ rw e (
      Fits-cons c (suc (suc (length cs))) (decode (a ∷ b ∷ cs)) (ground arith)
        (decode-Fits (a ∷ b ∷ cs) (ground arith)))
]
  where
    decoded : ℕ
    decoded = hex_value a * 16 + hex_value b

    escaped :
        (t : Bool)
        → (not (is_hex a) || not (is_hex b) || decoded == 0) ≡ t
        → Fits (length cs) (decode cs)
        → Fits
            (suc (suc (suc (length cs))))
            (if t then err bad_target else cons_byte decoded (decode cs))
    escaped true e ih = tt
    escaped false e ih =
        Fits-weaken (suc (length cs)) (suc (suc (suc (length cs)))) (cons_byte decoded (decode cs))
          (omega arith) (Fits-cons decoded (length cs) (decode cs) (ground arith) ih)

-- The decoded path never outgrows the buffer of the input's size, and never holds a NUL that would
-- cut it short, whatever the input.
pub url_decode-Fits :
    (alloc : Alloc) (s : Bytes) {out : Bytes}
    → has_byte 0 s ≡ false
    → static_files_url_decode alloc s ≡ ok out
    → (length out ≤ length s) × (has_byte 0 out ≡ false)
unfolding static_files_url_decode
url_decode-Fits alloc s {out} h e = go (decode s) (decode-Fits s h) e
  where
    go :
        (r : Static Bytes)
        → Fits (length s) r
        → (require (alloc (length s + 1)) out_of_memory >> r) ≡ ok out
        → (length out ≤ length s) × (has_byte 0 out ≡ false)
    go (ok x) f k = ground arith
    go (err x) f k = ground arith
