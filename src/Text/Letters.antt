-- ===== src/Text/Letters.antt =====
-- Letters of either case and the white space round a text, apart from the routines of the sources.
use cinder_http.Prelude.{
  ℕ, ◌+◌, ◌≡◌, refl, ap, ap₂, ◌∙◌, Bool, true, false, not, ◌&&◌, ◌||◌, [], ◌∷◌, ◌++◌, ◌==◌, leb,
  arith, all, Bool-cases, ◌⊎◌, inl, inr,
}
use cinder_http.Text.{
  Bytes, ascii_tolower, header_name_equal, is_ows, skip_ows, keep_before, trim_ows_end,
}

abbrev pub is_capital : ℕ → Bool
is_capital c = leb 65 c && leb c 90

-- The same letter in either case, or the same byte.
abbrev pub same_letter : ℕ → ℕ → Bool
same_letter a b = a == b || is_capital a && a + 32 == b || is_capital b && b + 32 == a

unfoldable pub same_name : Bytes → Bytes → Bool
same_name [] [] = true
same_name (x ∷ xs) (y ∷ ys) = same_letter x y && same_name xs ys
same_name _ _ = false

ascii_tolower-same_letter : (a b : ℕ) → (ascii_tolower a == ascii_tolower b) ≡ same_letter a b
unfolding ascii_tolower
ascii_tolower-same_letter a b = ground arith

pub header_name_equal-same_name : (xs ys : Bytes) → header_name_equal xs ys ≡ same_name xs ys
unfolding header_name_equal same_name
header_name_equal-same_name [] [] = refl
header_name_equal-same_name [] (y ∷ ys) = refl
header_name_equal-same_name (x ∷ xs) [] = refl
header_name_equal-same_name (x ∷ xs) (y ∷ ys) =
    ap₂ ◌&&◌ (ascii_tolower-same_letter x y) (header_name_equal-same_name xs ys)

-- Spaces and tabs.
abbrev pub is_blank : ℕ → Bool
is_blank c = c == 32 || c == 9

abbrev pub begins_dark : Bytes → Bool
begins_dark [] = true
begins_dark (c ∷ cs) = not (is_blank c)

abbrev pub ends_dark : Bytes → Bool
ends_dark [] = true
ends_dark (c ∷ []) = not (is_blank c)
ends_dark (c ∷ d ∷ cs) = ends_dark (d ∷ cs)

-- White space, a text that neither begins nor ends with such, and white space.
pub record IsTrimmed (s core : Bytes) : Type 0 where
  pub left : Bytes
  pub right : Bytes
  pub whole : s ≡ left ++ (core ++ right)
  pub blank_left : all is_blank left ≡ true
  pub blank_right : all is_blank right ≡ true
  pub begins : begins_dark core ≡ true
  pub ends : ends_dark core ≡ true

record Skipped (s : Bytes) : Type 0 where
  left : Bytes
  whole : s ≡ left ++ skip_ows s
  blank : all is_blank left ≡ true
  begins : begins_dark (skip_ows s) ≡ true

skip_ows-Skipped : (s : Bytes) → Skipped s
unfolding skip_ows
skip_ows-Skipped [] = record { left = []; whole = refl; blank = refl; begins = refl }
skip_ows-Skipped (c ∷ cs) = elim (Bool-cases (is_ows c)) [
  | inl white ↦
      let k = skip_ows-Skipped cs in
      record {
        left = c ∷ k.left;
        whole = rw white (ap (◌∷◌ c) k.whole);
        blank = rw white k.blank;
        begins = rw white k.begins;
      }
  | inr dark ↦ record {
    left = [];
    whole = rw dark refl;
    blank = refl;
    begins = rw dark (ap not dark);
  }
]

record Cut (s t : Bytes) : Type 0 where
  right : Bytes
  whole : s ≡ t ++ right
  blank : all is_blank right ≡ true
  ends : ends_dark t ≡ true
  begins : begins_dark s ≡ true → begins_dark t ≡ true

trim_ows_end-Cut : (s : Bytes) → Cut s (trim_ows_end s)
unfolding trim_ows_end
trim_ows_end-Cut [] = record {
  right = [];
  whole = refl;
  blank = refl;
  ends = refl;
  begins = λ h. h;
}
trim_ows_end-Cut (c ∷ cs) = go (trim_ows_end cs) (trim_ows_end-Cut cs) (Bool-cases (is_ows c))
  where
    go :
        (t : Bytes)
        → Cut cs t
        → (is_ows c ≡ true) ⊎ (is_ows c ≡ false)
        → Cut (c ∷ cs) (keep_before c t)
    go (d ∷ t) k h = record {
      right = k.right;
      whole = ap (◌∷◌ c) k.whole;
      blank = k.blank;
      ends = k.ends;
      begins = λ b. b;
    }
    go [] k (inl white) = rw white (record {
      right = c ∷ k.right;
      whole = ap (◌∷◌ c) k.whole;
      blank = rw white k.blank;
      ends = refl;
      begins = λ b. refl;
    })
    go [] k (inr dark) = rw dark (record {
      right = k.right;
      whole = ap (◌∷◌ c) k.whole;
      blank = k.blank;
      ends = ap not dark;
      begins = λ b. b;
    })

pub trim_ows_end-IsTrimmed : (s : Bytes) → IsTrimmed s (trim_ows_end (skip_ows s))
trim_ows_end-IsTrimmed s =
    let k = skip_ows-Skipped s in
    let t = trim_ows_end-Cut (skip_ows s) in
    record {
      left = k.left;
      right = t.right;
      whole = k.whole ∙ ap (λ x. k.left ++ x) t.whole;
      blank_left = k.blank;
      blank_right = t.blank;
      begins = t.begins k.begins;
      ends = t.ends;
    }

skip_blank :
    (left rest : Bytes) → all is_blank left ≡ true → skip_ows (left ++ rest) ≡ skip_ows rest
unfolding skip_ows
skip_blank [] rest h = refl
skip_blank (c ∷ cs) rest h = ground (arith, skip_blank cs rest)

skip_dark : (c : ℕ) (cs : Bytes) → not (is_blank c) ≡ true → skip_ows (c ∷ cs) ≡ c ∷ cs
unfolding skip_ows
skip_dark c cs h = ground arith

trim_blank : (right : Bytes) → all is_blank right ≡ true → trim_ows_end right ≡ []
unfolding trim_ows_end
trim_blank [] h = refl
trim_blank (c ∷ cs) h =
    let white : is_ows c ≡ true = ground arith in
    let more : all is_blank cs ≡ true = ground arith in
    ap (keep_before c) (trim_blank cs more) ∙ rw white refl

trim_dark :
    (c : ℕ) (cs right : Bytes)
    → ends_dark (c ∷ cs) ≡ true
    → all is_blank right ≡ true
    → trim_ows_end (c ∷ cs ++ right) ≡ c ∷ cs
unfolding trim_ows_end
trim_dark c [] right h b =
    let dark : is_ows c ≡ false = ground arith in
    ap (keep_before c) (trim_blank right b) ∙ rw dark refl
trim_dark c (d ∷ cs) right h b = ap (keep_before c) (trim_dark d cs right h b)

pub IsTrimmed-trim_ows_end :
    (s : Bytes) (c : ℕ) (cs : Bytes) → IsTrimmed s (c ∷ cs) → trim_ows_end (skip_ows s) ≡ c ∷ cs
IsTrimmed-trim_ows_end s c cs t =
    ap (λ x. trim_ows_end (skip_ows x)) t.whole
    ∙ ap trim_ows_end
        (skip_blank t.left (c ∷ cs ++ t.right) t.blank_left ∙ skip_dark c (cs ++ t.right) t.begins)
    ∙ trim_dark c cs t.right t.ends t.blank_right
