-- ===== src/Text/Laws.antt =====
-- Laws of the string routines.
use cinder_http.Prelude.{
  ℕ, ◌+◌, ◌≡◌, refl, Bool, true, false, not, ◌||◌, [], ◌∷◌, ◌++◌, ◌==◌, if◌then◌else◌, some, none,
  Option, arith, all, ◌↔◌, length, ok,
}
use cinder_http.Text.{
  Bytes, Alloc, strcmp_eq, c_string, cons_before, memchr, has_byte, skip_ows, keep_before,
  trim_ows_end, dup_range,
}

-- No byte of the list is `c`.
abbrev pub lacks : ℕ → Bytes → Bool
lacks c = all (λ x. not (x == c))

pub has_byte-lacks : (c : ℕ) (xs : Bytes) → has_byte c xs ≡ not (lacks c xs)
unfolding has_byte
has_byte-lacks c [] = refl
has_byte-lacks c (x ∷ xs) = ground (arith, has_byte-lacks c xs)

pub has_byte-append :
    (c : ℕ) (xs ys : Bytes) → has_byte c (xs ++ ys) ≡ (has_byte c xs || has_byte c ys)
unfolding has_byte
has_byte-append c [] ys = refl
has_byte-append c (x ∷ xs) ys = ground (arith, has_byte-append c xs ys)

pub c_string_id : (xs : Bytes) → has_byte 0 xs ≡ false → c_string xs ≡ xs
unfolding has_byte c_string
c_string_id [] h = refl
c_string_id (x ∷ xs) h = ground (arith, c_string_id xs)

pub c_string-nonzero : (xs : Bytes) → has_byte 0 (c_string xs) ≡ false
unfolding has_byte c_string
c_string-nonzero [] = refl
c_string-nonzero (x ∷ xs) = ground (arith, c_string-nonzero xs)

pub dup_range_ok :
    {E : Type 0} (alloc : Alloc) (oom : E) (xs : Bytes)
    → alloc (length xs + 1) ≡ true
    → has_byte 0 xs ≡ false
    → dup_range alloc oom xs ≡ ok xs
unfolding dup_range
dup_range_ok alloc oom xs a h = ground (arith, c_string_id xs h)

pub dup_range-eq-ok :
    {E : Type 0} (alloc : Alloc) (oom : E) (xs : Bytes) {s : Bytes}
    → dup_range alloc oom xs ≡ ok s
    → s ≡ c_string xs
unfolding dup_range
dup_range-eq-ok alloc oom xs h = ground arith

-- What stands before the first `c` lacks it, and the three pieces make up the text.
pub memchr-eq-some :
    (c : ℕ) (xs a b : Bytes)
    → memchr c xs ≡ some (a, b)
    → (xs ≡ a ++ c ∷ b) × (has_byte c a ≡ false)
unfolding memchr has_byte
memchr-eq-some c [] a b h = cc
memchr-eq-some c (x ∷ xs) a b h = go (memchr c xs) (λ a' b'. memchr-eq-some c xs a' b') h
  where
    go :
        (r : Option (Bytes × Bytes))
        → ((a' b' : Bytes) → r ≡ some (a', b') → (xs ≡ a' ++ c ∷ b') × (has_byte c a' ≡ false))
        → (if x == c then some ([], xs) else cons_before x r) ≡ some (a, b)
        → (x ∷ xs ≡ a ++ c ∷ b) × (has_byte c a ≡ false)
    go none ih h = ground arith
    go (some (a', b')) ih h = ground (arith, ih a' b' refl)

pub memchr-append :
    (c : ℕ) (a b : Bytes) → has_byte c a ≡ false → memchr c (a ++ c ∷ b) ≡ some (a, b)
unfolding memchr has_byte
memchr-append c [] b h = ground arith
memchr-append c (x ∷ xs) b h = ground (arith, memchr-append c xs b)

pub memchr-eq-none : (c : ℕ) (xs : Bytes) → has_byte c xs ≡ false → memchr c xs ≡ none
unfolding memchr has_byte
memchr-eq-none c [] h = refl
memchr-eq-none c (x ∷ xs) h = ground (arith, memchr-eq-none c xs)

pub strcmp_eq_iff : (a b : Bytes) → (strcmp_eq a b ≡ true) ↔ (a ≡ b)
unfolding strcmp_eq
strcmp_eq_iff (x ∷ a) (y ∷ b) = ground (arith, strcmp_eq_iff a b)
strcmp_eq_iff _ _ = ground arith

-- A value that neither begins nor ends with white space.
abbrev pub IsTrimmed : Bytes → Type 0
IsTrimmed xs = (skip_ows xs ≡ xs) × (trim_ows_end xs ≡ xs)

pub trim_ows_end_idem : (xs : Bytes) → trim_ows_end (trim_ows_end xs) ≡ trim_ows_end xs
unfolding trim_ows_end
trim_ows_end_idem [] = refl
trim_ows_end_idem (x ∷ xs) = go (trim_ows_end xs) (trim_ows_end_idem xs)
  where
    go : (t : Bytes) → trim_ows_end t ≡ t → trim_ows_end (keep_before x t) ≡ keep_before x t
    go [] h = ground arith
    go (y ∷ ys) h = ground (arith, h)
