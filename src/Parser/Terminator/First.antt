-- ===== src/Parser/Terminator/First.antt =====
-- The terminator that is found is the first one.
use cinder_http.Prelude.{
  ℕ, zero, suc, ◌+◌, ◌<◌, ◌≡◌, ◌≢◌, refl, true, false, [], ◌∷◌, ◌++◌, ◌==◌, Option, none, some,
  arith, Bool-cases, inl, inr, length, take, drop, ◌∙◌, ap,
}
use cinder_http.Text.{Bytes, has_byte}
use cinder_http.Parser.Terminator.{
  crlf_crlf, terminator_here, find_terminator, http_find_header_terminator,
}

terminator_here-take : (xs : Bytes) → terminator_here xs ≡ true → take 4 xs ≡ crlf_crlf
terminator_here-take (a ∷ b ∷ c ∷ d ∷ rest) h = ground arith
terminator_here-take [] h = cc
terminator_here-take (a ∷ []) h = cc
terminator_here-take (a ∷ b ∷ []) h = cc
terminator_here-take (a ∷ b ∷ c ∷ []) h = cc

take-terminator_here : (xs : Bytes) → take 4 xs ≡ crlf_crlf → terminator_here xs ≡ true
take-terminator_here (a ∷ b ∷ c ∷ d ∷ rest) h = ground arith
take-terminator_here [] h = cc
take-terminator_here (a ∷ []) h = cc
take-terminator_here (a ∷ b ∷ []) h = cc
take-terminator_here (a ∷ b ∷ c ∷ []) h = cc

-- No terminator begins at an index below `n`.
abbrev pub NoneBefore : ℕ → Bytes → Type 0
NoneBefore n xs = (j : ℕ) → j < n → take 4 (drop j xs) ≢ crlf_crlf

abbrev pub IsFirst : Bytes → Option ℕ → Type 0
IsFirst xs (some k) = (take 4 (drop k xs) ≡ crlf_crlf) × NoneBefore k xs
IsFirst xs none = (j : ℕ) → take 4 (drop j xs) ≢ crlf_crlf

abbrev Shifted : ℕ → Bytes → Option ℕ → Type 0
Shifted i xs (some k) = (d : ℕ) × (k ≡ i + d) × (take 4 (drop d xs) ≡ crlf_crlf) × NoneBefore d xs
Shifted i xs none = IsFirst xs none

not_here : (xs : Bytes) → terminator_here xs ≡ false → take 4 xs ≢ crlf_crlf
not_here xs h e = cc (take-terminator_here xs e)

NoneBefore-suc :
    (x : ℕ) (xs : Bytes) (d : ℕ)
    → terminator_here (x ∷ xs) ≡ false
    → NoneBefore d xs
    → NoneBefore (suc d) (x ∷ xs)
NoneBefore-suc x xs d h rest zero lt = not_here (x ∷ xs) h
NoneBefore-suc x xs d h rest (suc j) lt = rest j (omega arith)

Shifted-cons :
    (i x : ℕ) (xs : Bytes) (r : Option ℕ)
    → terminator_here (x ∷ xs) ≡ false
    → Shifted (i + 1) xs r
    → Shifted i (x ∷ xs) r
Shifted-cons i x xs (some k) h (d, e, here, before) =
    (suc d, omega arith, here, NoneBefore-suc x xs d h before)
Shifted-cons i x xs none h s = none_at
  where
    none_at : (j : ℕ) → take 4 (drop j (x ∷ xs)) ≢ crlf_crlf
    none_at zero = not_here (x ∷ xs) h
    none_at (suc j) = s j

find_terminator-Shifted : (i : ℕ) (xs : Bytes) → Shifted i xs (find_terminator i xs)
unfolding find_terminator
find_terminator-Shifted i [] = none_at
  where
    none_at : (j : ℕ) → let xs : Bytes = [] in take 4 (drop j xs) ≢ crlf_crlf
    none_at zero = λ e. cc
    none_at (suc j) = λ e. cc
find_terminator-Shifted i (x ∷ xs) = elim (Bool-cases (terminator_here (x ∷ xs))) [
  | inl h ↦ rw h (0, omega arith, terminator_here-take (x ∷ xs) h, λ j lt. absurd (omega arith))
  | inr h ↦ rw h (Shifted-cons i x xs _ h (find_terminator-Shifted (i + 1) xs))
]

Shifted-IsFirst : (xs : Bytes) (r : Option ℕ) → Shifted 0 xs r → IsFirst xs r
Shifted-IsFirst xs (some k) (d, e, here, before) =
    let same : d ≡ k = omega arith in rw (← same) (here, before)
Shifted-IsFirst xs none s = s

-- `http_find_header_terminator` answers with the index of the first "\r\n\r\n", and with none
-- exactly when the text has no such four bytes in a row.
pub http_find_header_terminator-IsFirst : (xs : Bytes) → IsFirst xs (http_find_header_terminator xs)
http_find_header_terminator-IsFirst xs = Shifted-IsFirst xs _ (find_terminator-Shifted 0 xs)

-- Text with no carriage return is passed over.
pub find_terminator-append :
    (l rest : Bytes) (i : ℕ)
    → has_byte 13 l ≡ false
    → find_terminator i (l ++ rest) ≡ find_terminator (i + length l) rest
unfolding find_terminator has_byte
find_terminator-append [] rest i h = ap (λ k. find_terminator k rest) (omega arith)
find_terminator-append (x ∷ xs) rest i h =
    step x (xs ++ rest) (ground arith)
    ∙ find_terminator-append xs rest (i + 1) (ground arith)
    ∙ ap (λ k. find_terminator k rest) (omega arith)
  where
    step :
        (y : ℕ) (ys : Bytes)
        → y == 13 ≡ false
        → find_terminator i (y ∷ ys) ≡ find_terminator (i + 1) ys
    step y [] e = refl
    step y (a ∷ []) e = refl
    step y (a ∷ b ∷ []) e = refl
    step y (a ∷ b ∷ c ∷ ys) e = rw e
