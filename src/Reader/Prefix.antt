-- ===== src/Reader/Prefix.antt =====
-- The terminator of a header section is found in every prefix of the text that holds it.
use cinder_http.Prelude.{
  ℕ, zero, suc, ◌+◌, ◌-◌, ◌≤◌, ◌≡◌, refl, ap, ◌∙◌, [], ◌∷◌, some, arith, take, Bool-cases, inl, inr,
}
use cinder_http.Text.{Bytes}
use cinder_http.Parser.Terminator.{terminator_here, find_terminator}

terminator_here-take :
    (m : ℕ) (ys : Bytes) → terminator_here (take (suc (suc (suc (suc m)))) ys) ≡ terminator_here ys
terminator_here-take m [] = refl
terminator_here-take m (a ∷ []) = refl
terminator_here-take m (a ∷ b ∷ []) = refl
terminator_here-take m (a ∷ b ∷ c ∷ []) = refl
terminator_here-take m (a ∷ b ∷ c ∷ d ∷ ys) = refl

terminator_here-take_le :
    (m : ℕ) (ys : Bytes) → 4 ≤ m → terminator_here (take m ys) ≡ terminator_here ys
terminator_here-take_le m ys le =
    ap (λ k. terminator_here (take k ys)) {y = suc (suc (suc (suc (m - 4))))} (omega arith)
    ∙ terminator_here-take (m - 4) ys

found-ge : (i k : ℕ) (xs : Bytes) → find_terminator i xs ≡ some k → i ≤ k
unfolding find_terminator
found-ge i k [] e = absurd (cc)
found-ge i k (x ∷ xs) e = elim (Bool-cases (terminator_here (x ∷ xs))) [
  | inl here ↦ let same : i ≡ k = ground (arith, rw here at e) in omega arith
  | inr later ↦ let past = found-ge (i + 1) k xs (rw later at e) in omega arith
]

pub found_in_prefix :
    (i k m : ℕ) (xs : Bytes)
    → find_terminator i xs ≡ some k
    → k + 4 ≤ i + m
    → find_terminator i (take m xs) ≡ some k
unfolding find_terminator
found_in_prefix i k m [] e le = absurd (cc)
found_in_prefix i k zero (x ∷ xs) e le = let past = found-ge i k (x ∷ xs) e in absurd (omega arith)
found_in_prefix i k (suc m) (x ∷ xs) e le = elim (Bool-cases (terminator_here (x ∷ xs))) [
  | inl here ↦
      let same : i ≡ k = ground (arith, rw here at e) in
      let kept = terminator_here-take_le (suc m) (x ∷ xs) (omega arith) in
      rw (kept, here) (ap some same)
  | inr later ↦
      let past = found-ge (i + 1) k xs (rw later at e) in
      let kept = terminator_here-take_le (suc m) (x ∷ xs) (omega arith) in
      rw (kept, later) (found_in_prefix (i + 1) k m xs (rw later at e) (omega arith))
]
