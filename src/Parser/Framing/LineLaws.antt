-- ===== src/Parser/Framing/LineLaws.antt =====
-- Cutting a text at its line feeds, and a line at its carriage return.
use cinder_http.Prelude.{◌≡◌, refl, false, [], ◌∷◌, ◌++◌, some, arith}
use cinder_http.Text.{Bytes, has_byte}
use cinder_http.Parser.Framing.{line, split_lf, strip_cr}

pub split_lf-append :
    (l rest : Bytes) → has_byte 10 l ≡ false → split_lf (l ++ 10 ∷ rest) ≡ line l (split_lf rest)
unfolding split_lf has_byte
split_lf-append [] rest h = refl
split_lf-append (x ∷ xs) rest h = ground (arith, split_lf-append xs rest)

pub strip_cr-concat : (l : Bytes) → strip_cr (l ++ 13 ∷ []) ≡ some l
unfolding strip_cr
strip_cr-concat [] = refl
strip_cr-concat (x ∷ []) = refl
strip_cr-concat (x ∷ y ∷ ys) = rw (strip_cr-concat (y ∷ ys))
