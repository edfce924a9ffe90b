-- ===== src/StaticFiles/Normal.antt =====
-- What `static_files_normalize_path` returns.
use cinder_http.Prelude.{
  ℕ, ◌+◌, ◌*◌, ◌≡◌, refl, Bool, true, false, List, [], ◌∷◌, ◌==◌, if◌then◌else◌, ok, err, arith,
  length, is_empty, Bool-cases, inl, inr, ◌>>=◌, ◌>>◌, require, >>=-eq-ok, require-eq-ok,
}
use cinder_http.Text.{Bytes, Alloc, has_byte, strcmp_eq}
use cinder_http.StaticFiles.Errors.{Static, bad_target, out_of_memory}
use cinder_http.StaticFiles.Paths.{
  split_slash, cons_first, dot, dot_dot, Segments, no_segments, join_slash, pop_segment,
  push_segment, add_segment, add_segments, in_order, grown, static_files_normalize_path,
}

-- A segment that names something: not empty, not ".", not "..", with no slash.
pub record IsPlain (s : Bytes) : Type 0 where
  pub some_bytes : is_empty s ≡ false
  pub not_dot : strcmp_eq s dot ≡ false
  pub not_dot_dot : strcmp_eq s dot_dot ≡ false
  pub no_slash : has_byte b'/' s ≡ false

abbrev pub ArePlain : List Bytes → Type 0
ArePlain [] = Unit
ArePlain (s ∷ ss) = IsPlain s × ArePlain ss

abbrev LackSlash : List Bytes → Type 0
LackSlash [] = Unit
LackSlash (s ∷ ss) = (has_byte b'/' s ≡ false) × LackSlash ss

LackSlash-cons_first :
    (c : ℕ) (ss : List Bytes) → c == b'/' ≡ false → LackSlash ss → LackSlash (cons_first c ss)
unfolding has_byte
LackSlash-cons_first c [] e l = (ground arith, tt)
LackSlash-cons_first c (s ∷ ss) e l = (ground (arith, l.0), l.1)

split_slash-LackSlash : (p : Bytes) → LackSlash (split_slash p)
unfolding split_slash has_byte
split_slash-LackSlash [] = (refl, tt)
split_slash-LackSlash (c ∷ cs) = elim (Bool-cases (c == b'/')) [
  | inl e ↦ rw e (refl, split_slash-LackSlash cs)
  | inr e ↦ rw e (LackSlash-cons_first c (split_slash cs) e (split_slash-LackSlash cs))
]

-- The segments kept so far are plain, unless the loop has given up.
abbrev Kept : Static Segments → Type 0
Kept (ok s) = ArePlain s.stack
Kept (err e) = Unit {0}

pop_segment-Kept :
    (st : List Bytes) (n : ℕ)
    → ArePlain st
    → Kept (pop_segment (record { stack = st; capacity = n }))
pop_segment-Kept [] n p = tt
pop_segment-Kept (t ∷ ts) n p = p.1

push_segment-Kept :
    (alloc : Alloc) (s : Segments) (seg : Bytes)
    → IsPlain seg
    → ArePlain s.stack
    → Kept (push_segment alloc s seg)
unfolding push_segment
push_segment-Kept alloc s seg i p =
    go (if length s.stack == s.capacity then alloc (grown s * 8) else true) (alloc (length seg + 1))
  where
    go :
        (a b : Bool)
        → Kept (
            require a out_of_memory
            >> (require b out_of_memory
                >> ok
                    (let t : Segments = record { stack = seg ∷ s.stack; capacity = grown s } in t)))
    go true true = (i, p)
    go true false = tt
    go false b = tt

add_segment-Kept :
    (alloc : Alloc) (s : Segments) (seg : Bytes)
    → has_byte b'/' seg ≡ false
    → ArePlain s.stack
    → Kept (add_segment alloc s seg)
unfolding add_segment
add_segment-Kept alloc s seg h p = elim (Bool-cases (is_empty seg)) [
  | inl e ↦ rw e p
  | inr e ↦ elim (Bool-cases (strcmp_eq seg dot)) [
    | inl d ↦ rw (e, d) p
    | inr d ↦ elim (Bool-cases (strcmp_eq seg dot_dot)) [
      | inl dd ↦ rw (e, d, dd) (pop_segment-Kept s.stack s.capacity p)
      | inr dd ↦
          rw (e, d, dd)
            (push_segment-Kept alloc s seg
              (record { some_bytes = e; not_dot = d; not_dot_dot = dd; no_slash = h }) p)
    ]
  ]
]

add_segments-Kept :
    (alloc : Alloc) (segs : List Bytes) (s : Segments)
    → LackSlash segs
    → ArePlain s.stack
    → Kept (add_segments alloc s segs)
unfolding add_segments
add_segments-Kept alloc [] s l p = p
add_segments-Kept alloc (seg ∷ segs) s l p =
    go (add_segment alloc s seg) (add_segment-Kept alloc s seg l.0 p)
      (λ s' k. add_segments-Kept alloc segs s' l.1 k)
  where
    go :
        (r : Static Segments)
        → Kept r
        → ((s' : Segments) → ArePlain s'.stack → Kept (add_segments alloc s' segs))
        → Kept (r >>= λ s'. add_segments alloc s' segs)
    go (ok s') k rest = rest s' k
    go (err e) k rest = tt

in_order-ArePlain : (st out : List Bytes) → ArePlain st → ArePlain out → ArePlain (in_order st out)
unfolding in_order
in_order-ArePlain [] out p q = q
in_order-ArePlain (s ∷ ss) out p q = in_order-ArePlain ss (s ∷ out) p.1 (p.0, q)

-- A normalised path is a sequence of plain segments between single slashes: it has no "." or ".."
-- segment, no empty one, and does not begin with a slash, so it cannot lead out of the directory
-- that it is joined to.
pub normalize-ArePlain :
    (alloc : Alloc) (path : Bytes) {relative : Bytes}
    → static_files_normalize_path alloc path ≡ ok relative
    → (segs : List Bytes) × (relative ≡ join_slash segs) × ArePlain segs
unfolding static_files_normalize_path
normalize-ArePlain alloc [] h = absurd (cc)
normalize-ArePlain alloc (c ∷ cs) {relative} h =
    let (_, h₁) = require-eq-ok (c == b'/') bad_target _ h in
    let (s, added, h₂) = >>=-eq-ok (add_segments alloc no_segments (split_slash cs)) _ h₁ in
    let (_, h₃) =
      require-eq-ok (alloc (length (join_slash (in_order s.stack [])) + 1)) out_of_memory _ h₂ in
    (
      in_order s.stack [],
      cc,
      in_order-ArePlain s.stack []
          (rw added at
            (add_segments-Kept alloc (split_slash cs) no_segments (split_slash-LackSlash cs) tt))
          tt,
    )
