-- ===== src/StaticFiles/Idempotent.antt =====
-- `static_files_normalize_path` on its own results, and when it answers FORBIDDEN.
use cinder_http.Prelude.{
  ℕ, ◌+◌, ◌*◌, ◌≡◌, refl, ap, ◌∙◌, Bool, true, false, List, [], ◌∷◌, ◌++◌, ◌==◌, if◌then◌else◌, ok,
  arith, length, ◌>>◌, require,
}
use cinder_http.Text.{Bytes, Alloc, has_byte}
use cinder_http.StaticFiles.Errors.{out_of_memory}
use cinder_http.StaticFiles.Paths.{
  split_slash, Segments, no_segments, join_slash, push_segment, add_segment, add_segments, in_order,
  grown, static_files_normalize_path,
}
use cinder_http.StaticFiles.Normal.{IsPlain, ArePlain, normalize-ArePlain}

pub add_segment-plain :
    (alloc : Alloc) (granted : (n : ℕ) → alloc n ≡ true) (s : Segments) (seg : Bytes)
    → IsPlain seg
    → add_segment alloc s seg ≡ ok (record { stack = seg ∷ s.stack; capacity = grown s })
unfolding add_segment push_segment
add_segment-plain alloc granted s seg i =
    rw (i.some_bytes, i.not_dot, i.not_dot_dot)
      (rw (granted (length seg + 1)) (room (length s.stack == s.capacity) (granted (grown s * 8))))
  where
    room :
        (t : Bool) {a : Bool}
        → a ≡ true
        → (require (if t then a else true) out_of_memory
            >> ok (let x : Segments = record { stack = seg ∷ s.stack; capacity = grown s } in x))
          ≡ ok (record { stack = seg ∷ s.stack; capacity = grown s })
    room true e = rw e
    room false e = refl

add_segments-plain :
    (alloc : Alloc) (granted : (n : ℕ) → alloc n ≡ true) (segs : List Bytes) (s : Segments)
    → ArePlain segs
    → (c : ℕ) × (add_segments alloc s segs
        ≡ ok (record { stack = in_order segs s.stack; capacity = c }))
unfolding add_segments in_order
add_segments-plain alloc granted [] s p = (s.capacity, refl)
add_segments-plain alloc granted (seg ∷ segs) s p =
    let (c, e) =
      add_segments-plain alloc granted segs (record { stack = seg ∷ s.stack; capacity = grown s })
        p.1 in
    (c, rw (add_segment-plain alloc granted s seg p.0) e)

split_slash-one : (s : Bytes) → has_byte b'/' s ≡ false → split_slash s ≡ s ∷ []
unfolding split_slash has_byte
split_slash-one [] h = refl
split_slash-one (x ∷ xs) h = ground (arith, split_slash-one xs)

split_slash-append :
    (s rest : Bytes)
    → has_byte b'/' s ≡ false
    → split_slash (s ++ b'/' ∷ rest) ≡ s ∷ split_slash rest
unfolding split_slash has_byte
split_slash-append [] rest h = refl
split_slash-append (x ∷ xs) rest h = ground (arith, split_slash-append xs rest)

split-join :
    (s : Bytes) (ss : List Bytes) → ArePlain (s ∷ ss) → split_slash (join_slash (s ∷ ss)) ≡ s ∷ ss
unfolding join_slash
split-join s [] p = split_slash-one s p.0.no_slash
split-join s (t ∷ ts) p =
    split_slash-append s (join_slash (t ∷ ts)) p.0.no_slash ∙ ap (◌∷◌ s) (split-join t ts p.1)

in_order_twice : (a b c : List Bytes) → in_order (in_order a b) c ≡ in_order b (a ++ c)
unfolding in_order
in_order_twice [] b c = refl
in_order_twice (x ∷ a) b c = in_order_twice a (x ∷ b) c

append_nil : (a : List Bytes) → a ++ [] ≡ a
append_nil [] = refl
append_nil (x ∷ a) = ap (◌∷◌ x) (append_nil a)

-- The segments that the loop collects from the joined text.
collected :
    (alloc : Alloc) (granted : (n : ℕ) → alloc n ≡ true) (segs : List Bytes)
    → ArePlain segs
    → (s : Segments) × (add_segments alloc no_segments (split_slash (join_slash segs)) ≡ ok s)
      × (in_order s.stack [] ≡ segs)
collected alloc granted [] p = (
  no_segments,
  unfold add_segments split_slash join_slash add_segment in refl,
  unfold in_order in refl,
)
collected alloc granted (t ∷ ts) p =
    let (c, e) = add_segments-plain alloc granted (t ∷ ts) no_segments p in
    (
      record { stack = in_order (t ∷ ts) []; capacity = c },
      ap (add_segments alloc no_segments) (split-join t ts p) ∙ e,
      in_order_twice (t ∷ ts) [] [] ∙ (unfold in_order in append_nil (t ∷ ts)),
    )

normalize_joined :
    (alloc : Alloc) (granted : (n : ℕ) → alloc n ≡ true) (segs : List Bytes)
    → ArePlain segs
    → static_files_normalize_path alloc (b'/' ∷ join_slash segs) ≡ ok (join_slash segs)
unfolding static_files_normalize_path
normalize_joined alloc granted segs p =
    let (s, e, same) = collected alloc granted segs p in
    rw e (
      rw (granted (length (join_slash (in_order s.stack [])) + 1))
        (ap (λ t. ok (join_slash t)) same))

-- A normalised path is normal: taken for a path once more, it comes out as it is, when every
-- allocation is granted.
pub normalize_idempotent :
    (alloc : Alloc) (path : Bytes) {relative : Bytes}
    → ((n : ℕ) → alloc n ≡ true)
    → static_files_normalize_path alloc path ≡ ok relative
    → static_files_normalize_path alloc (b'/' ∷ relative) ≡ ok relative
normalize_idempotent alloc path granted h =
    let (segs, joined, plain) = normalize-ArePlain alloc path h in
    rw joined (normalize_joined alloc granted segs plain)
