-- ===== src/StaticFiles/Climbing.antt =====
-- When `static_files_normalize_path` answers FORBIDDEN.
use cinder_http.Prelude.{
  ℕ, suc, ◌+◌, ◌-◌, ◌*◌, ◌≡◌, refl, Bool, true, false, ◌||◌, List, [], ◌∷◌, ◌==◌, if◌then◌else◌, ok,
  err, arith, length, is_empty, Bool-cases, inl, inr, ◌>>=◌, ◌>>◌, require, subst,
}
use cinder_http.Text.{Bytes, Alloc, strcmp_eq}
use cinder_http.StaticFiles.Errors.{Static, forbidden, out_of_memory}
use cinder_http.StaticFiles.Paths.{
  split_slash, dot, dot_dot, Segments, no_segments, join_slash, pop_segment, push_segment,
  add_segment, add_segments, in_order, grown, static_files_normalize_path,
}

-- Whether the path climbs above its root: `depth` names are open.
pub escapes : ℕ → List Bytes → Bool
escapes depth [] = false
escapes depth (seg ∷ segs) =
    let same = escapes depth segs in
    let up = escapes (depth - 1) segs in
    let down = escapes (depth + 1) segs in
    if is_empty seg || strcmp_eq seg dot
    then same
    else if strcmp_eq seg dot_dot
    then (if depth == 0 then true else up)
    else down

abbrev pub Outcome : {A : Type 0} → Bool → Static A → Type 0
Outcome {A} true r = r ≡ err forbidden
Outcome {A} false r = (a : A) × (r ≡ ok a)

module _ (alloc : Alloc) (granted : (n : ℕ) → alloc n ≡ true) where
  push_segment_ok :
      (s : Segments) (seg : Bytes)
      → push_segment alloc s seg ≡ ok (record { stack = seg ∷ s.stack; capacity = grown s })
  unfolding push_segment
  push_segment_ok s seg =
      rw (granted (length seg + 1)) (room (length s.stack == s.capacity) (granted (grown s * 8)))
    where
      room :
          (t : Bool) {a : Bool}
          → a ≡ true
          → (require (if t then a else true) out_of_memory
              >> ok (let x : Segments = record { stack = seg ∷ s.stack; capacity = grown s } in x))
            ≡ ok (record { stack = seg ∷ s.stack; capacity = grown s })
      room true e = rw e
      room false e = refl

  climb_step :
      (s : Segments) (seg : Bytes) (segs : List Bytes)
      → ((s' : Segments) → Outcome (escapes (length s'.stack) segs) (add_segments alloc s' segs))
      → Outcome (escapes (length s.stack) (seg ∷ segs)) (add_segments alloc s (seg ∷ segs))
  unfolding add_segments add_segment escapes
  climb_step s seg segs ih = elim (Bool-cases (is_empty seg)) [
    | inl e ↦ rw (e, ◌||◌) (ih s)
    | inr e ↦ elim (Bool-cases (strcmp_eq seg dot)) [
      | inl d ↦ rw (e, d) (ih s)
      | inr d ↦ elim (Bool-cases (strcmp_eq seg dot_dot)) [
        | inl dd ↦ rw (e, d, dd) (up s.stack)
        | inr dd ↦ rw (e, d, dd) (rw (push_segment_ok s seg) deeper)
      ]
    ]
  ]
    where
      up :
          (st : List Bytes)
          → Outcome (if length st == 0 then true else escapes (length st - 1) segs) (
              pop_segment (record { stack = st; capacity = s.capacity }) >>= λ s'.
              add_segments alloc s' segs)
      up [] = refl
      up (t ∷ ts) =
          let not_zero : suc (length ts) == 0 ≡ false = ground arith in
          let below : length ts ≡ suc (length ts) - 1 = omega arith in
          rw not_zero (
            subst
              (λ d.
                Outcome (escapes d segs)
                  (add_segments alloc (record { stack = ts; capacity = s.capacity }) segs))
              below (ih (record { stack = ts; capacity = s.capacity })))

      deeper :
          Outcome
            (escapes (length s.stack + 1) segs)
            (add_segments alloc (record { stack = seg ∷ s.stack; capacity = grown s }) segs)
      deeper =
          let above : suc (length s.stack) ≡ length s.stack + 1 = omega arith in
          subst
            (λ d.
              Outcome (escapes d segs)
                (add_segments alloc (record { stack = seg ∷ s.stack; capacity = grown s }) segs))
            above (ih (record { stack = seg ∷ s.stack; capacity = grown s }))

  climb :
      (segs : List Bytes) (s : Segments)
      → Outcome (escapes (length s.stack) segs) (add_segments alloc s segs)
  climb [] s = unfold escapes add_segments in (s, refl)
  climb (seg ∷ segs) s = climb_step s seg segs (λ s'. climb segs s')

  -- With every allocation granted, normalising an absolute path answers FORBIDDEN exactly when some
  -- prefix of it has more ".." segments than names, and a path otherwise.
  pub normalize_escapes :
      (cs : Bytes)
      → Outcome (escapes 0 (split_slash cs)) (static_files_normalize_path alloc (b'/' ∷ cs))
  unfolding static_files_normalize_path
  normalize_escapes cs =
      go (escapes 0 (split_slash cs)) (add_segments alloc no_segments (split_slash cs))
        (climb (split_slash cs) no_segments)
    where
      go :
          (b : Bool) (r : Static Segments)
          → Outcome b r
          → Outcome b (
              r >>= λ s.
              let relative = join_slash (in_order s.stack []) in
              require (alloc (length relative + 1)) out_of_memory >> ok relative)
      go true r e = rw e
      go false r (s, e) = (
        join_slash (in_order s.stack []),
        rw e (rw (granted (length (join_slash (in_order s.stack [])) + 1))),
      )
