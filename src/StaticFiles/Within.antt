-- ===== src/StaticFiles/Within.antt =====
-- `path_is_within_root` and `join_root_relative` of src/static_files.c.
use cinder_http.Prelude.{
  ℕ, ◌≡◌, ◌≢◌, ◌↔◌, refl, Bool, true, false, not, [], ◌∷◌, ◌++◌, ◌==◌, ltb, leb, if◌then◌else◌, ok,
  err, arith, length, is_empty, inl, inr, ◌⊎◌, get_or, length-append, append-nil,
}
use cinder_http.Text.{Bytes, starts_with}
use cinder_http.StaticFiles.Errors.{Static, bad_target}

-- The byte at an index of a C string, which ends in a NUL.
abbrev pub byte_at : Bytes → ℕ → ℕ
byte_at s i = get_or s i 0

unfoldable pub path_is_within_root : Bytes → Bytes → Bool
path_is_within_root path root =
    if ltb (length path) (length root)
    then false
    else if not (starts_with root path)
    then false
    else if length path == length root
    then true
    else byte_at path (length root) == b'/'

abbrev pub path_max : ℕ
path_max = 4096

-- `snprintf` into a buffer of `path_max` bytes.
unfoldable pub print_path : Bytes → Static Bytes
print_path text = if leb path_max (length text) then err bad_target else ok text

unfoldable pub join_root_relative : Bytes → Bytes → Static Bytes
join_root_relative root relative =
    print_path (if is_empty relative then root else root ++ b'/' ∷ relative)

starts_with-split : (p s : Bytes) → starts_with p s ≡ true → (rest : Bytes) × (s ≡ p ++ rest)
unfolding starts_with
starts_with-split [] s h = (s, refl)
starts_with-split (a ∷ p) [] h = absurd (cc)
starts_with-split (a ∷ p) (x ∷ s) h =
    let (rest, e) = starts_with-split p s (ground arith) in (rest, ground (arith, e))

starts_with-append : (p rest : Bytes) → starts_with p (p ++ rest) ≡ true
unfolding starts_with
starts_with-append [] rest = refl
starts_with-append (a ∷ p) rest = ground (arith, starts_with-append p rest)

byte_at-append : (p rest : Bytes) → byte_at (p ++ rest) (length p) ≡ byte_at rest 0
byte_at-append [] rest = refl
byte_at-append (a ∷ p) rest = byte_at-append p rest

-- The root itself, or the root, a slash and anything.
abbrev pub IsWithin : Bytes → Bytes → Type 0
IsWithin path root = (path ≡ root) ⊎ ((rest : Bytes) × (path ≡ root ++ b'/' ∷ rest))

within_rest :
    (root rest : Bytes)
    → path_is_within_root (root ++ rest) root ≡ true
    → (rest ≡ []) ⊎ ((more : Bytes) × (rest ≡ b'/' ∷ more))
unfolding path_is_within_root
within_rest root [] h = inl refl
within_rest root (c ∷ cs) h = inr (
  cs,
  ground (
    arith,
    length-append root (c ∷ cs),
    starts_with-append root (c ∷ cs),
    byte_at-append root (c ∷ cs),
  ),
)

within-starts_with :
    (path root : Bytes) → path_is_within_root path root ≡ true → starts_with root path ≡ true
unfolding path_is_within_root
within-starts_with path root h = ground arith

path_is_within_root-IsWithin :
    (path root : Bytes) → path_is_within_root path root ≡ true → IsWithin path root
path_is_within_root-IsWithin path root h =
    let (rest, e) = starts_with-split root path (within-starts_with path root h) in
    elim (within_rest root rest (rw e at h)) [
      | inl nil ↦ inl (rw (e, nil, append-nil))
      | inr (more, slash) ↦ inr (more, rw (e, slash))
    ]

IsWithin-path_is_within_root :
    (path root : Bytes) → IsWithin path root → path_is_within_root path root ≡ true
unfolding path_is_within_root
IsWithin-path_is_within_root path root (inl e) =
    rw e (ground (arith, starts_with-append root [], append-nil root))
IsWithin-path_is_within_root path root (inr (rest, e)) = rw e (
    ground (
      arith,
      starts_with-append root (b'/' ∷ rest),
      length-append root (b'/' ∷ rest),
      byte_at-append root (b'/' ∷ rest),
    ))

-- The test accepts exactly the root itself and what lies below it behind a slash; a sibling whose
-- name only begins like the root is refused.
pub path_is_within_root_iff :
    (path root : Bytes) → (path_is_within_root path root ≡ true) ↔ IsWithin path root
path_is_within_root_iff path root =
    (path_is_within_root-IsWithin path root, IsWithin-path_is_within_root path root)

-- With the file system's root as document root the test refuses every path below it: it looks for a
-- second slash behind the one the root ends in. Canonical paths have none there.
pub file_system_root_refuses :
    (c : ℕ) (rest : Bytes) → c ≢ b'/' → path_is_within_root (b'/' ∷ c ∷ rest) (b'/' ∷ []) ≡ false
unfolding path_is_within_root starts_with
file_system_root_refuses c rest h = ground arith
