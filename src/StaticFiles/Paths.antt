-- ===== src/StaticFiles/Paths.antt =====
-- From an untrusted target to a relative path: extraction, decoding, normalisation.
use cinder_http.Prelude.{
  ℕ, ◌+◌, ◌-◌, ◌*◌, Bool, true, not, ◌&&◌, ◌||◌, List, [], ◌∷◌, ◌++◌, ◌==◌, leb, if◌then◌else◌,
  Option, none, some, ok, err, ◌>>=◌, ◌>>◌, require, length, is_empty,
}
use cinder_http.Text.{Bytes, Alloc, strcmp_eq}
use cinder_http.StaticFiles.Errors.{Static, forbidden, bad_target, out_of_memory}

-- `is_hex`
unfoldable pub is_hex : ℕ → Bool
is_hex c = (leb b'0' c && leb c b'9') || (leb b'a' c && leb c b'f') || (leb b'A' c && leb c b'F')

-- `hex_value`, which its caller asks of hexadecimal digits only: the last case is the -1.
unfoldable pub hex_value : ℕ → ℕ
hex_value c =
    if leb b'0' c && leb c b'9'
    then c - b'0'
    else if leb b'a' c && leb c b'f'
    then c - b'a' + 10
    else c - b'A' + 10

-- The loop of `path_portion`: what precedes a query or a fragment.
unfoldable pub until_query : Bytes → Bytes
until_query [] = []
until_query (c ∷ cs) = if c == b'?' || c == b'#' then [] else c ∷ until_query cs

-- `none` is a null target.
unfoldable pub path_portion : Option Bytes → Static Bytes
path_portion none = err bad_target
path_portion (some []) = err bad_target
path_portion (some (c ∷ cs)) = if not (c == b'/') then err bad_target else ok (until_query (c ∷ cs))

abbrev pub cons_byte : ℕ → Static Bytes → Static Bytes
cons_byte c (ok cs) = ok (c ∷ cs)
cons_byte c (err e) = err e

-- The loop of `static_files_url_decode`.
unfoldable pub decode : Bytes → Static Bytes
decode [] = ok []
decode (c ∷ []) = if c == b'%' then err bad_target else ok (c ∷ [])
decode (c ∷ a ∷ []) =
    let rest = cons_byte c (decode (a ∷ [])) in if c == b'%' then err bad_target else rest
decode (c ∷ a ∷ b ∷ cs) =
    let decoded = hex_value a * 16 + hex_value b in
    let escaped = cons_byte decoded (decode cs) in
    let plain = cons_byte c (decode (a ∷ b ∷ cs)) in
    if c == b'%'
    then (if not (is_hex a) || not (is_hex b) || decoded == 0 then err bad_target else escaped)
    else plain

-- The pieces between slashes. The source skips empty ones, so it does not matter that it reads none
-- behind a slash at the end.
abbrev pub cons_first : ℕ → List Bytes → List Bytes
cons_first c [] = (c ∷ []) ∷ []
cons_first c (s ∷ ss) = (c ∷ s) ∷ ss

unfoldable pub split_slash : Bytes → List Bytes
split_slash [] = [] ∷ []
split_slash (c ∷ cs) =
    let rest = split_slash cs in if c == b'/' then [] ∷ rest else cons_first c rest

abbrev pub dot : Bytes
dot = b'.' ∷ []

abbrev pub dot_dot : Bytes
dot_dot = b'.' ∷ b'.' ∷ []

-- `segments`, the last one first, and `capacity`.
pub record Segments : Type 0 where
  pub stack : List Bytes
  pub capacity : ℕ

abbrev pub no_segments : Segments
no_segments = record { stack = []; capacity = 0 }

unfoldable pub join_slash : List Bytes → Bytes
join_slash [] = []
join_slash (s ∷ []) = s
join_slash (s ∷ t ∷ ss) = s ++ b'/' ∷ join_slash (t ∷ ss)

-- `sizeof (char *)`
abbrev pub sizeof_pointer : ℕ
sizeof_pointer = 8

abbrev pub pop_segment : Segments → Static Segments
pop_segment s = elim s.stack [ [] ↦ err forbidden | ◌∷◌ top rest ↦ ok (record s { stack = rest }) ]

-- The capacity behind the growth of a full array.
abbrev pub grown : Segments → ℕ
grown s =
    if length s.stack == s.capacity
    then (if s.capacity == 0 then 8 else s.capacity * 2)
    else s.capacity

-- The stack from its bottom up, in front of `out`.
unfoldable pub in_order : List Bytes → List Bytes → List Bytes
in_order [] out = out
in_order (s ∷ ss) out = in_order ss (s ∷ out)

module _ (alloc : Alloc) where
  unfoldable pub static_files_extract_path : Option Bytes → Static Bytes
  static_files_extract_path target = do
    path ← path_portion target
    require (alloc (length path + 1)) out_of_memory
    ok path

  unfoldable pub static_files_url_decode : Bytes → Static Bytes
  static_files_url_decode input = do require (alloc (length input + 1)) out_of_memory; decode input

  unfoldable pub push_segment : Segments → Bytes → Static Segments
  push_segment s seg = do
    require (if length s.stack == s.capacity then alloc (grown s * sizeof_pointer) else true)
        out_of_memory
    require (alloc (length seg + 1)) out_of_memory
    ok (record { stack = seg ∷ s.stack; capacity = grown s })

  unfoldable pub add_segment : Segments → Bytes → Static Segments
  add_segment s seg =
      if is_empty seg
      then ok s
      else if strcmp_eq seg dot
      then ok s
      else if strcmp_eq seg dot_dot
      then pop_segment s
      else push_segment s seg

  unfoldable pub add_segments : Segments → List Bytes → Static Segments
  add_segments s [] = ok s
  add_segments s (seg ∷ segs) = do s' ← add_segment s seg; add_segments s' segs

  unfoldable pub static_files_normalize_path : Bytes → Static Bytes
  static_files_normalize_path [] = err bad_target
  static_files_normalize_path (c ∷ cs) = do
    require (c == b'/') bad_target
    s ← add_segments no_segments (split_slash cs)
    let relative = join_slash (in_order s.stack [])
    require (alloc (length relative + 1)) out_of_memory
    ok relative
