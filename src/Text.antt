-- ===== src/Text.antt =====
-- Bytes, and the C string routines of the sources. A `char *` that is read up to its NUL is the
-- list of the bytes before it; a range `[start, end)` of a buffer is the list of its bytes.
pub mod Letters
pub mod Laws
use Prim.Native.Char.{code}
use Prim.Native.String.{String}
use cinder_http.Prelude.{
  ℕ, ◌+◌, Bool, true, false, ◌&&◌, ◌||◌, List, [], ◌∷◌, ◌==◌, leb, if◌then◌else◌, Option, none,
  some, Result, ok, err, length, is_empty,
}

abbrev pub Bytes : Type 0
Bytes = List ℕ

-- The bytes of an ASCII literal.
abbrev pub codes : String → Bytes
codes String.[] = []
codes (String.◌∷◌ c s) = code c ∷ codes s

-- `ascii_tolower`, the same in every file that declares it.
unfoldable pub ascii_tolower : ℕ → ℕ
ascii_tolower c = if leb b'A' c && leb c b'Z' then c + 32 else c

-- `header_name_equal`; also `extension_equal` of mime.c, which has the same body.
unfoldable pub header_name_equal : Bytes → Bytes → Bool
header_name_equal [] [] = true
header_name_equal (x ∷ xs) (y ∷ ys) = ascii_tolower x == ascii_tolower y && header_name_equal xs ys
header_name_equal _ _ = false

-- `strcmp (a, b) == 0`
unfoldable pub strcmp_eq : Bytes → Bytes → Bool
strcmp_eq [] [] = true
strcmp_eq (x ∷ xs) (y ∷ ys) = x == y && strcmp_eq xs ys
strcmp_eq _ _ = false

-- What a buffer reads as once it is taken for a C string.
unfoldable pub c_string : Bytes → Bytes
c_string [] = []
c_string (x ∷ xs) = if x == 0 then [] else x ∷ c_string xs

abbrev pub cons_before : ℕ → Option (Bytes × Bytes) → Option (Bytes × Bytes)
cons_before x none = none
cons_before x (some (a, b)) = some (x ∷ a, b)

-- `memchr`: the bytes before the first `c`, and those after it.
unfoldable pub memchr : ℕ → Bytes → Option (Bytes × Bytes)
memchr c [] = none
memchr c (x ∷ xs) = let rest = cons_before x (memchr c xs) in if x == c then some ([], xs) else rest

-- `memchr (…) != NULL`
unfoldable pub has_byte : ℕ → Bytes → Bool
has_byte c [] = false
has_byte c (x ∷ xs) = x == c || has_byte c xs

-- `strncmp (text, prefix, strlen (prefix)) == 0`
unfoldable pub starts_with : Bytes → Bytes → Bool
starts_with [] text = true
starts_with (p ∷ ps) [] = false
starts_with (p ∷ ps) (x ∷ xs) = p == x && starts_with ps xs

-- `strstr (text, needle) != NULL`
unfoldable pub strstr : Bytes → Bytes → Bool
strstr needle [] = is_empty needle
strstr needle (x ∷ xs) = starts_with needle (x ∷ xs) || strstr needle xs

abbrev pub is_ows : ℕ → Bool
is_ows c = c == b' ' || c == b'\t'

unfoldable pub skip_ows : Bytes → Bytes
skip_ows [] = []
skip_ows (x ∷ xs) = if is_ows x then skip_ows xs else x ∷ xs

-- Keeps `x` unless it is white space with nothing kept behind it.
abbrev pub keep_before : ℕ → Bytes → Bytes
keep_before x [] = if is_ows x then [] else x ∷ []
keep_before x (y ∷ ys) = x ∷ y ∷ ys

unfoldable pub trim_ows_end : Bytes → Bytes
trim_ows_end [] = []
trim_ows_end (x ∷ xs) = keep_before x (trim_ows_end xs)

-- `malloc` and `realloc`: whether a request for so many bytes is granted.
abbrev pub Alloc : Type 0
Alloc = ℕ → Bool

-- `dup_range`: the C string that the copy reads as, if there is room for it and its NUL.
unfoldable pub dup_range : {E : Type 0} → Alloc → E → Bytes → Result E Bytes
dup_range alloc oom xs = if alloc (length xs + 1) then ok (c_string xs) else err oom
