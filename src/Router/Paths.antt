-- ===== src/Router/Paths.antt =====
-- Which targets a route of src/router.c takes.
use cinder_http.Prelude.{
  ℕ, ◌≡◌, refl, ap, sym, subst, ◌↔◌, ◌⊎◌, true, false, [], ◌∷◌, ◌++◌, arith, inl, inr, ==→eq,
}
use cinder_http.Text.{Bytes, has_byte}
use cinder_http.Router.{path_equals}

-- The path, alone or with a query behind it.
abbrev pub IsFor : Bytes → Bytes → Type 0
IsFor path target = (target ≡ path) ⊎ ((query : Bytes) × (target ≡ path ++ b'?' ∷ query))

IsFor-cons : (c : ℕ) (path target : Bytes) → IsFor path target → IsFor (c ∷ path) (c ∷ target)
IsFor-cons c path target (inl e) = inl (ap (◌∷◌ c) e)
IsFor-cons c path target (inr (q, e)) = inr (q, ap (◌∷◌ c) e)

path_equals-IsFor : (t p : Bytes) → path_equals t p ≡ true → IsFor p t
unfolding path_equals
path_equals-IsFor [] [] h = inl refl
path_equals-IsFor [] (r ∷ rs) h = absurd (cc)
path_equals-IsFor (t ∷ ts) [] h = inr (ts, ap (λ c. c ∷ ts) (==→eq _ _ h))
path_equals-IsFor (t ∷ ts) (r ∷ rs) h =
    let same : t ≡ r = ground (arith, h) in
    let rest : path_equals ts rs ≡ true = ground (arith, h) in
    subst (λ c. IsFor (r ∷ rs) (c ∷ ts)) (sym same)
      (IsFor-cons r rs ts (path_equals-IsFor ts rs rest))

path_equals_self : (p : Bytes) → has_byte b'?' p ≡ false → path_equals p p ≡ true
unfolding path_equals has_byte
path_equals_self [] n = refl
path_equals_self (c ∷ cs) n = ground (arith, path_equals_self cs)

path_equals_query :
    (p query : Bytes) → has_byte b'?' p ≡ false → path_equals (p ++ b'?' ∷ query) p ≡ true
unfolding path_equals has_byte
path_equals_query [] query n = refl
path_equals_query (c ∷ cs) query n = ground (arith, path_equals_query cs query)

-- A route whose path has no question mark takes exactly its path, and its path with a query behind
-- it; a longer path, with a slash at the end too, is another one.
pub path_equals_iff :
    (target path : Bytes)
    → has_byte b'?' path ≡ false
    → (path_equals target path ≡ true) ↔ IsFor path target
path_equals_iff target path n = (path_equals-IsFor target path, back)
  where
    back : IsFor path target → path_equals target path ≡ true
    back (inl e) = rw e (path_equals_self path n)
    back (inr (q, e)) = rw e (path_equals_query path q n)
