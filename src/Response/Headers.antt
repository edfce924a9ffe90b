-- ===== src/Response/Headers.antt =====
-- The header list of a response in src/http_response.c.
use cinder_http.Prelude.{
  ℕ, zero, suc, ◌+◌, ◌*◌, ◌≤◌, ◌≡◌, refl, ap, ◌∙◌, Bool, true, false, List, [], ◌∷◌, ◌++◌,
  if◌then◌else◌, some, arith, length,
}
use cinder_http.Text.{Bytes, Alloc, header_name_equal}
use cinder_http.Request.{Header, find_header}
use cinder_http.Parser.Message.{count_headers}
use cinder_http.Response.{
  Response, swap_in, last_first, remove_from, http_response_remove_header, http_response_add_header,
  http_response_set_header,
}

unfoldable pub count_if : (Header → Bool) → List Header → ℕ
count_if p [] = 0
count_if p (h ∷ hs) = (if p h then 1 else 0) + count_if p hs

length-swap_in : (h : Header) (ls : List Header) → length (swap_in h ls) ≡ suc (length ls)
length-swap_in h [] = refl
length-swap_in h (l ∷ ls) = refl

length-last_first : (hs : List Header) → length (last_first hs) ≡ length hs
unfolding last_first
length-last_first [] = refl
length-last_first (h ∷ hs) = length-swap_in h (last_first hs) ∙ ap suc (length-last_first hs)

count_if-swap_in :
    (p : Header → Bool) (h : Header) (ls : List Header)
    → count_if p (swap_in h ls) ≡ (if p h then 1 else 0) + count_if p ls
unfolding count_if
count_if-swap_in p h [] = refl
count_if-swap_in p h (l ∷ ls) = omega arith

count_if-last_first :
    (p : Header → Bool) (hs : List Header) → count_if p (last_first hs) ≡ count_if p hs
unfolding last_first count_if
count_if-last_first p [] = refl
count_if-last_first p (h ∷ hs) =
    count_if-swap_in p h (last_first hs)
    ∙ ap (λ n. (if p h then 1 else 0) + n) (count_if-last_first p hs)

-- What a removal from `hs` with the result `(left, removed)` keeps.
pub record Removes (p : Header → Bool) (name : Bytes) (hs left : List Header) (removed : ℕ)
    : Type 0 where
  pub none_left : count_headers name left ≡ 0
  pub accounted : removed + length left ≡ length hs
  pub others : count_if p left ≡ count_if p hs

remove_from-Removes :
    (p : Header → Bool) (name : Bytes)
    → ((h : Header) → header_name_equal h.name name ≡ true → p h ≡ false)
    → (f : ℕ) (hs : List Header) → length hs ≤ f
    → let (left, removed) = remove_from f name hs in Removes p name hs left removed
unfolding remove_from count_headers count_if
remove_from-Removes p name other zero [] le = record {
  none_left = refl;
  accounted = refl;
  others = refl;
}
remove_from-Removes p name other zero (h ∷ hs) le = absurd (omega arith)
remove_from-Removes p name other (suc f) [] le = record {
  none_left = refl;
  accounted = refl;
  others = refl;
}
remove_from-Removes p name other (suc f) (h ∷ hs) le =
    go (header_name_equal h.name name) refl (remove_from f name (last_first hs))
      (remove_from-Removes p name other f (last_first hs) (omega (arith, length-last_first hs)))
      (remove_from f name hs) (remove_from-Removes p name other f hs (omega arith))
  where
    go :
        (b : Bool)
        → header_name_equal h.name name ≡ b
        → (dropped : List Header × ℕ) → Removes p name (last_first hs) dropped.0 dropped.1
        → (kept : List Header × ℕ) → Removes p name hs kept.0 kept.1
        → let (left, removed) : List Header × ℕ = elim b [
          | true ↦ (dropped.0, dropped.1 + 1)
          | false ↦ (h ∷ kept.0, kept.1)
        ] in
          Removes p name (h ∷ hs) left removed
    go true e dropped d kept k = record {
      none_left = d.none_left;
      accounted = omega (arith, d.accounted, length-last_first hs);
      others = rw (other h e) (omega (arith, d.others, count_if-last_first p hs));
    }
    go false e dropped d kept k = record {
      none_left = rw e (omega (arith, k.none_left));
      accounted = omega (arith, k.accounted);
      others = ap (λ n. (if p h then 1 else 0) + n) k.others;
    }

-- `http_response_remove_header` leaves no header of that name, in whatever case it is written, says
-- how many it removed, and keeps every other header as often as it was there: a property `p` that
-- no header of the name has is had by as many headers as before.
pub http_response_remove_header-Removes :
    (r : Response) (name : Bytes) (p : Header → Bool)
    → ((h : Header) → header_name_equal h.name name ≡ true → p h ≡ false)
    → let (r', removed) = http_response_remove_header r name in
      Removes p name r.headers r'.headers removed
unfolding http_response_remove_header
http_response_remove_header-Removes r name p other =
    remove_from-Removes p name other (length r.headers) r.headers (omega arith)

pub count_headers-append :
    (name : Bytes) (hs : List Header) (h : Header)
    → count_headers name (hs ++ h ∷ [])
      ≡ count_headers name hs + (if header_name_equal h.name name then 1 else 0)
unfolding count_headers
count_headers-append name [] h = omega arith
count_headers-append name (g ∷ hs) h = omega (arith, count_headers-append name hs h)

pub find_header-append :
    (name : Bytes) (hs : List Header) (h : Header)
    → count_headers name hs ≡ 0
    → header_name_equal h.name name ≡ true
    → find_header name (hs ++ h ∷ []) ≡ some h.value
unfolding count_headers find_header
find_header-append name [] h none_yet e = rw e refl
find_header-append name (g ∷ hs) h none_yet e = ground (arith, find_header-append name hs h, e)

pub header_name_equal_refl : (s : Bytes) → header_name_equal s s ≡ true
unfolding header_name_equal
header_name_equal_refl [] = refl
header_name_equal_refl (c ∷ cs) = ground (arith, header_name_equal_refl cs)

-- Setting a header, with the allocations granted, leaves exactly one header of that name, which
-- carries the new value.
pub http_response_set_header_lem :
    (alloc : Alloc) (r : Response) (name value : Bytes)
    → ((n : ℕ) → alloc n ≡ true)
    → let (set, r') = http_response_set_header alloc r name value in
      (set ≡ true)
      × (count_headers name r'.headers ≡ 1)
      × (find_header name r'.headers ≡ some value)
unfolding http_response_set_header http_response_add_header
http_response_set_header_lem alloc r name value granted =
    let cleared = (http_response_remove_header r name).0.headers in
    let removes = http_response_remove_header-Removes r name (λ h. false) (λ h e. refl) in
    let h : Header = record { name = name; value = value } in
    rw (granted (length name + 1), granted (length value + 1), granted ((length cleared + 1) * 16))
      (
        refl,
        count_headers-append name cleared h
            ∙ rw (header_name_equal_refl name) (omega (arith, removes.none_left)),
        find_header-append name cleared h removes.none_left (header_name_equal_refl name),
      )
