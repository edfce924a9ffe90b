-- ===== src/Response/Bodies.antt =====
-- What the operations of src/http_response.c on headers leave as it is, and which of its responses
-- hold no descriptor.
use cinder_http.Prelude.{
  ℕ, ◌+◌, ◌*◌, ◌≡◌, refl, ap, ◌∙◌, Bool, true, false, not, ◌&&◌, [], ◌∷◌, ◌++◌, if◌then◌else◌, some,
  length,
}
use cinder_http.Text.{Bytes, codes, Alloc}
use cinder_http.Parser.HeaderLine.{sizeof_header}
use cinder_http.Response.{
  Response, http_response_add_header, http_response_set_header, http_response_remove_header,
  closed_by_destroy, closed_by_clear, of_option, http_response_init, http_response_set_status,
  http_response_set_body_text, build_with_type, set_body_owned,
}

-- The status and the body are those of the other response.
pub record Untouched (r r' : Response) : Type 0 where
  pub status_code : r'.status_code ≡ r.status_code
  pub body : r'.body ≡ r.body

pub add_header-Untouched :
    (alloc : Alloc) (r : Response) (name value : Bytes)
    → Untouched r (http_response_add_header alloc r name value).1
unfolding http_response_add_header
add_header-Untouched alloc r name value = go (
    alloc (length name + 1)
    && alloc (length value + 1)
    && alloc ((length r.headers + 1) * sizeof_header))
  where
    go :
        (b : Bool)
        → let p : Bool × Response =
            if b
            then (
              true,
              record r { headers = r.headers ++ record { name = name; value = value } ∷ [] },
            )
            else (false, r) in
          Untouched r p.1
    go true = record { status_code = refl; body = refl }
    go false = record { status_code = refl; body = refl }

pub set_header-Untouched :
    (alloc : Alloc) (r : Response) (name value : Bytes)
    → Untouched r (http_response_set_header alloc r name value).1
unfolding http_response_set_header http_response_remove_header
set_header-Untouched alloc r name value =
    let u = add_header-Untouched alloc (http_response_remove_header r name).0 name value in
    record { status_code = u.status_code; body = u.body }

abbrev pub HoldsNone : Response → Type 0
HoldsNone r = closed_by_destroy r ≡ []

pub Untouched-HoldsNone : (r r' : Response) → Untouched r r' → HoldsNone r → HoldsNone r'
Untouched-HoldsNone r r' u h = ap (λ b. of_option (closed_by_clear b)) u.body ∙ h

pub add_header-HoldsNone :
    (alloc : Alloc) (r : Response) (name value : Bytes)
    → HoldsNone r
    → HoldsNone (http_response_add_header alloc r name value).1
add_header-HoldsNone alloc r name value =
    Untouched-HoldsNone r _ (add_header-Untouched alloc r name value)

pub set_body_text-HoldsNone :
    (alloc : Alloc) (r : Response) (text : Bytes)
    → HoldsNone r
    → HoldsNone (http_response_set_body_text alloc r text).1
unfolding http_response_set_body_text
set_body_text-HoldsNone alloc r text h = go (alloc (length text + 1))
  where
    go :
        (b : Bool)
        → let p : Bool × Response =
            if b then (true, set_body_owned r (some text) (length text)) else (false, r) in
          HoldsNone p.1
    go true = refl
    go false = h

-- A body that was set, or not, and then a header.
pub then_header-HoldsNone :
    (alloc : Alloc) (p : Bool × Response) (name value : Bytes)
    → HoldsNone p.1
    → let (done, filled) = p in
      HoldsNone
        (if not done then (false, filled) else http_response_add_header alloc filled name value).1
then_header-HoldsNone alloc (true, r) name value h = add_header-HoldsNone alloc r name value h
then_header-HoldsNone alloc (false, r) name value h = h

pub build_with_type-HoldsNone :
    (alloc : Alloc) (t : Bytes) (r : Response) (status : ℕ) (text : Bytes)
    → HoldsNone (build_with_type alloc t r status text).1
unfolding build_with_type
build_with_type-HoldsNone alloc t r status text =
    let started = http_response_set_status http_response_init status in
    then_header-HoldsNone alloc (http_response_set_body_text alloc started text)
      (codes "Content-Type") t (set_body_text-HoldsNone alloc started text refl)
