-- ===== src/Connection/Tokens.antt =====
-- What `http_header_value_has_token` of src/http_connection.c finds.
use cinder_http.Prelude.{
  ℕ, ◌≡◌, refl, ap, sym, ◌∙◌, inl, inr, ◌↔◌, true, false, List, [], ◌∷◌, ◌++◌, ◌==◌, some, arith,
  is_empty, Bool-cases, ==→eq, subst,
}
use cinder_http.Text.{Bytes, has_byte, header_name_equal, skip_ows, trim_ows_end}
use cinder_http.Text.Letters.{
  same_name, header_name_equal-same_name, IsTrimmed, trim_ows_end-IsTrimmed, IsTrimmed-trim_ows_end,
}
use cinder_http.Connection.{
  onto_first, split_comma, is_piece, any_piece, http_header_value_has_token,
}

-- The texts between the commas, as they stand in the value.
unfoldable pub join_comma : List Bytes → Bytes
join_comma [] = []
join_comma (p ∷ []) = p
join_comma (p ∷ q ∷ ps) = p ++ b',' ∷ join_comma (q ∷ ps)

abbrev pub LackComma : List Bytes → Type 0
LackComma [] = Unit
LackComma (p ∷ ps) = (has_byte b',' p ≡ false) × LackComma ps

-- White space, the token in whatever case its letters are, and white space.
pub record IsToken (token element : Bytes) : Type 0 where
  pub core : Bytes
  pub trimmed : IsTrimmed element core
  pub same : same_name core token ≡ true

-- A list of comma-separated elements, one of which is the token.
pub record IsListed (token value : Bytes) : Type 0 where
  pub before : List Bytes
  pub element : Bytes
  pub behind : List Bytes
  pub whole : value ≡ join_comma (before ++ element ∷ behind)
  pub elements : LackComma (before ++ element ∷ behind)
  pub is_token : IsToken token element

is_piece-IsToken : (token element : Bytes) → is_piece token element ≡ true → IsToken token element
is_piece-IsToken token element h = record {
  core = trim_ows_end (skip_ows element);
  trimmed = trim_ows_end-IsTrimmed element;
  same = sym (header_name_equal-same_name (trim_ows_end (skip_ows element)) token) ∙ h;
}

IsToken-is_piece :
    (token element : Bytes)
    → is_empty token ≡ false
    → IsToken token element
    → is_piece token element ≡ true
unfolding same_name
IsToken-is_piece token element ne t = go t.core token ne t.trimmed t.same
  where
    go :
        (core token : Bytes)
        → is_empty token ≡ false
        → IsTrimmed element core
        → same_name core token ≡ true
        → is_piece token element ≡ true
    go core [] n trimmed same = absurd (cc)
    go [] (x ∷ xs) n trimmed same = absurd (cc)
    go (c ∷ cs) (x ∷ xs) n trimmed same =
        ap (λ k. header_name_equal k (x ∷ xs)) (IsTrimmed-trim_ows_end element c cs trimmed)
        ∙ header_name_equal-same_name (c ∷ cs) (x ∷ xs)
        ∙ same

onto_first-join_comma : (c : ℕ) (ps : List Bytes) → join_comma (onto_first c ps) ≡ c ∷ join_comma ps
unfolding join_comma
onto_first-join_comma c [] = refl
onto_first-join_comma c (p ∷ []) = refl
onto_first-join_comma c (p ∷ q ∷ ps) = refl

join_comma-nil_first :
    (ps : List Bytes) (p : Bytes) → join_comma ([] ∷ p ∷ ps) ≡ b',' ∷ join_comma (p ∷ ps)
unfolding join_comma
join_comma-nil_first ps p = refl

split_comma-cons : (s : Bytes) → (p : Bytes) × (ps : List Bytes) × (split_comma s ≡ p ∷ ps)
unfolding split_comma
split_comma-cons [] = ([], [], refl)
split_comma-cons (c ∷ cs) = elim (Bool-cases (c == b',')) [
  | inl comma ↦ ([], split_comma cs, rw comma refl)
  | inr other ↦ let (p, ps, e) = split_comma-cons cs in (c ∷ p, ps, rw other (ap (onto_first c) e))
]

join_comma-split_comma : (s : Bytes) → join_comma (split_comma s) ≡ s
unfolding split_comma join_comma
join_comma-split_comma [] = refl
join_comma-split_comma (c ∷ cs) = elim (Bool-cases (c == b',')) [
  | inl comma ↦
      let (p, ps, e) = split_comma-cons cs in
      let head : b',' ≡ c = sym (==→eq _ _ comma) in
      rw comma (
        ap (λ x. join_comma ([] ∷ x)) e
        ∙ ap (λ x. b',' ∷ join_comma x) (sym e)
        ∙ ap (λ t. b',' ∷ t) (join_comma-split_comma cs)
        ∙ ap (λ x. x ∷ cs) head)
  | inr other ↦
      rw other (onto_first-join_comma c (split_comma cs) ∙ ap (◌∷◌ c) (join_comma-split_comma cs))
]

split_comma-LackComma : (s : Bytes) → LackComma (split_comma s)
unfolding split_comma has_byte
split_comma-LackComma [] = (refl, tt)
split_comma-LackComma (c ∷ cs) = elim (Bool-cases (c == b',')) [
  | inl comma ↦ rw comma (refl, split_comma-LackComma cs)
  | inr other ↦ rw other (go (split_comma cs) (split_comma-LackComma cs) other)
]
  where
    go : (ps : List Bytes) → LackComma ps → c == b',' ≡ false → LackComma (onto_first c ps)
    go [] l e = (rw e refl, tt)
    go (p ∷ ps) l e = (rw e l.0, l.1)

split_comma-join_comma :
    (p : Bytes) (ps : List Bytes) → LackComma (p ∷ ps) → split_comma (join_comma (p ∷ ps)) ≡ p ∷ ps
unfolding split_comma join_comma has_byte
split_comma-join_comma [] [] l = refl
split_comma-join_comma [] (q ∷ qs) l = ap (◌∷◌ []) (split_comma-join_comma q qs l.1)
split_comma-join_comma (c ∷ cs) [] l =
    let other : c == b',' ≡ false = ground (arith, l.0) in
    let later : has_byte b',' cs ≡ false = ground (arith, l.0) in
    rw other (ap (onto_first c) (split_comma-join_comma cs [] (later, tt)))
split_comma-join_comma (c ∷ cs) (q ∷ qs) l =
    let other : c == b',' ≡ false = ground (arith, l.0) in
    let later : has_byte b',' cs ≡ false = ground (arith, l.0) in
    rw other (ap (onto_first c) (split_comma-join_comma cs (q ∷ qs) (later, l.1)))

-- A piece that is the token, in its place.
record Found (token : Bytes) (pieces : List Bytes) : Type 0 where
  before : List Bytes
  element : Bytes
  behind : List Bytes
  place : pieces ≡ before ++ element ∷ behind
  is_token : is_piece token element ≡ true

any_piece-Found : (token : Bytes) (ps : List Bytes) → any_piece token ps ≡ true → Found token ps
unfolding any_piece
any_piece-Found token [] h = absurd (cc)
any_piece-Found token (p ∷ ps) h = elim (Bool-cases (is_piece token p)) [
  | inl here ↦ record { before = []; element = p; behind = ps; place = refl; is_token = here }
  | inr later ↦
      let f = any_piece-Found token ps (rw later at h) in
      record {
        before = p ∷ f.before;
        element = f.element;
        behind = f.behind;
        place = ap (◌∷◌ p) f.place;
        is_token = f.is_token;
      }
]

any_piece-place :
    (token : Bytes) (before : List Bytes) (element : Bytes) (behind : List Bytes)
    → is_piece token element ≡ true
    → any_piece token (before ++ element ∷ behind) ≡ true
unfolding any_piece
any_piece-place token [] element behind h = rw h refl
any_piece-place token (p ∷ ps) element behind h =
    ground (arith, any_piece-place token ps element behind h)

split_comma-placed :
    (before : List Bytes) (element : Bytes) (behind : List Bytes)
    → LackComma (before ++ element ∷ behind)
    → split_comma (join_comma (before ++ element ∷ behind)) ≡ before ++ element ∷ behind
split_comma-placed [] element behind l = split_comma-join_comma element behind l
split_comma-placed (p ∷ ps) element behind l = split_comma-join_comma p (ps ++ element ∷ behind) l

-- A token that is not empty is found exactly if it is an element of the comma-separated value, in
-- whatever case its letters are written and with the spaces and tabs round the element ignored.
pub http_header_value_has_token_iff :
    (value token : Bytes)
    → is_empty token ≡ false
    → (http_header_value_has_token (some value) token ≡ true) ↔ IsListed token value
unfolding http_header_value_has_token
http_header_value_has_token_iff value token ne = (
  λ h.
      let f = any_piece-Found token (split_comma value) (rw ne at h) in
      record {
        before = f.before;
        element = f.element;
        behind = f.behind;
        whole = sym (join_comma-split_comma value) ∙ ap join_comma f.place;
        elements = subst LackComma f.place (split_comma-LackComma value);
        is_token = is_piece-IsToken token f.element f.is_token;
      },
  λ l. rw ne (
      ap (λ s. any_piece token (split_comma s)) l.whole
      ∙ ap (any_piece token) (split_comma-placed l.before l.element l.behind l.elements)
      ∙ any_piece-place token l.before l.element l.behind
          (IsToken-is_piece token l.element ne l.is_token)),
)
