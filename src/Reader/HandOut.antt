-- ===== src/Reader/HandOut.antt =====
-- What the part of a round before its wait hands out, in src/http_reader.c.
use cinder_http.Prelude.{
  ℕ, zero, suc, ◌+◌, ◌-◌, ◌≤◌, ◌≡◌, refl, sym, ap, ◌∙◌, Bool, true, false, not, [], ◌∷◌, ◌++◌, ltb,
  leb, if◌then◌else◌, Option, none, some, ok, err, >>=-eq-ok, require-eq-ok, arith, length, take,
  drop, length-take, take-append-drop, append-nil, leb→le, subst, ◌==◌,
}
use cinder_http.Limits.{http_max_header_bytes, http_max_message_bytes}
use cinder_http.Text.{Bytes, Alloc}
use cinder_http.Parser.Errors.{Parsed}
use cinder_http.Parser.Terminator.{http_find_header_terminator}
use cinder_http.Parser.Framing.{http_inspect_message_framing}
use cinder_http.Reader.{
  Read, Reader, client_closed, timeout, read_too_large, io_error, read_bad_request,
  read_unsupported_transfer_encoding, read_invalid_content_length, read_out_of_memory, clear,
  framing_or_error, Ready, answers, waits,
}
use cinder_http.Reader.Next.{
  ensure_capacity, total_length, extract_at, try_extract_length, take_message, needed_bytes,
  make_room, prepare, hand_out, after_extract, before_wait,
}
use cinder_http.Reader.Prefix.{found_in_prefix}

-- A message that is complete and no longer: its head, within the limit, announces the rest.
pub record IsFramed (alloc : Alloc) (message : Bytes) : Type 0 where
  pub term : ℕ
  pub body_length : ℕ
  pub found : http_find_header_terminator message ≡ some term
  pub short_head : term + 4 ≤ http_max_header_bytes
  pub framing : http_inspect_message_framing alloc (take (term + 4) message) ≡ ok body_length
  pub exact : length message ≡ term + 4 + body_length
  pub bounded : length message ≤ http_max_message_bytes

framing_or_error-eq-ok : (m : Parsed ℕ) {n : ℕ} → framing_or_error m ≡ ok n → m ≡ ok n
framing_or_error-eq-ok (ok m) h = cc
framing_or_error-eq-ok (err e) h = cc

take-take : (m n : ℕ) (xs : Bytes) → m ≤ n → take m (take n xs) ≡ take m xs
take-take zero n xs le = refl
take-take (suc m) zero xs le = absurd (omega arith)
take-take (suc m) (suc n) [] le = refl
take-take (suc m) (suc n) (x ∷ xs) le = ap (◌∷◌ x) (take-take m n xs (omega arith))

total_of_parts :
    (term body total : ℕ)
    → ◌≡◌ {A = Read ℕ} (ok (term + 4 + body)) (ok total)
    → term + 4 + body ≡ total
total_of_parts term body total h = cc

module _ (alloc : Alloc) where
  framed :
      (bytes : Bytes) (term body total : ℕ)
      → http_find_header_terminator bytes ≡ some term
      → term + 4 ≤ http_max_header_bytes
      → http_inspect_message_framing alloc (take (term + 4) bytes) ≡ ok body
      → body ≤ http_max_message_bytes - (term + 4)
      → term + 4 + body ≡ total
      → total ≤ length bytes
      → IsFramed alloc (take total bytes) × (total ≤ length bytes)
  framed bytes term body total found short framing small is_total enough = (
    record {
      term = term;
      body_length = body;
      found = found_in_prefix 0 term total bytes found (omega arith);
      short_head = short;
      framing =
          ap (http_inspect_message_framing alloc) (take-take (term + 4) total bytes (omega arith))
          ∙ framing;
      exact = omega (arith, length-take total bytes);
      bounded = omega (arith, length-take total bytes);
    },
    enough,
  )

  extract_at-IsFramed :
      (bytes : Bytes) (o : Option ℕ) {n : ℕ}
      → http_find_header_terminator bytes ≡ o
      → extract_at alloc bytes o ≡ ok n
      → IsFramed alloc (take n bytes) × (n ≤ length bytes)
  unfolding total_length
  extract_at-IsFramed bytes none at h = cc
  extract_at-IsFramed bytes (some term) {n} at h =
      let (short, h₁) = require-eq-ok (leb (term + 4) http_max_header_bytes) read_too_large _ h in
      let (total, measured, h₂) = >>=-eq-ok (total_length alloc bytes term) _ h₁ in
      let (body, framing, h₃) =
        >>=-eq-ok (framing_or_error (http_inspect_message_framing alloc (take (term + 4) bytes))) _
          measured in
      let (small, h₄) =
        require-eq-ok (leb body (http_max_message_bytes - (term + 4))) read_too_large _ h₃ in
      let (enough, h₅) = require-eq-ok (leb total (length bytes)) io_error _ h₂ in
      let same : total ≡ n = cc in
      subst (λ k. IsFramed alloc (take k bytes) × (k ≤ length bytes)) same
        (framed bytes term body total at (leb→le _ _ short)
          (framing_or_error-eq-ok (http_inspect_message_framing alloc (take (term + 4) bytes))
            framing)
          (leb→le _ _ small) (total_of_parts term body total h₄) (leb→le _ _ enough))

  try_extract_length-IsFramed :
      (bytes : Bytes) {n : ℕ}
      → try_extract_length alloc bytes ≡ ok n
      → IsFramed alloc (take n bytes) × (n ≤ length bytes)
  unfolding try_extract_length
  try_extract_length-IsFramed [] h = cc
  try_extract_length-IsFramed (b ∷ bs) h =
      extract_at-IsFramed (b ∷ bs) (http_find_header_terminator (b ∷ bs)) refl h

  -- A message handed out is framed, and it, what is left and what came are the stream as it was.
  abbrev pub Taken : Bytes → Read Bytes → Reader → Bytes → Type 0
  Taken before (err e) r delivered = Unit {0}
  Taken before (ok message) r delivered =
      (message ++ r.data_bytes ≡ before ++ delivered) × IsFramed alloc message

  abbrev pub ReadyTaken : Bytes → Ready → Type 0
  ReadyTaken before (answers a r) = Taken before a r []
  ReadyTaken before (waits r) = r.data_bytes ≡ before

  ensure_capacity-data_bytes :
      (r : Reader) (need : ℕ) → (ensure_capacity alloc r need).1.data_bytes ≡ r.data_bytes
  unfolding ensure_capacity
  ensure_capacity-data_bytes r need = ground arith

  make_room-ReadyTaken :
      (before : Bytes) (need : ℕ) (p : Bool × Reader)
      → p.1.data_bytes ≡ before
      → ReadyTaken before (make_room alloc need p)
  make_room-ReadyTaken before need (false, r) same = go (ltb http_max_message_bytes need)
    where
      go :
          (b : Bool)
          → ReadyTaken before (
              if b
              then answers (err read_too_large) (clear r)
              else answers (err read_out_of_memory) r)
      go true = tt
      go false = tt
  make_room-ReadyTaken before need (true, r) same = go (r.capacity - length r.data_bytes == 0)
    where
      go :
          (b : Bool)
          → ReadyTaken before (if b then answers (err read_too_large) (clear r) else waits r)
      go true = tt
      go false = same

  prepare-ReadyTaken : (r : Reader) (m : Read ℕ) → ReadyTaken r.data_bytes (prepare alloc r m)
  prepare-ReadyTaken r (err e) = tt
  prepare-ReadyTaken r (ok need) =
      make_room-ReadyTaken r.data_bytes need (ensure_capacity alloc r need)
        (ensure_capacity-data_bytes r need)

  hand_out-ReadyTaken :
      (r : Reader) (n : ℕ)
      → IsFramed alloc (take n r.data_bytes)
      → ReadyTaken r.data_bytes (hand_out alloc (take_message alloc r n))
  unfolding take_message
  hand_out-ReadyTaken r n f = go (alloc n)
    where
      go :
          (b : Bool)
          → ReadyTaken r.data_bytes (
              hand_out alloc (
                if not b
                then (err read_out_of_memory, r)
                else (ok (take n r.data_bytes), record r { data_bytes = drop n r.data_bytes })))
      go true = (take-append-drop n r.data_bytes ∙ sym (append-nil r.data_bytes), f)
      go false = tt

  pub before_wait-ReadyTaken : (r : Reader) → ReadyTaken r.data_bytes (before_wait alloc r)
  unfolding before_wait
  before_wait-ReadyTaken r = go (try_extract_length alloc r.data_bytes) refl
    where
      go :
          (m : Read ℕ)
          → try_extract_length alloc r.data_bytes ≡ m
          → ReadyTaken r.data_bytes (after_extract alloc r m)
      go (ok n) e = hand_out-ReadyTaken r n ((try_extract_length-IsFramed r.data_bytes e).0)
      go (err io_error) e =
          prepare-ReadyTaken r
            (needed_bytes alloc r.data_bytes (http_find_header_terminator r.data_bytes))
      go (err client_closed) e = tt
      go (err timeout) e = tt
      go (err read_too_large) e = tt
      go (err read_bad_request) e = tt
      go (err read_unsupported_transfer_encoding) e = tt
      go (err read_invalid_content_length) e = tt
      go (err read_out_of_memory) e = tt
