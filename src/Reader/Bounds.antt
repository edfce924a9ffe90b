-- ===== src/Reader/Bounds.antt =====
-- The buffer of src/http_reader.c: its invariant, its growth, and that a call ends.
use cinder_http.Prelude.{
  ℕ, zero, suc, ◌+◌, ◌-◌, ◌*◌, ◌/◌, ◌≤◌, ◌<◌, ◌≡◌, refl, ◌↔◌, Bool, true, false, not, ltb,
  if◌then◌else◌, ok, err, arith, length, length-drop, drop, take, ◌==◌,
}
use cinder_http.Limits.{http_max_message_bytes}
use cinder_http.Text.{Alloc}
use cinder_http.Parser.Terminator.{http_find_header_terminator}
use cinder_http.Reader.{
  Read, Reader, client_closed, timeout, read_too_large, io_error, read_bad_request,
  read_unsupported_transfer_encoding, read_invalid_content_length, read_out_of_memory,
  initial_capacity, grow_from, clear, Ready, answers, waits,
}
use cinder_http.Reader.Next.{
  ensure_capacity, try_extract_length, take_message, needed_bytes, make_room, prepare, hand_out,
  after_extract, before_wait,
}

pub record IsValid (r : Reader) : Type 0 where
  pub fits : length r.data_bytes ≤ r.capacity
  pub bounded : r.capacity ≤ http_max_message_bytes

grow_from-bounds :
    (f needed c : ℕ)
    → 0 < c
    → c ≤ http_max_message_bytes
    → needed ≤ http_max_message_bytes
    → needed ≤ f + c
    → (needed ≤ grow_from f needed c) × (grow_from f needed c ≤ http_max_message_bytes)
unfolding grow_from
grow_from-bounds zero needed c pos small limit le = (omega arith, omega arith)
grow_from-bounds (suc f) needed c pos small limit le =
    go (ltb c needed) refl (ltb (http_max_message_bytes / 2) c) refl
      (λ fair. grow_from-bounds f needed (c * 2) (omega arith) fair limit (omega arith))
  where
    Good : ℕ → Type 0
    Good x = (needed ≤ x) × (x ≤ http_max_message_bytes)

    go :
        (b : Bool)
        → ltb c needed ≡ b
        → (l : Bool) → ltb (http_max_message_bytes / 2) c ≡ l
        → (c * 2 ≤ http_max_message_bytes → Good (grow_from f needed (c * 2)))
        → Good (elim b [
          | false ↦ c
          | true ↦ elim l [ true ↦ http_max_message_bytes | false ↦ grow_from f needed (c * 2) ]
        ])
    go false eb l el later = (ground arith, small)
    go true eb true el later = (limit, omega arith)
    go true eb false el later = later (ground arith)

start_capacity : ℕ → ℕ
start_capacity c = if c == 0 then initial_capacity else c

start_capacity-bounds :
    (c : ℕ)
    → c ≤ http_max_message_bytes
    → (0 < start_capacity c) × (start_capacity c ≤ http_max_message_bytes)
unfolding start_capacity
start_capacity-bounds c le = ground arith

abbrev pub ReadyValid : Ready → Type 0
ReadyValid (answers a r) = IsValid r
ReadyValid (waits r) = IsValid r × (length r.data_bytes < r.capacity)

pub clear-IsValid : (r : Reader) → IsValid r → IsValid (clear r)
clear-IsValid r v = record { fits = omega arith; bounded = v.bounded }

module _ (alloc : Alloc) where
  ensure_capacity-IsValid :
      (r : Reader) (needed : ℕ) → IsValid r → IsValid (ensure_capacity alloc r needed).1
  unfolding ensure_capacity
  ensure_capacity-IsValid r needed v = ground arith

  -- With a limit on messages and every allocation granted, a valid reader gets the room it needs
  -- exactly up to the limit: the doubling reaches it.
  pub ensure_capacity_iff :
      (r : Reader) (needed : ℕ)
      → ((n : ℕ) → alloc n ≡ true)
      → IsValid r
      → ((ensure_capacity alloc r needed).0 ≡ true) ↔ (needed ≤ http_max_message_bytes)
  unfolding ensure_capacity start_capacity
  ensure_capacity_iff r needed granted v =
      let start = start_capacity-bounds r.capacity v.bounded in
      (
        λ h. ground arith,
        λ le. ground (
          arith,
          grow_from-bounds needed needed (start_capacity r.capacity) start.0 start.1 le
              (omega arith),
          granted (grow_from needed needed (start_capacity r.capacity)),
        ),
      )

  make_room-IsValid :
      (need : ℕ) (p : Bool × Reader) → IsValid p.1 → ReadyValid (make_room alloc need p)
  make_room-IsValid need (false, r) v = go (ltb http_max_message_bytes need)
    where
      go :
          (b : Bool)
          → ReadyValid (
              if b
              then answers (err read_too_large) (clear r)
              else answers (err read_out_of_memory) r)
      go true = clear-IsValid r v
      go false = v
  make_room-IsValid need (true, r) v = go (r.capacity - length r.data_bytes == 0) refl
    where
      go :
          (b : Bool)
          → (r.capacity - length r.data_bytes == 0) ≡ b
          → ReadyValid (if b then answers (err read_too_large) (clear r) else waits r)
      go true e = clear-IsValid r v
      go false e = (v, ground (arith, v.fits))

  prepare-IsValid : (r : Reader) (m : Read ℕ) → IsValid r → ReadyValid (prepare alloc r m)
  prepare-IsValid r (err e) v = clear-IsValid r v
  prepare-IsValid r (ok need) v =
      make_room-IsValid need (ensure_capacity alloc r need) (ensure_capacity-IsValid r need v)

  hand_out-IsValid :
      (r : Reader) (n : ℕ) → IsValid r → ReadyValid (hand_out alloc (take_message alloc r n))
  unfolding take_message
  hand_out-IsValid r n v = go (alloc n)
    where
      go :
          (b : Bool)
          → ReadyValid (
              hand_out alloc (
                if not b
                then (err read_out_of_memory, r)
                else (ok (take n r.data_bytes), record r { data_bytes = drop n r.data_bytes })))
      go true = record {
        fits = omega (arith, length-drop n r.data_bytes, v.fits);
        bounded = v.bounded;
      }
      go false = v

  pub before_wait-IsValid : (r : Reader) → IsValid r → ReadyValid (before_wait alloc r)
  unfolding before_wait
  before_wait-IsValid r v = go (try_extract_length alloc r.data_bytes)
    where
      go : (m : Read ℕ) → ReadyValid (after_extract alloc r m)
      go (ok n) = hand_out-IsValid r n v
      go (err io_error) =
          prepare-IsValid r
            (needed_bytes alloc r.data_bytes (http_find_header_terminator r.data_bytes)) v
      go (err client_closed) = clear-IsValid r v
      go (err timeout) = clear-IsValid r v
      go (err read_too_large) = clear-IsValid r v
      go (err read_bad_request) = clear-IsValid r v
      go (err read_unsupported_transfer_encoding) = clear-IsValid r v
      go (err read_invalid_content_length) = clear-IsValid r v
      go (err read_out_of_memory) = clear-IsValid r v
