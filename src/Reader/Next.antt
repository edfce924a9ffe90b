-- ===== src/Reader/Next.antt =====
-- The functions of src/http_reader.c on a reader, and the loop of `http_reader_next_request`.
use cinder_http.Prelude.{
  ℕ, ◌+◌, ◌-◌, Bool, true, false, not, ◌||◌, List, [], ◌∷◌, ◌++◌, ◌==◌, ltb, leb, if◌then◌else◌,
  Option, none, some, ok, err, ◌>>=◌, ◌>>◌, require, length, take, drop, is_empty, min,
}
use cinder_http.Limits.{http_max_header_bytes, http_max_message_bytes}
use cinder_http.Text.{Bytes, Alloc}
use cinder_http.Clock.{Timespec, remaining_timeout_ms}
use cinder_http.Parser.Terminator.{http_find_header_terminator}
use cinder_http.Parser.Framing.{http_inspect_message_framing}
use cinder_http.Reader.{
  Read, Reader, client_closed, timeout, read_too_large, io_error, read_out_of_memory,
  initial_capacity, recv_chunk, grow_from, clear, framing_or_error, Ready, answers, waits, Wait,
  may_read, timed_out, broken, wait_readable, Recv, received, end_of_stream, recv_interrupted,
  would_block, recv_failed, Turn, Round, stops, goes_on, with_timeout, at_least_one,
}

-- The wait of a round that has a deadline: none is left once it is reached.
abbrev pub deadline_reached : Option Timespec → Option Timespec → Bool
deadline_reached none now = false
deadline_reached (some deadline) now = remaining_timeout_ms deadline now == 0

-- The deadline behind the first bytes: `none` if the clock fails.
abbrev pub next_deadline : ℕ → Option Timespec → Option Timespec → Option Timespec
next_deadline request_timeout_sec (some deadline) now = some deadline
next_deadline request_timeout_sec none (some now) = some (with_timeout request_timeout_sec now)
next_deadline request_timeout_sec none none = none

abbrev pub keep_received : Reader → Bytes → Option Timespec → Round
keep_received r bs none = stops (err io_error) r
keep_received r bs (some deadline) =
    goes_on (record r { data_bytes = r.data_bytes ++ bs }) (some deadline) bs

-- From the answer of `recv` on.
unfoldable pub after_recv : ℕ → Reader → Option Timespec → Option Timespec → Recv → Round
after_recv request_timeout_sec r deadline behind (received b bs) =
    keep_received r (b ∷ bs) (next_deadline request_timeout_sec deadline behind)
after_recv request_timeout_sec r deadline behind end_of_stream = stops (err client_closed) (clear r)
after_recv request_timeout_sec r deadline behind recv_interrupted = goes_on r deadline []
after_recv request_timeout_sec r deadline behind would_block = stops (err timeout) r
after_recv request_timeout_sec r deadline behind recv_failed = stops (err io_error) r

abbrev pub after_poll : ℕ → Reader → Option Timespec → Turn → Option Wait → Option Round
after_poll request_timeout_sec r deadline t none = none
after_poll request_timeout_sec r deadline t (some timed_out) = some (stops (err timeout) r)
after_poll request_timeout_sec r deadline t (some broken) = some (stops (err io_error) r)
after_poll request_timeout_sec r deadline t (some may_read) =
    some (
      after_recv request_timeout_sec r deadline t.behind
        (t.recv (r.capacity - length r.data_bytes)))

-- From the choice of the wait on; `none` while `poll` is interrupted.
unfoldable pub after_ready : ℕ → Reader → Option Timespec → Turn → Option Round
after_ready request_timeout_sec r deadline t =
    if deadline_reached deadline t.before
    then some (stops (err timeout) r)
    else after_poll request_timeout_sec r deadline t (wait_readable t.polls)

-- What a call comes to: its answer, the reader, and all that `recv` has delivered.
pub record Finished : Type 0 where
  pub answer : Read Bytes
  pub reader : Reader
  pub delivered : Bytes

abbrev pub add_delivered : Bytes → Option Finished → Option Finished
add_delivered bs none = none
add_delivered bs (some f) = some (record f { delivered = bs ++ f.delivered })

-- A round that goes on is followed by the rounds that `next` makes.
abbrev pub followed_by :
    Option Round → (Reader → Option Timespec → Option Finished) → Option Finished
followed_by none next = none
followed_by (some (stops a r)) next = some (record { answer = a; reader = r; delivered = [] })
followed_by (some (goes_on r deadline bs)) next = add_delivered bs (next r deadline)

abbrev pub or_wait : Ready → (Reader → Option Finished) → Option Finished
or_wait (answers a r) next = some (record { answer = a; reader = r; delivered = [] })
or_wait (waits r) next = next r

module _ (alloc : Alloc) where
  unfoldable pub ensure_capacity : Reader → ℕ → Bool × Reader
  ensure_capacity r needed =
      let start = if r.capacity == 0 then initial_capacity else r.capacity in
      let new_capacity = grow_from needed needed start in
      if leb needed r.capacity
      then (true, r)
      else if ltb http_max_message_bytes needed
      then (false, r)
      else if ltb new_capacity needed || ltb http_max_message_bytes new_capacity
      then (false, r)
      else if not (alloc new_capacity)
      then (false, r)
      else (true, record r { capacity = new_capacity })

  -- The end of the message whose header section ends at `header_end`.
  unfoldable pub total_length : Bytes → ℕ → Read ℕ
  total_length bytes header_end = do
    body_length ←
        framing_or_error (http_inspect_message_framing alloc (take (header_end + 4) bytes))
    require (leb body_length (http_max_message_bytes - (header_end + 4))) read_too_large
    ok (header_end + 4 + body_length)

  abbrev pub extract_at : Bytes → Option ℕ → Read ℕ
  extract_at bytes none =
      err (if leb http_max_header_bytes (length bytes) then read_too_large else io_error)
  extract_at bytes (some header_end) = do
    require (leb (header_end + 4) http_max_header_bytes) read_too_large
    total ← total_length bytes header_end
    require (leb total (length bytes)) io_error
    ok total

  -- `HTTP_READ_IO_ERROR` asks for more data.
  unfoldable pub try_extract_length : Bytes → Read ℕ
  try_extract_length bytes =
      if is_empty bytes then err io_error else extract_at bytes (http_find_header_terminator bytes)

  unfoldable pub take_message : Reader → ℕ → Read Bytes × Reader
  take_message r message_length =
      if not (alloc message_length) then (err read_out_of_memory, r) else (
        ok (take message_length r.data_bytes),
        record r { data_bytes = drop message_length r.data_bytes },
      )

  -- `need`, when the message is not complete.
  unfoldable pub needed_bytes : Bytes → Option ℕ → Read ℕ
  needed_bytes bytes none =
      let need = min (length bytes + recv_chunk) http_max_header_bytes in
      if leb http_max_header_bytes (length bytes)
      then err read_too_large
      else if leb need (length bytes)
      then err read_too_large
      else ok need
  needed_bytes bytes (some header_end) = total_length bytes header_end

  -- With the capacity ensured or not.
  abbrev pub make_room : ℕ → Bool × Reader → Ready
  make_room need (false, r) =
      if ltb http_max_message_bytes need
      then answers (err read_too_large) (clear r)
      else answers (err read_out_of_memory) r
  make_room need (true, r) =
      if r.capacity - length r.data_bytes == 0
      then answers (err read_too_large) (clear r)
      else waits r

  abbrev pub prepare : Reader → Read ℕ → Ready
  prepare r (err e) = answers (err e) (clear r)
  prepare r (ok need) = make_room need (ensure_capacity r need)

  abbrev pub hand_out : Read Bytes × Reader → Ready
  hand_out (message, r) = answers message r

  abbrev pub after_extract : Reader → Read ℕ → Ready
  after_extract r (ok message_length) = hand_out (take_message r message_length)
  after_extract r (err io_error) =
      prepare r (needed_bytes r.data_bytes (http_find_header_terminator r.data_bytes))
  after_extract r (err e) = answers (err e) (clear r)

  -- The round up to the wait.
  unfoldable pub before_wait : Reader → Ready
  before_wait r = after_extract r (try_extract_length r.data_bytes)

  -- The loop of `http_reader_next_request` over its turns: `none` while it waits for another one.
  unfoldable pub next_loop : ℕ → Reader → Option Timespec → List Turn → Option Finished
  next_loop request_timeout_sec r deadline [] = or_wait (before_wait r) (λ r'. none)
  next_loop request_timeout_sec r deadline (t ∷ ts) = or_wait (before_wait r) (λ r'.
      followed_by (after_ready request_timeout_sec r' deadline t)
        (λ r'' d. next_loop request_timeout_sec r'' d ts))

  -- `http_reader_next_request`, with the clock's answer at its start. The keep-alive time is only
  -- handed to `poll`.
  unfoldable pub http_reader_next_request :
      Reader → ℕ → Option Timespec → List Turn → Option Finished
  http_reader_next_request r request_timeout_sec now ts =
      let seconds = at_least_one request_timeout_sec in
      if is_empty r.data_bytes then next_loop seconds r none ts else elim now [
        | none ↦ some (record { answer = err io_error; reader = r; delivered = [] })
        | some start ↦ next_loop seconds r (some (with_timeout seconds start)) ts
      ]
