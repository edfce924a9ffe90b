-- ===== src/Reader.antt =====
-- src/http_reader.c and include/http_reader.h: a connection's buffer, from which one framed request
-- after the other is taken. The clock, `poll` and `recv` answer through a list of turns.
pub mod Next
pub mod Prefix
pub mod HandOut
pub mod Stream
pub mod Bounds
pub mod Ends
pub mod Returns
use cinder_http.Prelude.{
  ℕ, zero, suc, ◌+◌, ◌-◌, ◌*◌, ◌/◌, Bool, true, false, not, ◌||◌, List, [], ◌∷◌, ◌++◌, ◌==◌, ltb,
  leb, if◌then◌else◌, Option, none, some, Result, ok, err, ◌>>=◌, ◌>>◌, require, length, take, drop,
  is_empty,
}
use cinder_http.Limits.{http_max_header_bytes, http_max_message_bytes}
use cinder_http.Text.{Bytes, Alloc}
use cinder_http.Clock.{Timespec, remaining_timeout_ms}
use cinder_http.Parser.Errors.{
  Parsed, ParseError, bad_request, unsupported_method, unsupported_version, too_large,
  too_many_headers, invalid_content_length, unsupported_transfer_encoding, out_of_memory,
}
use cinder_http.Parser.Terminator.{http_find_header_terminator}
use cinder_http.Parser.Framing.{http_inspect_message_framing}

-- `http_read_result_t`. `HTTP_READ_OK` is the `ok` of a `Result`.
pub data ReadError : Type 0 where
  client_closed timeout read_too_large io_error read_bad_request : ReadError
  read_unsupported_transfer_encoding read_invalid_content_length read_out_of_memory : ReadError

abbrev pub Read : Type 0 → Type 0
Read = Result ReadError

-- `http_reader_t`: the first `length` bytes of its buffer, and `capacity`.
pub record Reader : Type 0 where
  pub data_bytes : Bytes
  pub capacity : ℕ

abbrev pub http_reader_init : Reader
http_reader_init = record { data_bytes = []; capacity = 0 }

unfoldable pub map_framing_error : ParseError → ReadError
map_framing_error too_large = read_too_large
map_framing_error unsupported_transfer_encoding = read_unsupported_transfer_encoding
map_framing_error invalid_content_length = read_invalid_content_length
map_framing_error out_of_memory = read_out_of_memory
map_framing_error bad_request = read_bad_request
map_framing_error unsupported_method = read_bad_request
map_framing_error unsupported_version = read_bad_request
map_framing_error too_many_headers = read_bad_request

abbrev pub initial_capacity : ℕ
initial_capacity = 4096

abbrev pub recv_chunk : ℕ
recv_chunk = 4096

-- The loop of `ensure_capacity`. The capacity is not 0 and doubles, so `needed` rounds are enough.
unfoldable pub grow_from : ℕ → ℕ → ℕ → ℕ
grow_from zero needed new_capacity = new_capacity
grow_from (suc f) needed new_capacity = elim (ltb new_capacity needed) [
  | false ↦ new_capacity
  | true ↦ elim (ltb (http_max_message_bytes / 2) new_capacity) [
    | true ↦ http_max_message_bytes
    | false ↦ grow_from f needed (new_capacity * 2)
  ]
]

abbrev pub clear : Reader → Reader
clear r = record r { data_bytes = [] }

abbrev pub framing_or_error : Parsed ℕ → Read ℕ
framing_or_error (ok n) = ok n
framing_or_error (err e) = err (map_framing_error e)

-- What follows the tests of the loop, up to the wait.
pub data Ready : Type 0 where
  answers : Read Bytes → Reader → Ready
  waits : Reader → Ready

pub data Poll : Type 0 where
  interrupted expired failed hung_up readable other_event : Poll

pub data Wait : Type 0 where
  may_read timed_out broken : Wait

-- The loop of `wait_readable` over the answers of `poll`: `none` while it is interrupted.
unfoldable pub wait_readable : List Poll → Option Wait
wait_readable [] = none
wait_readable (interrupted ∷ ps) = wait_readable ps
wait_readable (expired ∷ ps) = some timed_out
wait_readable (failed ∷ ps) = some broken
wait_readable (hung_up ∷ ps) = some may_read
wait_readable (readable ∷ ps) = some may_read
wait_readable (other_event ∷ ps) = some broken

-- What `recv` answers: at least one byte, the end of the stream, or an error.
pub data Recv : Type 0 where
  received : ℕ → Bytes → Recv
  end_of_stream recv_interrupted would_block recv_failed : Recv

-- One round of the loop outside the program: the clock before the wait, `poll`, `recv` for so much
-- space, and the clock behind it.
pub record Turn : Type 0 where
  pub before : Option Timespec
  pub polls : List Poll
  pub recv : ℕ → Recv
  pub behind : Option Timespec

-- What a round comes to: an answer, or a further round with a deadline and what was received.
pub data Round : Type 0 where
  stops : Read Bytes → Reader → Round
  goes_on : Reader → Option Timespec → Bytes → Round

abbrev pub with_timeout : ℕ → Timespec → Timespec
with_timeout request_timeout_sec now = record now { tv_sec = now.tv_sec + request_timeout_sec }

abbrev pub at_least_one : ℕ → ℕ
at_least_one n = if ltb n 1 then 1 else n

abbrev pub arrived : ℕ → Recv → Bytes
arrived space (received b bs) = b ∷ bs
arrived space _ = []
