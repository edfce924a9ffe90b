-- ===== src/Tests/Reading.antt =====
-- src/http_reader.c on concrete streams.
use cinder_http.Prelude.{
  ℕ, zero, suc, ◌≡◌, ◌≢◌, ◌≤◌, ◌↔◌, refl, ap, true, List, [], ◌∷◌, ◌++◌, none, some, ok, err, arith,
  length, take,
}
use cinder_http.Limits.{http_max_message_bytes}
use cinder_http.Text.{Bytes, codes, Alloc}
use cinder_http.Parser.Framing.{split_lf}
use cinder_http.Reader.{
  Reader, Read, http_reader_init, client_closed, Turn, Poll, readable, Recv, received,
  end_of_stream, recv_interrupted, arrived, wait_readable,
}
use cinder_http.Reader.Next.{http_reader_next_request, Finished, ensure_capacity}
use cinder_http.Reader.HandOut.{IsFramed}
use cinder_http.Reader.Stream.{next_request-takes_one_message}
use cinder_http.Reader.Bounds.{IsValid, ensure_capacity_iff}
use cinder_http.Reader.Ends.{FitsSpace, Progresses, AllTurns, next_request-IsValid}
use cinder_http.Reader.Returns.{next_request-returns}
use cinder_http.Tests.Parsing.{granted_all}

-- The peer has sent one request and the beginning of the next.
abbrev first_request : Bytes
first_request = codes "GET / HTTP/1.1\r\n\r\n"

abbrev pub send_up_to : ℕ → Bytes → Recv
send_up_to space bs = nonempty (take space bs)
  where
    nonempty : Bytes → Recv
    nonempty [] = end_of_stream
    nonempty (b ∷ bs) = received b bs

abbrev arriving : Turn
arriving = record {
  before = none;
  polls = readable ∷ [];
  recv = λ space. send_up_to space (first_request ++ codes "GET");
  behind = some (record { tv_sec = 5; tv_nsec = 0 });
}

abbrev outcome : Finished
outcome = record {
  answer = ok first_request;
  reader = record { data_bytes = codes "GET"; capacity = 4096 };
  delivered = first_request ++ codes "GET";
}

reads_first :
    http_reader_next_request granted_all http_reader_init 30 none (arriving ∷ []) ≡ some outcome
unfolding http_reader_next_request cinder_http.Reader.Next.next_loop
    cinder_http.Reader.Next.before_wait cinder_http.Reader.Next.try_extract_length
    cinder_http.Reader.Next.needed_bytes cinder_http.Parser.Terminator.find_terminator
    ensure_capacity cinder_http.Reader.grow_from cinder_http.Reader.Next.after_ready wait_readable
    cinder_http.Reader.Next.after_recv cinder_http.Reader.Next.total_length
    cinder_http.Parser.Framing.http_inspect_message_framing cinder_http.Text.strcmp_eq
    cinder_http.Parser.Framing.inspect_after_request_line split_lf
    cinder_http.Parser.Framing.strip_cr cinder_http.Clock.remaining_ms
    cinder_http.Clock.remaining_timeout_ms cinder_http.Clock.timespec_before
    cinder_http.Parser.ContentLength.decimal_from
    cinder_http.Parser.ContentLength.http_parse_content_length_value
    cinder_http.Parser.Framing.inspect_field cinder_http.Parser.Framing.inspect_line
    cinder_http.Parser.Framing.inspect_lines cinder_http.Reader.Next.take_message
    cinder_http.Reader.map_framing_error cinder_http.Text.ascii_tolower cinder_http.Text.c_string
    cinder_http.Text.dup_range cinder_http.Text.header_name_equal cinder_http.Text.memchr
    cinder_http.Text.skip_ows cinder_http.Text.starts_with cinder_http.Text.strstr
    cinder_http.Text.trim_ows_end
reads_first = refl

next_request-takes_one_message_example :
    (first_request ++ codes "GET" ≡ [] ++ (first_request ++ codes "GET"))
    × IsFramed granted_all first_request
next_request-takes_one_message_example =
    next_request-takes_one_message granted_all http_reader_init 30 none (arriving ∷ [])
      first_request outcome reads_first refl

http_reader_init-IsValid : IsValid http_reader_init
http_reader_init-IsValid = record { fits = omega arith; bounded = omega arith }

ensure_capacity_iff_example :
    ((ensure_capacity granted_all http_reader_init 5000).0 ≡ true) ↔ (5000 ≤ http_max_message_bytes)
ensure_capacity_iff_example =
    ensure_capacity_iff granted_all http_reader_init 5000 (λ n. refl) http_reader_init-IsValid

-- A peer that sends one byte at a time.
abbrev one_byte : ℕ → Recv
one_byte zero = end_of_stream
one_byte (suc space) = received b'G' []

abbrev slow : Turn
slow = record {
  before = some (record { tv_sec = 5; tv_nsec = 0 });
  polls = readable ∷ [];
  recv = one_byte;
  behind = some (record { tv_sec = 5; tv_nsec = 0 });
}

slow-FitsSpace : FitsSpace slow
slow-FitsSpace = record { within = within }
  where
    within : (space : ℕ) → length (arrived space (one_byte space)) ≤ space
    within zero = omega arith
    within (suc space) = omega arith

slow-Progresses : Progresses slow
unfolding wait_readable
slow-Progresses = record {
  fits_space = slow-FitsSpace;
  polled = λ e. cc;
  not_interrupted = not_interrupted;
}
  where
    not_interrupted : (space : ℕ) → one_byte space ≢ recv_interrupted
    not_interrupted zero e = cc
    not_interrupted (suc space) e = cc

slow_turns : ℕ → List Turn
slow_turns zero = []
slow_turns (suc n) = slow ∷ slow_turns n

length-slow_turns : (n : ℕ) → length (slow_turns n) ≡ n
unfolding slow_turns
length-slow_turns zero = refl
length-slow_turns (suc n) = ap suc (length-slow_turns n)

slow_turns-Progresses : (n : ℕ) → AllTurns Progresses (slow_turns n)
unfolding slow_turns
slow_turns-Progresses zero = tt
slow_turns-Progresses (suc n) = (slow-Progresses, slow_turns-Progresses n)

next_request-returns_example :
    (f : Finished) × (http_reader_next_request granted_all http_reader_init 30 none
        (slow_turns 1_081_345)
      ≡ some f)
next_request-returns_example =
    next_request-returns granted_all http_reader_init 30 none (slow_turns 1_081_345)
      http_reader_init-IsValid (slow_turns-Progresses 1_081_345)
      (omega (arith, length-slow_turns 1_081_345))

waits_for_more : http_reader_next_request granted_all http_reader_init 30 none (slow ∷ []) ≡ none
unfolding http_reader_next_request cinder_http.Reader.Next.next_loop
    cinder_http.Reader.Next.before_wait cinder_http.Reader.Next.try_extract_length
    cinder_http.Reader.Next.needed_bytes cinder_http.Parser.Terminator.find_terminator
    ensure_capacity cinder_http.Reader.grow_from cinder_http.Reader.Next.after_ready wait_readable
    cinder_http.Reader.Next.after_recv
waits_for_more = refl

abbrev closing : Turn
closing = record slow { recv = λ space. end_of_stream }

closing-FitsSpace : FitsSpace closing
closing-FitsSpace = record { within = λ space. omega arith }

abbrev closed : Finished
closed = record {
  answer = err client_closed;
  reader = record { data_bytes = []; capacity = 8192 };
  delivered = b'G' ∷ [];
}

sees_end :
    http_reader_next_request granted_all http_reader_init 30 none (slow ∷ closing ∷ [])
    ≡ some closed
unfolding http_reader_next_request cinder_http.Reader.Next.next_loop
    cinder_http.Reader.Next.before_wait cinder_http.Reader.Next.try_extract_length
    cinder_http.Reader.Next.needed_bytes cinder_http.Parser.Terminator.find_terminator
    ensure_capacity cinder_http.Reader.grow_from cinder_http.Reader.Next.after_ready wait_readable
    cinder_http.Reader.Next.after_recv cinder_http.Clock.remaining_timeout_ms
    cinder_http.Clock.timespec_before cinder_http.Clock.remaining_ms
sees_end = refl

next_request-IsValid_example : IsValid (record { data_bytes = []; capacity = 8192 })
next_request-IsValid_example =
    next_request-IsValid granted_all http_reader_init 30 none (slow ∷ closing ∷ []) closed
      http_reader_init-IsValid (slow-FitsSpace, (closing-FitsSpace, tt)) sees_end
