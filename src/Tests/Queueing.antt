-- ===== src/Tests/Queueing.antt =====
-- src/connection_queue.c, the clock arithmetic and the small parsers on concrete data.
use cinder_http.Prelude.{
  ◌*◌, ◌+◌, ◌≡◌, refl, true, false, List, [], ◌∷◌, ◌++◌, some, ok, err, arith, pos, replicate, leb,
  if◌then◌else◌,
}
use cinder_http.Limits.{http_max_body_size}
use cinder_http.Text.{codes}
use cinder_http.Clock.{Timespec, timespec_add_ms}
use cinder_http.Clock.Laws.{IsNormal, nanoseconds, timespec_add_ms_exact}
use cinder_http.Queue
use cinder_http.Queue.{
  Queue, InitCalls, connection_queue_init, connection_queue_destroy, Readings, Pass, returns,
  sleeps, push_pass, push_loop, Wake, woken, Status,
}
use cinder_http.Queue.Invariant.{IsValid, contents}
use cinder_http.Queue.Fifo
use cinder_http.Queue.Fifo.{Op, push, pop, close, Reply}
use cinder_http.Queue.Refine.{
  turn, turns, view, turn-IsValid, turns_refines, turns_balance, all_taken, all_given,
}
use cinder_http.Queue.Drain.{pops_after_shutdown, drain_replies}
use cinder_http.Queue.Waiting.{push_loop-Pushed, Pushed}
use cinder_http.Decimal.{format_decimal}
use cinder_http.Decimal.RoundTrip.{content_length-format}
use cinder_http.Parser.Errors.{too_large, invalid_content_length}
use cinder_http.Parser.ContentLength.{http_parse_content_length_value, ullong_max}
use cinder_http.Parser.Terminator.{http_find_header_terminator}
use cinder_http.Parser.Terminator.First.{IsFirst, http_find_header_terminator-IsFirst}

abbrev pub granted : InitCalls
granted = record {
  calloc_granted = true;
  mutex_made = true;
  not_empty_made = true;
  not_full_made = true;
}

abbrev ready : Readings
ready = record { aborted = false; clock_ok = true }

abbrev pub empty_queue : Queue
empty_queue = record {
  items = pos 0 ∷ pos 0 ∷ [];
  capacity = 2;
  head = 0;
  tail = 0;
  count = 0;
  shutting_down = false;
  mutex_initialized = true;
  not_empty_initialized = true;
  not_full_initialized = true;
}

pub empty_queue-IsValid : IsValid empty_queue
empty_queue-IsValid = record {
  storage = refl;
  some_room = omega arith;
  addressable = omega arith;
  head_in = omega arith;
  tail_in = omega arith;
  count_in = omega arith;
  tail_is = refl;
  ready = refl;
}

-- 7, then 8, round the end of the storage
abbrev full_queue : Queue
full_queue = record empty_queue { items = pos 8 ∷ pos 7 ∷ []; head = 1; tail = 1; count = 2 }

abbrev closed_queue : Queue
closed_queue = record full_queue { shutting_down = true }

full_queue-IsValid : IsValid full_queue
full_queue-IsValid = record {
  storage = refl;
  some_room = omega arith;
  addressable = omega arith;
  head_in = omega arith;
  tail_in = omega arith;
  count_in = omega arith;
  tail_is = refl;
  ready = refl;
}

closed_queue-IsValid : IsValid closed_queue
closed_queue-IsValid = record {
  storage = refl;
  some_room = omega arith;
  addressable = omega arith;
  head_in = omega arith;
  tail_in = omega arith;
  count_in = omega arith;
  tail_is = refl;
  ready = refl;
}

turn-IsValid_example : IsValid (turn full_queue pop).1
turn-IsValid_example = turn-IsValid full_queue pop full_queue-IsValid

abbrev script : List Op
script = push (pos 9) ready ∷ pop ∷ push (pos 9) ready ∷ close ∷ pop ∷ pop ∷ pop ∷ []

turns_refines_example :
    let (replies, last) = turns full_queue script in
    (replies, view last) ≡ Fifo.run 2 (view full_queue) script
turns_refines_example = turns_refines script full_queue full_queue-IsValid

turns_balance_example :
    let (replies, last) = turns full_queue script in
    contents full_queue ++ all_taken script replies ≡ all_given replies ++ contents last
turns_balance_example = turns_balance script full_queue full_queue-IsValid

pops_after_shutdown_example :
    (turns closed_queue (replicate 3 pop)).0 ≡ drain_replies (pos 7 ∷ pos 8 ∷ []) 3
pops_after_shutdown_example = pops_after_shutdown 3 closed_queue closed_queue-IsValid refl

abbrev wakes : List Wake
wakes = record { answer = woken; queue = empty_queue; readings = ready } ∷ []

abbrev one_queue : Queue
one_queue = record empty_queue { items = pos 9 ∷ pos 0 ∷ []; tail = 1; count = 1 }

wakes_to_room : push_loop full_queue (pos 9) ready wakes ≡ some (Queue.ok, one_queue)
unfolding push_loop push_pass
wakes_to_room = refl

push_loop-Pushed_example : Pushed full_queue (pos 9) ready wakes Queue.ok one_queue
push_loop-Pushed_example =
    push_loop-Pushed wakes full_queue (pos 9) ready full_queue-IsValid (empty_queue-IsValid, tt)
      wakes_to_room

abbrev early : Timespec
early = record { tv_sec = 1; tv_nsec = 999_000_000 }

abbrev late : Timespec
late = record { tv_sec = 3; tv_nsec = 5 }

timespec_add_ms_exact_example :
    IsNormal (timespec_add_ms early 1500)
    × (nanoseconds (timespec_add_ms early 1500) ≡ nanoseconds early + 1500 * 1_000_000)
timespec_add_ms_exact_example = timespec_add_ms_exact early 1500 (omega arith)

content_length-format_example : http_parse_content_length_value (format_decimal 1_048_577) ≡ (
    if leb 1_048_577 http_max_body_size
    then ok 1_048_577
    else if leb 1_048_577 ullong_max
    then err too_large
    else err invalid_content_length)
content_length-format_example = content_length-format 1_048_577

http_find_header_terminator-IsFirst_example :
    IsFirst (codes "a\r\n\r\n\r\n") (http_find_header_terminator (codes "a\r\n\r\n\r\n"))
http_find_header_terminator-IsFirst_example =
    http_find_header_terminator-IsFirst (codes "a\r\n\r\n\r\n")
