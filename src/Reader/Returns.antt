-- ===== src/Reader/Returns.antt =====
-- That a call of `http_reader_next_request` in src/http_reader.c returns.
use cinder_http.Prelude.{
  ℕ, ◌+◌, ◌-◌, ◌<◌, ◌≡◌, ◌≢◌, refl, ap, Bool, true, false, List, [], ◌∷◌, ◌++◌, if◌then◌else◌,
  Option, none, some, err, arith, length, length-append, is_empty,
}
use cinder_http.Limits.{http_max_message_bytes}
use cinder_http.Text.{Bytes, Alloc}
use cinder_http.Clock.{Timespec}
use cinder_http.Reader.{
  Reader, timeout, io_error, Ready, answers, waits, Wait, may_read, timed_out, broken,
  wait_readable, Recv, received, end_of_stream, recv_interrupted, would_block, recv_failed, Turn,
  Round, stops, goes_on, with_timeout, at_least_one,
}
use cinder_http.Reader.Next.{
  deadline_reached, next_deadline, keep_received, after_recv, after_poll, after_ready, Finished,
  add_delivered, followed_by, or_wait, before_wait, next_loop, http_reader_next_request,
}
use cinder_http.Reader.HandOut.{ReadyTaken, before_wait-ReadyTaken}
use cinder_http.Reader.Stream.{WhenDone}
use cinder_http.Reader.Bounds.{IsValid, ReadyValid, before_wait-IsValid}
use cinder_http.Reader.Ends.{Progresses, AllTurns, RoundValid, after_ready-RoundValid}

abbrev Grows : Reader → Option Round → Type 0
Grows r none = ⊥
Grows r (some (stops a r')) = Unit
Grows r (some (goes_on r' d bs)) = length r.data_bytes < length r'.data_bytes

keep_received-Grows :
    (r : Reader) (b : ℕ) (bs : Bytes) (d : Option Timespec)
    → Grows r (some (keep_received r (b ∷ bs) d))
keep_received-Grows r b bs none = tt
keep_received-Grows r b bs (some d) = omega (arith, length-append r.data_bytes (b ∷ bs))

after_recv-Grows :
    (s : ℕ) (r : Reader) (d behind : Option Timespec) (a : Recv)
    → a ≢ recv_interrupted
    → Grows r (some (after_recv s r d behind a))
unfolding after_recv
after_recv-Grows s r d behind (received b bs) ne =
    keep_received-Grows r b bs (next_deadline s d behind)
after_recv-Grows s r d behind end_of_stream ne = tt
after_recv-Grows s r d behind recv_interrupted ne = absurd (ne refl)
after_recv-Grows s r d behind would_block ne = tt
after_recv-Grows s r d behind recv_failed ne = tt

after_poll-Grows :
    (s : ℕ) (r : Reader) (d : Option Timespec) (t : Turn) (w : Option Wait)
    → w ≢ none
    → Progresses t
    → Grows r (after_poll s r d t w)
after_poll-Grows s r d t none ne p = absurd (ne refl)
after_poll-Grows s r d t (some timed_out) ne p = tt
after_poll-Grows s r d t (some broken) ne p = tt
after_poll-Grows s r d t (some may_read) ne p =
    after_recv-Grows s r d t.behind (t.recv (r.capacity - length r.data_bytes))
      (p.not_interrupted (r.capacity - length r.data_bytes))

after_ready-Grows :
    (s : ℕ) (r : Reader) (d : Option Timespec) (t : Turn)
    → Progresses t
    → Grows r (after_ready s r d t)
unfolding after_ready
after_ready-Grows s r d t p = go (deadline_reached d t.before)
  where
    go :
        (b : Bool)
        → Grows r
            (if b then some (stops (err timeout) r) else after_poll s r d t (wait_readable t.polls))
    go true = tt
    go false = after_poll-Grows s r d t (wait_readable t.polls) p.polled p

abbrev Done : Option Finished → Type 0
Done o = (f : Finished) × (o ≡ some f)

followed_by-Done :
    (r : Reader) (o : Option Round) (next : Reader → Option Timespec → Option Finished)
    → Grows r o
    → WhenDone RoundValid o
    → ((r' : Reader) (d : Option Timespec)
        → IsValid r'
        → length r.data_bytes < length r'.data_bytes
        → Done (next r' d))
    → Done (followed_by o next)
followed_by-Done r none next g v later = absurd g
followed_by-Done r (some (stops a r')) next g v later =
    (record { answer = a; reader = r'; delivered = [] }, refl)
followed_by-Done r (some (goes_on r' d bs)) next g v later =
    let (f, e) = later r' d v g in
    (record f { delivered = bs ++ f.delivered }, ap (add_delivered bs) e)

or_wait-Done :
    (before : Bytes) (p : Ready) (next : Reader → Option Finished) (alloc : Alloc)
    → ReadyValid p
    → ReadyTaken alloc before p
    → ((r : Reader) → IsValid r → r.data_bytes ≡ before → Done (next r))
    → Done (or_wait p next)
or_wait-Done before (answers a r) next alloc v t later =
    (record { answer = a; reader = r; delivered = [] }, refl)
or_wait-Done before (waits r) next alloc v t later = later r v.0 t

module _ (alloc : Alloc) where
  next_loop-Done :
      (ts : List Turn) (s : ℕ) (r : Reader) (d : Option Timespec)
      → IsValid r
      → AllTurns Progresses ts
      → http_max_message_bytes < length r.data_bytes + length ts
      → Done (next_loop alloc s r d ts)
  unfolding next_loop
  next_loop-Done [] s r d v ps enough = absurd (omega (arith, v.fits, v.bounded))
  next_loop-Done (t ∷ ts) s r d v ps enough =
      or_wait-Done r.data_bytes (before_wait alloc r) _ alloc (before_wait-IsValid alloc r v)
        (before_wait-ReadyTaken alloc r)
        (λ r' v' same.
          let kept : length r'.data_bytes ≡ length r.data_bytes = ap length same in
          followed_by-Done r' (after_ready s r' d t) _ (after_ready-Grows s r' d t ps.0)
            (after_ready-RoundValid s r' d t v' ps.0.fits_space)
            (λ r'' d' v'' more. next_loop-Done ts s r'' d' v'' ps.1 (omega arith)))

-- A call returns: with an answer of `poll` and no interrupted `recv` in each round, at most as many
-- rounds as a message may have bytes, and one, are made. A peer cannot hold the loop by sending
-- bytes without end.
pub next_request-returns :
    (alloc : Alloc) (r : Reader) (request_timeout_sec : ℕ) (now : Option Timespec) (ts : List Turn)
    → IsValid r
    → AllTurns Progresses ts
    → http_max_message_bytes < length ts
    → (f : Finished) × (http_reader_next_request alloc r request_timeout_sec now ts ≡ some f)
unfolding http_reader_next_request
next_request-returns alloc r s now ts v ps enough = go (is_empty r.data_bytes) now
  where
    go :
        (b : Bool) (c : Option Timespec)
        → Done (
            if b then next_loop alloc (at_least_one s) r none ts else elim c [
              | none ↦ some (record { answer = err io_error; reader = r; delivered = [] })
              | some start ↦
                  next_loop alloc (at_least_one s) r (some (with_timeout (at_least_one s) start)) ts
            ])
    go true c = next_loop-Done alloc ts (at_least_one s) r none v ps (omega arith)
    go false none = (record { answer = err io_error; reader = r; delivered = [] }, refl)
    go false (some start) =
        next_loop-Done alloc ts (at_least_one s) r (some (with_timeout (at_least_one s) start)) v ps
          (omega arith)
