-- ===== src/Reader/Ends.antt =====
-- The loop of `http_reader_next_request` in src/http_reader.c keeps its buffer in bounds.
use cinder_http.Prelude.{
  ℕ, ◌-◌, ◌≤◌, ◌≡◌, ◌≢◌, Bool, true, false, List, [], ◌∷◌, ◌++◌, if◌then◌else◌, Option, none, some,
  err, arith, length, length-append, is_empty, subst,
}
use cinder_http.Text.{Bytes, Alloc}
use cinder_http.Clock.{Timespec}
use cinder_http.Reader.{
  Reader, timeout, io_error, Ready, answers, waits, Wait, may_read, timed_out, broken,
  wait_readable, Recv, received, end_of_stream, recv_interrupted, would_block, recv_failed, Turn,
  Round, stops, goes_on, with_timeout, at_least_one, arrived,
}
use cinder_http.Reader.Next.{
  deadline_reached, next_deadline, keep_received, after_recv, after_poll, after_ready, Finished,
  add_delivered, followed_by, or_wait, before_wait, next_loop, http_reader_next_request,
}
use cinder_http.Reader.Stream.{WhenDone}
use cinder_http.Reader.Bounds.{IsValid, ReadyValid, clear-IsValid, before_wait-IsValid}

-- `recv` writes no more than it was given space for.
pub record FitsSpace (t : Turn) : Type 0 where
  pub within : (space : ℕ) → length (arrived space (t.recv space)) ≤ space

-- Moreover `poll` comes to an answer, and `recv` is not interrupted.
pub record Progresses (t : Turn) : Type 0 where
  pub fits_space : FitsSpace t
  pub polled : wait_readable t.polls ≢ none
  pub not_interrupted : (space : ℕ) → t.recv space ≢ recv_interrupted

abbrev pub AllTurns : (Turn → Type 0) → List Turn → Type 0
AllTurns P [] = Unit
AllTurns P (t ∷ ts) = P t × AllTurns P ts

abbrev pub RoundValid : Round → Type 0
RoundValid (goes_on r deadline bs) = IsValid r
RoundValid (stops a r) = IsValid r

append-IsValid :
    (r : Reader) (bs : Bytes)
    → IsValid r
    → length bs ≤ r.capacity - length r.data_bytes
    → IsValid (record r { data_bytes = r.data_bytes ++ bs })
append-IsValid r bs v le = record {
  fits = omega (arith, length-append r.data_bytes bs, v.fits);
  bounded = v.bounded;
}

keep_received-RoundValid :
    (r : Reader) (bs : Bytes) (d : Option Timespec)
    → IsValid r
    → length bs ≤ r.capacity - length r.data_bytes
    → RoundValid (keep_received r bs d)
keep_received-RoundValid r bs none v le = v
keep_received-RoundValid r bs (some d) v le = append-IsValid r bs v le

after_recv-RoundValid :
    (s : ℕ) (r : Reader) (d behind : Option Timespec) (space : ℕ) (a : Recv)
    → IsValid r
    → length (arrived space a) ≤ r.capacity - length r.data_bytes
    → RoundValid (after_recv s r d behind a)
unfolding after_recv
after_recv-RoundValid s r d behind space (received b bs) v le =
    keep_received-RoundValid r (b ∷ bs) (next_deadline s d behind) v le
after_recv-RoundValid s r d behind space end_of_stream v le = clear-IsValid r v
after_recv-RoundValid s r d behind space recv_interrupted v le = v
after_recv-RoundValid s r d behind space would_block v le = v
after_recv-RoundValid s r d behind space recv_failed v le = v

after_poll-RoundValid :
    (s : ℕ) (r : Reader) (d : Option Timespec) (t : Turn) (w : Option Wait)
    → IsValid r
    → FitsSpace t
    → WhenDone RoundValid (after_poll s r d t w)
after_poll-RoundValid s r d t none v f = tt
after_poll-RoundValid s r d t (some timed_out) v f = v
after_poll-RoundValid s r d t (some broken) v f = v
after_poll-RoundValid s r d t (some may_read) v f =
    let space = r.capacity - length r.data_bytes in
    after_recv-RoundValid s r d t.behind space (t.recv space) v (f.within space)

pub after_ready-RoundValid :
    (s : ℕ) (r : Reader) (d : Option Timespec) (t : Turn)
    → IsValid r
    → FitsSpace t
    → WhenDone RoundValid (after_ready s r d t)
unfolding after_ready
after_ready-RoundValid s r d t v f = go (deadline_reached d t.before)
  where
    go :
        (b : Bool)
        → WhenDone RoundValid
            (if b then some (stops (err timeout) r) else after_poll s r d t (wait_readable t.polls))
    go true = v
    go false = after_poll-RoundValid s r d t (wait_readable t.polls) v f

abbrev FinishedValid : Finished → Type 0
FinishedValid f = IsValid f.reader

followed_by-Valid :
    (o : Option Round) (next : Reader → Option Timespec → Option Finished)
    → WhenDone RoundValid o
    → ((r : Reader) (d : Option Timespec) → IsValid r → WhenDone FinishedValid (next r d))
    → WhenDone FinishedValid (followed_by o next)
followed_by-Valid none next v later = tt
followed_by-Valid (some (stops a r)) next v later = v
followed_by-Valid (some (goes_on r d bs)) next v later = go (next r d) (later r d v)
  where
    go :
        (o : Option Finished)
        → WhenDone FinishedValid o
        → WhenDone FinishedValid (add_delivered bs o)
    go none w = tt
    go (some f) w = w

or_wait-Valid :
    (p : Ready) (next : Reader → Option Finished)
    → ReadyValid p
    → ((r : Reader) → IsValid r → WhenDone FinishedValid (next r))
    → WhenDone FinishedValid (or_wait p next)
or_wait-Valid (answers a r) next v later = v
or_wait-Valid (waits r) next v later = later r v.0

module _ (alloc : Alloc) where
  next_loop-Valid :
      (ts : List Turn) (s : ℕ) (r : Reader) (d : Option Timespec)
      → IsValid r
      → AllTurns FitsSpace ts
      → WhenDone FinishedValid (next_loop alloc s r d ts)
  unfolding next_loop
  next_loop-Valid [] s r d v fit =
      or_wait-Valid (before_wait alloc r) _ (before_wait-IsValid alloc r v) (λ r' v'. tt)
  next_loop-Valid (t ∷ ts) s r d v fit =
      or_wait-Valid (before_wait alloc r) _ (before_wait-IsValid alloc r v) (λ r' v'.
        followed_by-Valid (after_ready s r' d t) _ (after_ready-RoundValid s r' d t v' fit.0)
          (λ r'' d' v''. next_loop-Valid ts s r'' d' v'' fit.1))

-- Whatever the clock, `poll` and `recv` do, as long as `recv` keeps to its space, the reader's bytes
-- stay within its capacity and its capacity within the limit on a message.
pub next_request-IsValid :
    (alloc : Alloc) (r : Reader) (request_timeout_sec : ℕ) (now : Option Timespec) (ts : List Turn)
    (f : Finished)
    → IsValid r
    → AllTurns FitsSpace ts
    → http_reader_next_request alloc r request_timeout_sec now ts ≡ some f
    → IsValid f.reader
unfolding http_reader_next_request
next_request-IsValid alloc r s now ts f v fit h =
    subst (λ o. WhenDone FinishedValid o) h (go (is_empty r.data_bytes) now)
  where
    go :
        (b : Bool) (c : Option Timespec)
        → WhenDone FinishedValid (
            if b then next_loop alloc (at_least_one s) r none ts else elim c [
              | none ↦ some (record { answer = err io_error; reader = r; delivered = [] })
              | some start ↦
                  next_loop alloc (at_least_one s) r (some (with_timeout (at_least_one s) start)) ts
            ])
    go true c = next_loop-Valid alloc ts (at_least_one s) r none v fit
    go false none = v
    go false (some start) =
        next_loop-Valid alloc ts (at_least_one s) r (some (with_timeout (at_least_one s) start)) v
          fit
