-- ===== src/Reader/Stream.antt =====
-- What a call of `http_reader_next_request` in src/http_reader.c does with the bytes of the stream.
use cinder_http.Prelude.{
  ℕ, ◌-◌, ◌≡◌, refl, sym, ap, ◌∙◌, Bool, true, false, List, [], ◌∷◌, ◌++◌, if◌then◌else◌, Option,
  none, some, ok, err, length, append_assoc, append-nil, is_empty, subst,
}
use cinder_http.Text.{Bytes, Alloc}
use cinder_http.Clock.{Timespec}
use cinder_http.Reader.{
  Read, Reader, timeout, io_error, Ready, answers, waits, Wait, may_read, timed_out, broken,
  wait_readable, Recv, received, end_of_stream, recv_interrupted, would_block, recv_failed, Turn,
  Round, stops, goes_on, with_timeout, at_least_one,
}
use cinder_http.Reader.Next.{
  deadline_reached, next_deadline, keep_received, after_recv, after_poll, after_ready, Finished,
  add_delivered, followed_by, or_wait, before_wait, next_loop, http_reader_next_request,
}
use cinder_http.Reader.HandOut.{IsFramed, Taken, ReadyTaken, before_wait-ReadyTaken}

-- What a round leaves: the text and what came, or an error.
abbrev RoundTaken : Bytes → Round → Type 0
RoundTaken before (goes_on r deadline bs) = r.data_bytes ≡ before ++ bs
RoundTaken before (stops (err e) r) = Unit {0}
RoundTaken before (stops (ok message) r) = ⊥

abbrev pub WhenDone {ℓ} : {A : Type ℓ} → (A → Type 0) → Option A → Type 0
WhenDone P none = Unit {0}
WhenDone P (some a) = P a

keep_received-RoundTaken :
    (r : Reader) (bs : Bytes) (d : Option Timespec) → RoundTaken r.data_bytes (keep_received r bs d)
keep_received-RoundTaken r bs none = tt
keep_received-RoundTaken r bs (some d) = refl

after_recv-RoundTaken :
    (s : ℕ) (r : Reader) (d behind : Option Timespec) (a : Recv)
    → RoundTaken r.data_bytes (after_recv s r d behind a)
unfolding after_recv
after_recv-RoundTaken s r d behind (received b bs) =
    keep_received-RoundTaken r (b ∷ bs) (next_deadline s d behind)
after_recv-RoundTaken s r d behind end_of_stream = tt
after_recv-RoundTaken s r d behind recv_interrupted = sym (append-nil r.data_bytes)
after_recv-RoundTaken s r d behind would_block = tt
after_recv-RoundTaken s r d behind recv_failed = tt

after_poll-RoundTaken :
    (s : ℕ) (r : Reader) (d : Option Timespec) (t : Turn) (w : Option Wait)
    → WhenDone (RoundTaken r.data_bytes) (after_poll s r d t w)
after_poll-RoundTaken s r d t none = tt
after_poll-RoundTaken s r d t (some timed_out) = tt
after_poll-RoundTaken s r d t (some broken) = tt
after_poll-RoundTaken s r d t (some may_read) =
    after_recv-RoundTaken s r d t.behind (t.recv (r.capacity - length r.data_bytes))

after_ready-RoundTaken :
    (s : ℕ) (r : Reader) (d : Option Timespec) (t : Turn)
    → WhenDone (RoundTaken r.data_bytes) (after_ready s r d t)
unfolding after_ready
after_ready-RoundTaken s r d t = go (deadline_reached d t.before)
  where
    go :
        (b : Bool)
        → WhenDone
            (RoundTaken r.data_bytes)
            (if b then some (stops (err timeout) r) else after_poll s r d t (wait_readable t.polls))
    go true = tt
    go false = after_poll-RoundTaken s r d t (wait_readable t.polls)

module _ (alloc : Alloc) where
  abbrev FinishedTaken : Bytes → Finished → Type 0
  FinishedTaken before f = Taken alloc before f.answer f.reader f.delivered

  Taken-add :
      (before middle bs more : Bytes) (a : Read Bytes) (r : Reader)
      → middle ≡ before ++ bs
      → Taken alloc middle a r more
      → Taken alloc before a r (bs ++ more)
  Taken-add before middle bs more (err e) r same t = tt
  Taken-add before middle bs more (ok message) r same (whole, framed) =
      (whole ∙ ap (λ m. m ++ more) same ∙ append_assoc before bs more, framed)

  add_delivered-Taken :
      (before middle bs : Bytes) (o : Option Finished)
      → middle ≡ before ++ bs
      → WhenDone (FinishedTaken middle) o
      → WhenDone (FinishedTaken before) (add_delivered bs o)
  add_delivered-Taken before middle bs none same t = tt
  add_delivered-Taken before middle bs (some f) same t =
      Taken-add before middle bs f.delivered f.answer f.reader same t

  followed_by-Taken :
      (before : Bytes) (o : Option Round) (next : Reader → Option Timespec → Option Finished)
      → WhenDone (RoundTaken before) o
      → ((r : Reader) (d : Option Timespec) → WhenDone (FinishedTaken r.data_bytes) (next r d))
      → WhenDone (FinishedTaken before) (followed_by o next)
  followed_by-Taken before none next t later = tt
  followed_by-Taken before (some (stops (err e) r)) next t later = tt
  followed_by-Taken before (some (stops (ok m) r)) next t later = absurd t
  followed_by-Taken before (some (goes_on r d bs)) next t later =
      add_delivered-Taken before r.data_bytes bs (next r d) t (later r d)

  or_wait-Taken :
      (before : Bytes) (p : Ready) (next : Reader → Option Finished)
      → ReadyTaken alloc before p
      → ((r : Reader) → r.data_bytes ≡ before → WhenDone (FinishedTaken before) (next r))
      → WhenDone (FinishedTaken before) (or_wait p next)
  or_wait-Taken before (answers a r) next t later = t
  or_wait-Taken before (waits r) next t later = later r t

  next_loop-Taken :
      (ts : List Turn) (s : ℕ) (r : Reader) (d : Option Timespec)
      → WhenDone (FinishedTaken r.data_bytes) (next_loop alloc s r d ts)
  unfolding next_loop
  next_loop-Taken [] s r d =
      or_wait-Taken r.data_bytes (before_wait alloc r) _ (before_wait-ReadyTaken alloc r)
        (λ r' same. tt)
  next_loop-Taken (t ∷ ts) s r d =
      or_wait-Taken r.data_bytes (before_wait alloc r) _ (before_wait-ReadyTaken alloc r)
        (λ r' same.
          followed_by-Taken r.data_bytes (after_ready s r' d t) _
            (subst (λ b. WhenDone (RoundTaken b) (after_ready s r' d t)) same
              (after_ready-RoundTaken s r' d t))
            (λ r'' d'. next_loop-Taken ts s r'' d'))

  next_request-Taken :
      (r : Reader) (s : ℕ) (now : Option Timespec) (ts : List Turn)
      → WhenDone (FinishedTaken r.data_bytes) (http_reader_next_request alloc r s now ts)
  unfolding http_reader_next_request
  next_request-Taken r s now ts = go (is_empty r.data_bytes) now
    where
      go :
          (b : Bool) (c : Option Timespec)
          → WhenDone (FinishedTaken r.data_bytes) (
              if b then next_loop alloc (at_least_one s) r none ts else elim c [
                | none ↦ some (record { answer = err io_error; reader = r; delivered = [] })
                | some start ↦
                    next_loop alloc
                      (at_least_one s)
                      r
                      (some (with_timeout (at_least_one s) start))
                      ts
              ])
      go true c = next_loop-Taken ts (at_least_one s) r none
      go false none = tt
      go false (some start) =
          next_loop-Taken ts (at_least_one s) r (some (with_timeout (at_least_one s) start))

-- No byte of the stream is lost, doubled or reordered when a request is handed out: the message and
-- what stays in the reader are what it held before and what `recv` delivered, and the message is
-- one whole request, cut where its own head says, within the limits of head and message. This holds
-- for every run of the clock, `poll` and `recv`.
pub next_request-takes_one_message :
    (alloc : Alloc) (r : Reader) (request_timeout_sec : ℕ) (now : Option Timespec) (ts : List Turn)
    (message : Bytes) (f : Finished)
    → http_reader_next_request alloc r request_timeout_sec now ts ≡ some f
    → f.answer ≡ ok message
    → (message ++ f.reader.data_bytes ≡ r.data_bytes ++ f.delivered) × IsFramed alloc message
next_request-takes_one_message alloc r s now ts message f h got =
    let taken : Taken alloc r.data_bytes f.answer f.reader f.delivered =
      subst (λ o. WhenDone (FinishedTaken alloc r.data_bytes) o) h
        (next_request-Taken alloc r s now ts) in
    subst (λ a. Taken alloc r.data_bytes a f.reader f.delivered) got taken
