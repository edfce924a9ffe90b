-- ===== src/Queue/Fifo.antt =====
-- What the queue promises its users: descriptors in the order of their arrival, at most
-- `capacity` of them, and no new ones once it is shut down.
use cinder_http.Prelude.{
  ℕ, Bool, true, List, [], ◌∷◌, ◌++◌, leb, if◌then◌else◌, Option, none, some, ℤ, length,
}
use cinder_http.Queue.{Readings, Status, ok, shutdown, error}

pub record Fifo : Type 0 where
  pub waiting : List ℤ
  pub closed : Bool

-- Calls of the threads, each at its turn with the mutex.
pub data Op : Type 0 where
  push : ℤ → Readings → Op
  pop : Op
  close : Op

-- What a call answers: `blocked` goes to sleep, and is a call again when it wakes.
pub data Reply : Type 0 where
  pushed : Status → Reply
  popped : Status → Option ℤ → Reply
  blocked : Reply
  closing : Reply

abbrev pub take_first : Fifo → List ℤ → Reply × Fifo
take_first f [] = if f.closed then (popped shutdown none, f) else (blocked, f)
take_first f (fd ∷ rest) = (popped ok (some fd), record f { waiting = rest })

unfoldable pub step : ℕ → Fifo → Op → Reply × Fifo
step capacity f (push fd r) =
    if f.closed
    then (pushed shutdown, f)
    else if leb capacity (length f.waiting)
    then (if r.aborted
        then (pushed shutdown, f)
        else if r.clock_ok
        then (blocked, f)
        else (pushed error, f))
    else (pushed ok, record f { waiting = f.waiting ++ fd ∷ [] })
step capacity f pop = take_first f f.waiting
step capacity f close = (closing, record f { closed = true })

unfoldable pub run : ℕ → Fifo → List Op → List Reply × Fifo
run capacity f [] = ([], f)
run capacity f (op ∷ ops) =
    let (reply, f') = step capacity f op in
    let (replies, last) = run capacity f' ops in (reply ∷ replies, last)
