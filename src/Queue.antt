-- ===== src/Queue.antt =====
-- src/connection_queue.c and include/connection_queue.h: the bounded queue of client descriptors.
-- Each function here is one critical section: what the thread does between taking the mutex, or
-- waking with it, and giving it up by a return or a wait.
pub mod Fifo
pub mod Invariant
pub mod Refine
pub mod Drain
pub mod Waiting
use cinder_http.Prelude.{
  ℕ, ◌+◌, ◌-◌, ◌*◌, ◌%◌, ◌^◌, Bool, true, false, not, ◌&&◌, ◌||◌, List, [], ◌∷◌, ◌==◌, ltb, leb,
  if◌then◌else◌, Option, none, some, ℤ, pos, negsuc, is_negative, get_or, set, replicate,
}

-- `size_t` addition.
abbrev pub size_add : ℕ → ℕ → ℕ
size_add a b = (a + b) % 2 ^ 64

-- `connection_queue_t`, less the mutex and the condition variables themselves.
pub record Queue : Type 0 where
  pub items : List ℤ
  pub capacity : ℕ
  pub head : ℕ
  pub tail : ℕ
  pub count : ℕ
  pub shutting_down : Bool
  pub mutex_initialized : Bool
  pub not_empty_initialized : Bool
  pub not_full_initialized : Bool

pub data Status : Type 0 where
  ok shutdown error : Status

-- What `calloc` and the three `pthread_…_init` calls answer.
pub record InitCalls : Type 0 where
  pub calloc_granted : Bool
  pub mutex_made : Bool
  pub not_empty_made : Bool
  pub not_full_made : Bool

abbrev fresh : ℕ → Queue
fresh capacity = record {
  items = replicate capacity (pos 0);
  capacity = capacity;
  head = 0;
  tail = 0;
  count = 0;
  shutting_down = false;
  mutex_initialized = true;
  not_empty_initialized = true;
  not_full_initialized = true;
}

-- `connection_queue_init`: the queue where it answers 0. Where it answers -1 nothing is kept.
unfoldable pub connection_queue_init : InitCalls → ℕ → Option Queue
connection_queue_init calls capacity =
    if capacity == 0
    then none
    else if calls.calloc_granted && calls.mutex_made && calls.not_empty_made && calls.not_full_made
    then some (fresh capacity)
    else none

-- The loop of `connection_queue_destroy`: the descriptors that it closes, from offset `i` on, and
-- the items that it leaves.
unfoldable pub close_from : ℕ → ℕ → ℕ → ℕ → List ℤ → List ℤ × List ℤ
close_from i ℕ.zero capacity head items = ([], items)
close_from i (ℕ.suc n) capacity head items =
    let idx = (head + i) % capacity in
    let fd = get_or items idx (pos 0) in
    let skipped = close_from (i + 1) n capacity head items in
    let (closed, left) = close_from (i + 1) n capacity head (set items idx (negsuc 0)) in
    if is_negative fd then skipped else (fd ∷ closed, left)

-- `connection_queue_destroy`: the descriptors closed, and the queue that is left.
unfoldable pub connection_queue_destroy : Queue → List ℤ × Queue
connection_queue_destroy q =
    let (closed, left) = close_from 0 q.count q.capacity q.head q.items in
    (
      closed,
      record {
        items = [];
        capacity = 0;
        head = 0;
        tail = 0;
        count = 0;
        shutting_down = false;
        mutex_initialized = false;
        not_empty_initialized = false;
        not_full_initialized = false;
      },
    )

-- The three assignments behind the wait of `connection_queue_push`.
abbrev pub enqueue : Queue → ℤ → Queue
enqueue q fd = record q {
  items = set q.items q.tail fd;
  tail = size_add q.tail 1 % q.capacity;
  count = size_add q.count 1;
}

abbrev pub dequeue : Queue → Queue
dequeue q = record q { head = size_add q.head 1 % q.capacity; count = q.count - 1 }

-- One pass of a blocking function: it returns, or goes to sleep on its condition variable.
pub data Pass (A : Type 0) : Type 0 where
  returns : A → Queue → Pass A
  sleeps : Pass A

-- What a thread in `connection_queue_push` reads on a pass: the abort flag, and whether the clock
-- answers.
pub record Readings : Type 0 where
  pub aborted : Bool
  pub clock_ok : Bool

-- From the test of the loop to a return or to `pthread_cond_timedwait`.
unfoldable pub push_pass : Queue → ℤ → Readings → Pass Status
push_pass q fd r =
    if leb q.capacity q.count && not q.shutting_down
    then (if r.aborted
        then returns shutdown q
        else if not r.clock_ok
        then returns error q
        else sleeps)
    else if q.shutting_down
    then returns shutdown q
    else returns ok (enqueue q fd)

-- The status, and the descriptor written through `client_fd`.
abbrev pub Popped : Type 0
Popped = Status × Option ℤ

unfoldable pub pop_pass : Queue → Pass Popped
pop_pass q =
    if q.count == 0 && not q.shutting_down
    then sleeps
    else if q.count == 0 && q.shutting_down
    then returns (shutdown, none) q
    else returns (ok, some (get_or q.items q.head (pos 0))) (dequeue q)

unfoldable pub connection_queue_shutdown : Queue → Queue
connection_queue_shutdown q =
    if not q.mutex_initialized then q else record q { shutting_down = true }

pub data WaitAnswer : Type 0 where
  woken timed_out failed : WaitAnswer

-- How a sleep ends: the answer of the wait, the queue that the other threads have left, and what
-- the next pass reads.
pub record Wake : Type 0 where
  pub answer : WaitAnswer
  pub queue : Queue
  pub readings : Readings

-- What follows a sleep, with the next pass at hand.
abbrev pub after_sleep {ℓ} : {A : Type ℓ} → WaitAnswer → A → A → A
after_sleep woken failure next = next
after_sleep timed_out failure next = next
after_sleep failed failure next = failure

-- A pass ends the call, or is followed by what comes after its sleep.
abbrev pub or_else : {A : Type 0} → Pass A → Option (A × Queue) → Option (A × Queue)
or_else (returns a q) next = some (a, q)
or_else sleeps next = next

-- The loop of `connection_queue_push` over the sleeps that it makes: `none` while it sleeps on.
unfoldable pub push_loop : Queue → ℤ → Readings → List Wake → Option (Status × Queue)
push_loop q fd r [] = or_else (push_pass q fd r) none
push_loop q fd r (w ∷ ws) =
    or_else (push_pass q fd r)
      (after_sleep w.answer (some (error, w.queue)) (push_loop w.queue fd w.readings ws))

-- `connection_queue_push`; the second argument says whether the mutex was taken.
unfoldable pub connection_queue_push :
    Queue → Bool → ℤ → Readings → List Wake → Option (Status × Queue)
connection_queue_push q locked fd r ws =
    if is_negative fd
    then some (error, q)
    else if not locked
    then some (error, q)
    else push_loop q fd r ws

-- `pthread_cond_wait` has no time-out: any answer but 0 fails.
abbrev pub after_wait : WaitAnswer → Queue → Option (Popped × Queue) → Option (Popped × Queue)
after_wait woken q next = next
after_wait timed_out q next = some ((error, none), q)
after_wait failed q next = some ((error, none), q)

-- The loop of `connection_queue_pop`.
unfoldable pub pop_loop : Queue → List Wake → Option (Popped × Queue)
pop_loop q [] = or_else (pop_pass q) none
pop_loop q (w ∷ ws) = or_else (pop_pass q) (after_wait w.answer w.queue (pop_loop w.queue ws))

unfoldable pub connection_queue_pop : Queue → Bool → List Wake → Option (Popped × Queue)
connection_queue_pop q locked ws = if not locked then some ((error, none), q) else pop_loop q ws
