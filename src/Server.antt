-- ===== src/Server.antt =====
-- src/server.c and src/thread_pool.c: the accept thread, the workers and what they share.
pub mod Steps
pub mod Sharing
pub mod Owned
pub mod Kept
pub mod Closed
pub mod Finished
pub mod Counted
pub mod Tallies
pub mod Pool
pub mod Replay
pub mod Ending
pub mod Orderly
use cinder_http.Prelude.{ℕ, Bool, true, false, List, [], ◌∷◌, ℤ, pos}
use cinder_http.Queue.{Queue, Status}
use cinder_http.Stats.{Event}

-- Where the thread of `server_run` is: at the test of the loop, in `accept`, with an accepted
-- descriptor before and after it is counted, with one that the queue refused, with one that it took,
-- behind the loop, in `thread_pool_join`, and behind the cleanup.
pub data Acceptor : Type 0 where
  testing in_accept : Acceptor
  arrived owns : ℤ → Acceptor
  refused : ℤ → Status → Acceptor
  entered leaving joining ended : Acceptor

-- Where a worker is in `worker_main`: at the pop, in `client_handle` with the calls of the statistics
-- that are to come, behind the close of the descriptor, and behind the loop.
pub data Worker : Type 0 where
  popping : Worker
  serving : ℤ → List Event → Worker
  hung_up : Event → Worker
  exited : Worker

-- The shared state and the threads; and, in the order of the calls, what was reported to the
-- statistics, and the client descriptors that `accept` gave and that were closed.
pub record Server : Type 0 where
  pub requested : Bool
  pub queue : Queue
  pub acceptor : Acceptor
  pub workers : List Worker
  pub events : List Event
  pub accepted : List ℤ
  pub closed : List ℤ
