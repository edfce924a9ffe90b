-- ===== src/Server/Steps.antt =====
-- The steps of the threads of src/server.c and src/thread_pool.c. A critical section of the queue is
-- one step; a pass that ends asleep changes nothing and is none.
use cinder_http.Prelude.{
  ℕ, ◌≡◌, ◌≢◌, Bool, true, false, ◌||◌, List, [], ◌∷◌, ◌++◌, if◌then◌else◌, none, some, ℤ, pos, all,
  replicate,
}
use cinder_http.Queue.{
  Queue, Status, ok, shutdown, error, returns, push_pass, pop_pass, connection_queue_shutdown,
  connection_queue_destroy,
}
use cinder_http.Stats.{Event, connection_accepted, connection_started}
use cinder_http.Config.{Config}
use cinder_http.Client.{Visit}
use cinder_http.Client.Loop.{Session, client_handle}
use cinder_http.Server.{
  Acceptor, testing, in_accept, arrived, owns, refused, entered, leaving, joining, ended, Worker,
  popping, serving, hung_up, exited, Server,
}

abbrev pub is_exited : Worker → Bool
is_exited exited = true
is_exited _ = false

abbrev pub is_shutdown : Status → Bool
is_shutdown shutdown = true
is_shutdown _ = false

-- The loop goes on behind a push: `push_status == CONNECTION_QUEUE_SHUTDOWN` or the flag ends it.
abbrev pub behind_refusal : Status → Bool → Acceptor
behind_refusal status requested = if is_shutdown status || requested then leaving else testing

-- One step, from `s` to `t`. A worker stands between those before and after it.
pub data Step (c : Config) (s t : Server) : Type 0 where
  -- A signal arrives.
  signals : t ≡ record s { requested = true } → Step c s t
  -- The accept thread.
  stays_in_loop :
      s.acceptor ≡ testing
      → s.requested ≡ false
      → t ≡ record s { acceptor = in_accept }
      → Step c s t
  leaves_loop :
      s.acceptor ≡ testing → s.requested ≡ true → t ≡ record s { acceptor = leaving } → Step c s t
  accept_fails : s.acceptor ≡ in_accept → t ≡ record s { acceptor = testing } → Step c s t
  accepts :
      (fd : ℕ)
      → s.acceptor ≡ in_accept
      → t ≡ record s { acceptor = arrived (pos fd); accepted = s.accepted ++ pos fd ∷ [] }
      → Step c s t
  counts_accepted :
      (fd : ℤ)
      → s.acceptor ≡ arrived fd
      → t ≡ record s { acceptor = owns fd; events = s.events ++ connection_accepted ∷ [] }
      → Step c s t
  pushes :
      (fd : ℤ) (clock_ok : Bool) (q : Queue)
      → s.acceptor ≡ owns fd
      → push_pass s.queue fd (record { aborted = s.requested; clock_ok = clock_ok }) ≡ returns ok q
      → t ≡ record s { acceptor = entered; queue = q }
      → Step c s t
  is_refused :
      (fd : ℤ) (clock_ok : Bool) (status : Status) (q : Queue)
      → s.acceptor ≡ owns fd
      → status ≢ ok
      → push_pass s.queue fd (record { aborted = s.requested; clock_ok = clock_ok })
        ≡ returns status q
      → t ≡ record s { acceptor = refused fd status; queue = q }
      → Step c s t
  -- The mutex or the wait fails.
  push_fails :
      (fd : ℤ) → s.acceptor ≡ owns fd → t ≡ record s { acceptor = refused fd error } → Step c s t
  gives_up :
      (fd : ℤ) (status : Status)
      → s.acceptor ≡ refused fd status
      → t ≡ record s { acceptor = behind_refusal status s.requested; closed = s.closed ++ fd ∷ [] }
      → Step c s t
  counts_started :
      s.acceptor ≡ entered
      → t ≡ record s { acceptor = testing; events = s.events ++ connection_started ∷ [] }
      → Step c s t
  shuts_down :
      s.acceptor ≡ leaving
      → t ≡ record s { acceptor = joining; queue = connection_queue_shutdown s.queue }
      → Step c s t
  -- Every worker is joined, and the queue destroyed.
  cleans_up :
      s.acceptor ≡ joining
      → all is_exited s.workers ≡ true
      → t ≡ record s {
        acceptor = ended;
        queue = (connection_queue_destroy s.queue).1;
        closed = s.closed ++ (connection_queue_destroy s.queue).0;
      }
      → Step c s t
  -- A worker.
  pops :
      (before after : List Worker) (fd : ℤ) (q : Queue) (vs : List Visit) (session : Session)
      → s.workers ≡ before ++ popping ∷ after
      → pop_pass s.queue ≡ returns (ok, some fd) q
      → client_handle c fd vs ≡ some session
      → t ≡ record s { workers = before ++ serving fd session.events ∷ after; queue = q }
      → Step c s t
  stops :
      (before after : List Worker) (q : Queue)
      → s.workers ≡ before ++ popping ∷ after
      → pop_pass s.queue ≡ returns (shutdown, none) q
      → t ≡ record s { workers = before ++ exited ∷ after; queue = q }
      → Step c s t
  pop_fails :
      (before after : List Worker)
      → s.workers ≡ before ++ popping ∷ after
      → t ≡ record s { workers = before ++ exited ∷ after }
      → Step c s t
  reports :
      (before after : List Worker) (fd : ℤ) (e next : Event) (later : List Event)
      → s.workers ≡ before ++ serving fd (e ∷ next ∷ later) ∷ after
      → t ≡ record s {
        workers = before ++ serving fd (next ∷ later) ∷ after;
        events = s.events ++ e ∷ [];
      }
      → Step c s t
  closes :
      (before after : List Worker) (fd : ℤ) (last : Event)
      → s.workers ≡ before ++ serving fd (last ∷ []) ∷ after
      → t ≡ record s { workers = before ++ hung_up last ∷ after; closed = s.closed ++ fd ∷ [] }
      → Step c s t
  finishes :
      (before after : List Worker) (last : Event)
      → s.workers ≡ before ++ hung_up last ∷ after
      → t ≡ record s { workers = before ++ popping ∷ after; events = s.events ++ last ∷ [] }
      → Step c s t

-- The queue has been made, and `thread_pool_start` has started the workers.
abbrev pub started : Queue → ℕ → Server
started q worker_count = record {
  requested = false;
  queue = q;
  acceptor = testing;
  workers = replicate worker_count popping;
  events = [];
  accepted = [];
  closed = [];
}

pub data Reach (c : Config) (q : Queue) (worker_count : ℕ) : Server → Type 0 where
  start : Reach c q worker_count (started q worker_count)
  then_step : {s t : Server} → Reach c q worker_count s → Step c s t → Reach c q worker_count t
