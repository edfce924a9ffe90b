-- ===== src/Server/Pool.antt =====
-- src/thread_pool.c, and how `server_run` of src/server.c brings the parts of the program up and
-- down. What is done is listed in its order.
use cinder_http.Prelude.{
  ℕ, zero, suc, ◌+◌, ◌*◌, Bool, true, false, not, ◌&&◌, ◌||◌, List, [], ◌∷◌, ◌++◌, ◌==◌,
  if◌then◌else◌, Option, none, some,
}
use cinder_http.Text.{Alloc}
use cinder_http.Queue.{Queue, InitCalls, connection_queue_init}
use cinder_http.Stats.{Stats, server_stats_init}
use cinder_http.Config.{Config}

-- `thread_pool_t`, less what it points to.
pub record Pool : Type 0 where
  pub threads : Bool
  pub worker_count : ℕ
  pub started_count : ℕ

-- How the creation of a worker goes: the thread runs, `malloc` or `pthread_create` fails.
pub data Creation : Type 0 where
  created no_memory not_created : Creation

-- What is done: the parts come up and down, `connection_queue_shutdown`, the threads are created and
-- joined, and the accept loop.
pub data Deed : Type 0 where
  logger_up stats_up queue_up pool_up : Deed
  logger_down stats_down queue_down pool_down : Deed
  queue_shutdown accept_loop : Deed
  spawned joined : ℕ → Deed

-- The size of a `pthread_t`.
abbrev sizeof_pthread : ℕ
sizeof_pthread = 8

unfoldable pub thread_pool_init : Alloc → ℕ → Option Pool
thread_pool_init alloc worker_count =
    if worker_count == 0
    then none
    else if not (alloc (worker_count * sizeof_pthread))
    then none
    else some (record { threads = true; worker_count = worker_count; started_count = 0 })

-- `pthread_join` for the threads from `i` on, `n` of them.
unfoldable pub joins : ℕ → ℕ → List Deed
joins i zero = []
joins i (suc n) = joined i ∷ joins (i + 1) n

-- What a start comes to: what was done, whether it answers 0, and the threads that it leaves running.
pub record Start : Type 0 where
  pub deeds : List Deed
  pub succeeded : Bool
  pub started_count : ℕ

abbrev pub spawn : ℕ → Start → Start
spawn i rest = record rest { deeds = spawned i ∷ rest.deeds }

-- A creation that fails shuts the queue down and joins the threads before it.
abbrev pub gives_up_start : ℕ → Start
gives_up_start i = record {
  deeds = queue_shutdown ∷ joins 0 i;
  succeeded = false;
  started_count = 0;
}

-- The loop of `thread_pool_start` from worker `i` on, with the workers that are left.
unfoldable pub start_from : (ℕ → Creation) → ℕ → ℕ → Start
start_from create i zero = record { deeds = []; succeeded = true; started_count = i }
start_from create i (suc n) = elim (create i) [
  | created ↦ spawn i (start_from create (i + 1) n)
  | no_memory ↦ gives_up_start i
  | not_created ↦ gives_up_start i
]

abbrev pub thread_pool_start : (ℕ → Creation) → Pool → Start
thread_pool_start create pool =
    if not pool.threads
    then record { deeds = []; succeeded = false; started_count = pool.started_count }
    else start_from create 0 pool.worker_count

abbrev pub thread_pool_join : Pool → List Deed × Pool
thread_pool_join pool =
    if not pool.threads
    then ([], pool)
    else (joins 0 pool.started_count, record pool { started_count = 0 })

abbrev pub thread_pool_destroy : Pool → Pool
thread_pool_destroy pool = record pool { threads = false; worker_count = 0 }

-- What the calls of `server_run` answer.
pub record Boot : Type 0 where
  pub logger_made : Bool
  pub stats_made : Bool
  pub queue_calls : InitCalls
  pub alloc : Alloc
  pub create : ℕ → Creation

-- The flags of `server_run` at the label `cleanup`, and the pool.
pub record Ready : Type 0 where
  pub logger_ready : Bool
  pub stats_ready : Bool
  pub queue_ready : Bool
  pub pool_ready : Bool
  pub workers_running : Bool
  pub pool : Pool

abbrev pub no_pool : Pool
no_pool = record { threads = false; worker_count = 0; started_count = 0 }

abbrev pub none_ready : Ready
none_ready = record {
  logger_ready = false;
  stats_ready = false;
  queue_ready = false;
  pool_ready = false;
  workers_running = false;
  pool = no_pool;
}

abbrev pub done_if : Bool → Deed → List Deed
done_if true d = d ∷ []
done_if false d = []

abbrev pub joins_if : Bool → Pool → List Deed
joins_if true pool = (thread_pool_join pool).0
joins_if false pool = []

-- From the label on.
unfoldable pub cleanup : Ready → List Deed
cleanup r =
    (if r.workers_running || r.pool_ready && r.queue_ready
      then done_if r.queue_ready queue_shutdown ++ joins_if r.pool_ready r.pool
      else [])
    ++ (done_if r.pool_ready pool_down
        ++ (done_if r.queue_ready queue_down
            ++ (done_if r.stats_ready stats_down ++ done_if r.logger_ready logger_down)))

-- From `thread_pool_start` on; on success, the accept loop comes before the cleanup.
abbrev pub after_start : Ready → Start → Bool × List Deed
after_start r start =
    if start.succeeded
    then (
      true,
      start.deeds
          ++ accept_loop
            ∷ cleanup (record r {
              workers_running = true;
              pool = record r.pool { started_count = start.started_count };
            }),
    )
    else (
      false,
      start.deeds
          ++ cleanup (record r { pool = record r.pool { started_count = start.started_count } }),
    )

abbrev pub after_pool : (ℕ → Creation) → Ready → Option Pool → Bool × List Deed
after_pool create r none = (false, cleanup r)
after_pool create r (some pool) =
    let (result, deeds) =
      after_start (record r { pool_ready = true; pool = pool }) (thread_pool_start create pool) in
    (result, pool_up ∷ deeds)

abbrev pub after_queue : Alloc → (ℕ → Creation) → ℕ → Ready → Option Queue → Bool × List Deed
after_queue alloc create worker_count r none = (false, cleanup r)
after_queue alloc create worker_count r (some q) =
    let (result, deeds) =
      after_pool create (record r { queue_ready = true }) (thread_pool_init alloc worker_count) in
    (result, queue_up ∷ deeds)

abbrev pub after_stats : Boot → Config → Ready → Option Stats → Bool × List Deed
after_stats b c r none = (false, cleanup r)
after_stats b c r (some s) =
    let (result, deeds) =
      after_queue b.alloc b.create c.worker_count (record r { stats_ready = true })
        (connection_queue_init b.queue_calls c.queue_capacity) in
    (result, stats_up ∷ deeds)

-- `server_run`: whether it answers 0, and what it does.
unfoldable pub server_run : Boot → Config → Bool × List Deed
server_run b c =
    let (result, deeds) =
      after_stats b c (record none_ready { logger_ready = true })
        (server_stats_init b.stats_made) in
    if not b.logger_made then (false, cleanup none_ready) else (result, logger_up ∷ deeds)
