-- ===== src/Server/Ending.antt =====
-- How `server_run` of src/server.c ends from the start of the threads on.
use cinder_http.Prelude.{
  ℕ, ◌≡◌, refl, ap, ◌∙◌, Bool, true, false, List, [], ◌∷◌, ◌++◌, if◌then◌else◌, some, arith,
}
use cinder_http.Server.Pool.{
  Pool, Deed, logger_down, stats_down, queue_down, pool_down, queue_shutdown, accept_loop, joins,
  Start, Ready, cleanup, after_start,
}
use cinder_http.Server.Replay.{
  World, allowed, does, replay, nothing_up, running, replay-cons, replay-joins, Started, eq_refl,
}

-- How a run that starts in a world ends: everything was in order, no part is up, and every thread
-- created was joined; all the workers of the configuration were created if the run succeeded.
pub record Ended (before : World) (worker_count : ℕ) (run : Bool × List Deed) : Type 0 where
  pub world : World
  pub in_order : replay before run.1 ≡ some world
  pub logger_off : world.logger ≡ false
  pub stats_off : world.stats ≡ false
  pub queue_off : world.queue ≡ false
  pub pool_off : world.pool ≡ false
  pub all_joined : world.gone ≡ world.threads
  pub all_workers : if run.0 then world.threads ≡ worker_count else Unit {0}

abbrev downs : List Deed
downs = pool_down ∷ queue_down ∷ stats_down ∷ logger_down ∷ []

abbrev all_down : ℕ → World
all_down n = record nothing_up { shut = true; threads = n; gone = n }

may_go_down : (n : ℕ) → allowed (running n n true) pool_down ≡ true
unfolding allowed
may_go_down n = rw (eq_refl n) refl

replay-downs : (n : ℕ) → replay (running n n true) downs ≡ some (all_down n)
unfolding replay allowed does
replay-downs n =
    replay-cons (running n n true) pool_down (queue_down ∷ stats_down ∷ logger_down ∷ [])
      (may_go_down n)

all_down-Ended :
    (before : World) (n worker_count : ℕ) (run : Bool × List Deed)
    → replay before run.1 ≡ some (all_down n)
    → (if run.0 then n ≡ worker_count else Unit {0})
    → Ended before worker_count run
all_down-Ended before n worker_count run e workers = record {
  world = all_down n;
  in_order = e;
  logger_off = refl;
  stats_off = refl;
  queue_off = refl;
  pool_off = refl;
  all_joined = refl;
  all_workers = workers;
}

-- The flags at the label when the pool has been made.
abbrev all_ready : Pool → Ready
all_ready pool = record {
  logger_ready = true;
  stats_ready = true;
  queue_ready = true;
  pool_ready = true;
  workers_running = false;
  pool = pool;
}

serves_and_ends :
    (n : ℕ)
    → replay (running n 0 false) (accept_loop ∷ queue_shutdown ∷ (joins 0 n ++ downs))
      ≡ some (all_down n)
unfolding replay allowed does
serves_and_ends n = replay-joins n 0 n downs (omega arith) ∙ replay-downs n

pub after_start-Ended :
    (n : ℕ) (s : Start)
    → Started 0 n s
    → let pool : Pool = record { threads = true; worker_count = n; started_count = 0 } in
      Ended (running 0 0 false) n (after_start (all_ready pool) s)
unfolding cleanup joins replay allowed does
after_start-Ended n s = go s.succeeded
  where
    pool : Pool
    pool = record { threads = true; worker_count = n; started_count = 0 }

    go :
        (b : Bool)
        → Started 0 n (record s { succeeded = b })
        → Ended (running 0 0 false) n (after_start (all_ready pool) (record s { succeeded = b }))
    go true (count, more) =
        all_down-Ended (running 0 0 false) n n _
          (more (accept_loop ∷ queue_shutdown ∷ (joins 0 s.started_count ++ downs))
            ∙ ap
                (λ k.
                  replay (running k 0 false)
                    (accept_loop ∷ queue_shutdown ∷ (joins 0 s.started_count ++ downs)))
                (omega arith)
            ∙ ap
                (λ k.
                  replay (running n 0 false) (accept_loop ∷ queue_shutdown ∷ (joins 0 k ++ downs)))
                (count ∙ omega arith)
            ∙ serves_and_ends n)
          refl
    go false (count, (k, more)) =
        all_down-Ended (running 0 0 false) k n _
          (more (queue_shutdown ∷ (joins 0 s.started_count ++ downs))
            ∙ ap (λ j. replay (running k k true) (joins 0 j ++ downs)) count
            ∙ replay-downs k)
          tt

-- A part that comes up before the rest of the run.
pub Ended-cons :
    (before : World) (d : Deed) (n : ℕ) (run : Bool × List Deed)
    → allowed before d ≡ true
    → Ended (does before d) n run
    → Ended before n (run.0, d ∷ run.1)
Ended-cons before d n run may e = record {
  world = e.world;
  in_order = replay-cons before d run.1 may ∙ e.in_order;
  logger_off = e.logger_off;
  stats_off = e.stats_off;
  queue_off = e.queue_off;
  pool_off = e.pool_off;
  all_joined = e.all_joined;
  all_workers = e.all_workers;
}
