-- ===== src/Server/Orderly.antt =====
-- `server_run` of src/server.c brings its parts up and down in order, whatever fails.
use cinder_http.Prelude.{
  ℕ, ◌*◌, refl, Bool, true, false, not, ◌∷◌, ◌==◌, if◌then◌else◌, Option, none, some,
}
use cinder_http.Text.{Alloc}
use cinder_http.Queue.{Queue, connection_queue_init}
use cinder_http.Stats.{Stats, server_stats_init}
use cinder_http.Config.{Config}
use cinder_http.Server.Pool.{
  Pool, Creation, logger_up, stats_up, queue_up, pool_up, thread_pool_init, start_from, Boot, Ready,
  none_ready, cleanup, after_pool, after_queue, after_stats, server_run,
}
use cinder_http.Server.Replay.{World, allowed, does, replay, nothing_up, start_from-Started}
use cinder_http.Server.Ending.{Ended, Ended-cons, after_start-Ended}

abbrev with_logger : World
with_logger = record nothing_up { logger = true }

abbrev with_stats : World
with_stats = record with_logger { stats = true }

abbrev with_queue : World
with_queue = record with_stats { queue = true }

abbrev logger_is_ready : Ready
logger_is_ready = record none_ready { logger_ready = true }

abbrev stats_are_ready : Ready
stats_are_ready = record logger_is_ready { stats_ready = true }

abbrev queue_is_ready : Ready
queue_is_ready = record stats_are_ready { queue_ready = true }

-- A part that cannot be made, with those before it.
nothing-Ended : (n : ℕ) → Ended nothing_up n (false, cleanup none_ready)
unfolding cleanup replay allowed does
nothing-Ended n = record {
  world = nothing_up;
  in_order = refl;
  logger_off = refl;
  stats_off = refl;
  queue_off = refl;
  pool_off = refl;
  all_joined = refl;
  all_workers = tt;
}

no_stats-Ended : (n : ℕ) → Ended with_logger n (false, cleanup logger_is_ready)
unfolding cleanup replay allowed does
no_stats-Ended n = record {
  world = nothing_up;
  in_order = refl;
  logger_off = refl;
  stats_off = refl;
  queue_off = refl;
  pool_off = refl;
  all_joined = refl;
  all_workers = tt;
}

no_queue-Ended : (n : ℕ) → Ended with_stats n (false, cleanup stats_are_ready)
unfolding cleanup replay allowed does
no_queue-Ended n = record {
  world = nothing_up;
  in_order = refl;
  logger_off = refl;
  stats_off = refl;
  queue_off = refl;
  pool_off = refl;
  all_joined = refl;
  all_workers = tt;
}

no_pool-Ended : (n : ℕ) → Ended with_queue n (false, cleanup queue_is_ready)
unfolding cleanup replay allowed does
no_pool-Ended n = record {
  world = nothing_up;
  in_order = refl;
  logger_off = refl;
  stats_off = refl;
  queue_off = refl;
  pool_off = refl;
  all_joined = refl;
  all_workers = tt;
}

after_pool-Ended :
    (alloc : Alloc) (create : ℕ → Creation) (n : ℕ)
    → Ended with_queue n (after_pool create queue_is_ready (thread_pool_init alloc n))
unfolding thread_pool_init allowed does
after_pool-Ended alloc create n = go (n == 0) (alloc (n * 8))
  where
    pool : Pool
    pool = record { threads = true; worker_count = n; started_count = 0 }

    go :
        (none_wanted granted : Bool)
        → Ended with_queue n (
            after_pool create queue_is_ready
              (if none_wanted then none else if not granted then none else some pool))
    go true granted = no_pool-Ended n
    go false false = no_pool-Ended n
    go false true =
        Ended-cons with_queue pool_up n _ refl
          (after_start-Ended n (start_from create 0 n) (start_from-Started create n 0))

after_queue-Ended :
    (alloc : Alloc) (create : ℕ → Creation) (n : ℕ) (o : Option Queue)
    → Ended with_stats n (after_queue alloc create n stats_are_ready o)
unfolding allowed does
after_queue-Ended alloc create n none = no_queue-Ended n
after_queue-Ended alloc create n (some q) =
    Ended-cons with_stats queue_up n _ refl (after_pool-Ended alloc create n)

after_stats-Ended :
    (b : Boot) (c : Config) (o : Option Stats)
    → Ended with_logger c.worker_count (after_stats b c logger_is_ready o)
unfolding allowed does
after_stats-Ended b c none = no_stats-Ended c.worker_count
after_stats-Ended b c (some s) = Ended-cons with_logger stats_up c.worker_count _ refl (
    after_queue-Ended b.alloc b.create c.worker_count
      (connection_queue_init b.queue_calls c.queue_capacity))

-- Whichever initialisation or thread creation fails, `server_run` keeps its order: each part comes up
-- on those that it uses and goes down exactly once, with none above it; threads are created while the
-- queue is open and joined, each exactly once, after it is shut down and before the pool and the
-- queue go. In the end no part is up and no thread runs, and a run that succeeded had as many workers
-- as the configuration says.
pub server_run-Ended : (b : Boot) (c : Config) → Ended nothing_up c.worker_count (server_run b c)
unfolding server_run allowed does
server_run-Ended b c = go b.logger_made
  where
    go :
        (made : Bool)
        → let (result, deeds) = after_stats b c logger_is_ready (server_stats_init b.stats_made) in
          Ended nothing_up c.worker_count
            (if not made then (false, cleanup none_ready) else (result, logger_up ∷ deeds))
    go false = nothing-Ended c.worker_count
    go true =
        Ended-cons nothing_up logger_up c.worker_count _ refl
          (after_stats-Ended b c (server_stats_init b.stats_made))
