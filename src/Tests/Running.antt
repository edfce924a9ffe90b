-- ===== src/Tests/Running.antt =====
-- The threads of src/server.c on one connection, and the start of the server.
use cinder_http.Prelude.{
  ◌≡◌, ◌≢◌, ◌+◌, refl, true, false, Bool, ℤ, pos, List, [], ◌∷◌, arith, negsuc, ◌==◌, count_where,
  if◌then◌else◌,
}
use cinder_http.Queue.{
  push_pass, pop_pass, connection_queue_shutdown, connection_queue_init, connection_queue_destroy,
  close_from,
}
use cinder_http.Stats.{
  Stats, zero_counters, server_stats_init, run, server_stats_snapshot, step, connection_accepted,
  request_received, response_sent, connection_finished, connection_started,
  server_stats_connection_started, server_stats_connection_finished,
  server_stats_connection_accepted, server_stats_request_received, server_stats_response_sent,
}
use cinder_http.Server.{Server, testing, ended, serving, exited}
use cinder_http.Stats.Counts.{count}
use cinder_http.Server.Steps.{
  Reach, start, then_step, signals, stays_in_loop, leaves_loop, accepts, counts_accepted, pushes,
  counts_started, shuts_down, cleans_up, pops, stops, reports, closes, finishes,
}
use cinder_http.Server.Owned.{Owned}
use cinder_http.Server.Closed.{reachable-Owned}
use cinder_http.Server.Finished.{finished-closed}
use cinder_http.Server.Tallies.{reachable-Active}
use cinder_http.Server.Pool.{
  Boot, created, not_created, server_run, start_from, joins, cleanup, thread_pool_init, Deed,
  logger_up, stats_up, queue_up, pool_up, logger_down, stats_down, queue_down, pool_down,
  queue_shutdown, spawned, joined,
}
use cinder_http.Server.Replay.{nothing_up}
use cinder_http.Server.Ending.{Ended}
use cinder_http.Server.Orderly.{server_run-Ended}
use cinder_http.Tests.Visiting.{configured, asks, hangs_up}
use cinder_http.Tests.Handling.{session, one_request}
use cinder_http.Tests.Queueing.{empty_queue, empty_queue-IsValid, granted}

-- Behind one connection, whose worker was done before the accept thread counted it as started.
abbrev after_one : Server
after_one = record {
  requested = true;
  queue = record {
    items = [];
    capacity = 0;
    head = 0;
    tail = 0;
    count = 0;
    shutting_down = false;
    mutex_initialized = false;
    not_empty_initialized = false;
    not_full_initialized = false;
  };
  acceptor = ended;
  workers = exited ∷ [];
  events =
      connection_accepted
      ∷ request_received
      ∷ response_sent 200
      ∷ connection_finished
      ∷ connection_started
      ∷ [];
  accepted = pos 9 ∷ [];
  closed = pos 9 ∷ [];
}

reaches : Reach configured empty_queue 1 after_one
unfolding push_pass pop_pass connection_queue_shutdown connection_queue_destroy close_from
reaches =
    let r = then_step start (stays_in_loop refl refl refl) in
    let r = then_step r (accepts 9 refl refl) in
    let r = then_step r (counts_accepted (pos 9) refl refl) in
    let r = then_step r (pushes (pos 9) true _ refl refl refl) in
    let r =
      then_step r
        (pops [] [] (pos 9) _ (asks ∷ hangs_up ∷ []) session refl refl one_request refl) in
    let r = then_step r (reports [] [] (pos 9) _ _ _ refl refl) in
    let r = then_step r (reports [] [] (pos 9) _ _ _ refl refl) in
    let r = then_step r (closes [] [] (pos 9) _ refl refl) in
    let r = then_step r (finishes [] [] _ refl refl) in
    let r = then_step r (counts_started refl refl) in
    let r = then_step r (signals refl) in
    let r = then_step r (leaves_loop refl refl refl) in
    let r = then_step r (shuts_down refl refl) in
    let r = then_step r (stops [] [] _ refl refl refl) in then_step r (cleans_up refl refl refl)

reachable-Owned_example : Owned after_one
reachable-Owned_example =
    reachable-Owned configured empty_queue 1 after_one empty_queue-IsValid refl reaches

at_nine : ℤ → Bool
at_nine fd = elim fd [ pos n ↦ n == 9 | negsuc n ↦ false ]

finished-closed_example :
    count_where at_nine after_one.closed ≡ count_where at_nine after_one.accepted
finished-closed_example =
    finished-closed configured empty_queue 1 after_one at_nine empty_queue-IsValid refl reaches refl

abbrev counting : Stats
counting = record { initialized = true; counters = zero_counters }

-- The statistics behind that run: one connection is still counted as active.
still_active : (run after_one.events counting).counters.active_connections ≡ 1
unfolding run step server_stats_connection_started server_stats_connection_finished
    server_stats_connection_accepted server_stats_request_received server_stats_response_sent
still_active = refl

-- The second of the workers cannot be created.
abbrev second_fails : Boot
second_fails = record {
  logger_made = true;
  stats_made = true;
  queue_calls = granted;
  alloc = λ n. true;
  create = λ i. if i == 1 then not_created else created;
}

server_run-Ended_example : Ended nothing_up 4 (server_run second_fails configured)
server_run-Ended_example = server_run-Ended second_fails configured

abbrev two_of_four : List Deed
two_of_four =
    logger_up
    ∷ stats_up
    ∷ queue_up
    ∷ pool_up
    ∷ spawned 0
    ∷ queue_shutdown
    ∷ joined 0
    ∷ queue_shutdown
    ∷ pool_down
    ∷ queue_down
    ∷ stats_down
    ∷ logger_down
    ∷ []

runs_second_fails : server_run second_fails configured ≡ (false, two_of_four)
unfolding server_run start_from joins cleanup thread_pool_init server_stats_init
    connection_queue_init
runs_second_fails = refl

-- A connection is counted as started, and its worker has a request.
abbrev serving_one : Server
serving_one = record {
  requested = false;
  queue = record empty_queue { items = pos 9 ∷ pos 0 ∷ []; head = 1; tail = 1 };
  acceptor = testing;
  workers = serving (pos 9) (response_sent 200 ∷ connection_finished ∷ []) ∷ [];
  events = connection_accepted ∷ connection_started ∷ request_received ∷ [];
  accepted = pos 9 ∷ [];
  closed = [];
}

reaches_service : Reach configured empty_queue 1 serving_one
unfolding push_pass pop_pass
reaches_service =
    let r = then_step start (stays_in_loop refl refl refl) in
    let r = then_step r (accepts 9 refl refl) in
    let r = then_step r (counts_accepted (pos 9) refl refl) in
    let r = then_step r (pushes (pos 9) true _ refl refl refl) in
    let r = then_step r (counts_started refl refl) in
    let r =
      then_step r
        (pops [] [] (pos 9) _ (asks ∷ hangs_up ∷ []) session refl refl one_request refl) in
    then_step r (reports [] [] (pos 9) _ _ _ refl refl)

not_ended : serving_one.acceptor ≢ ended
not_ended e = cc

reachable-Active_example :
    let shown = server_stats_snapshot (run serving_one.events counting) in
    (shown.connections_accepted + 0 ≡ 1) × (shown.active_connections + 0 ≡ 1)
unfolding server_stats_init count
reachable-Active_example =
    reachable-Active configured empty_queue 1 serving_one empty_queue-IsValid refl reaches_service
      not_ended refl (omega arith) tt
