-- ===== src/Tests/Counting.antt =====
-- src/server_stats.c on a short run.
use cinder_http.Prelude.{refl, true, List, [], ◌∷◌, arith}
use cinder_http.Stats.{
  Stats, Event, connection_accepted, connection_started, connection_finished, request_received,
  response_sent, zero_counters, server_stats_init, run, server_stats_snapshot,
}
use cinder_http.Stats.Counts.{Counts, server_stats_snapshot-Counts}

abbrev fresh : Stats
fresh = record { initialized = true; counters = zero_counters }

abbrev visit : List Event
visit =
    connection_accepted
    ∷ connection_started
    ∷ request_received
    ∷ response_sent 404
    ∷ request_received
    ∷ response_sent 200
    ∷ connection_finished
    ∷ []

server_stats_snapshot-Counts_example :
    Counts visit zero_counters (server_stats_snapshot (run visit fresh))
unfolding server_stats_init
server_stats_snapshot-Counts_example =
    server_stats_snapshot-Counts visit refl (omega arith) (omega arith, tt)
