-- ===== src/Stats.antt =====
-- src/server_stats.c and include/server_stats.h. Each function is one critical section of the
-- mutex; the counters are of 64 bits.
pub mod Counts
use cinder_http.Prelude.{
  ℕ, ◌+◌, ◌-◌, ◌%◌, ◌^◌, Bool, true, false, not, ◌&&◌, List, [], ◌∷◌, leb, ltb, if◌then◌else◌,
  Option, none, some,
}

-- The counters of `server_stats_t`, and of `server_stats_snapshot_t`.
pub record Counters : Type 0 where
  pub connections_accepted : ℕ
  pub requests_total : ℕ
  pub responses_2xx : ℕ
  pub responses_4xx : ℕ
  pub responses_5xx : ℕ
  pub active_connections : ℕ

pub record Stats : Type 0 where
  pub initialized : Bool
  pub counters : Counters

abbrev pub zero_counters : Counters
zero_counters = record {
  connections_accepted = 0;
  requests_total = 0;
  responses_2xx = 0;
  responses_4xx = 0;
  responses_5xx = 0;
  active_connections = 0;
}

-- The argument says whether `pthread_mutex_init` succeeds; `none` is the answer -1.
unfoldable pub server_stats_init : Bool → Option Stats
server_stats_init made =
    if made then some (record { initialized = true; counters = zero_counters }) else none

unfoldable pub server_stats_destroy : Stats → Stats
server_stats_destroy s = if not s.initialized then s else record s { initialized = false }

-- `uint64_t` increment.
abbrev pub increment : ℕ → ℕ
increment n = (n + 1) % 2 ^ 64

abbrev pub when_ready : (Counters → Counters) → Stats → Stats
when_ready change s = if not s.initialized then s else record s { counters = change s.counters }

-- The calls of the other parts of the program.
pub data Event : Type 0 where
  connection_accepted connection_started connection_finished request_received : Event
  response_sent : ℕ → Event

abbrev pub count_response : ℕ → Counters → Counters
count_response status c =
    if leb 200 status && leb status 299
    then record c { responses_2xx = increment c.responses_2xx }
    else if leb 400 status && leb status 499
    then record c { responses_4xx = increment c.responses_4xx }
    else if leb 500 status && leb status 599
    then record c { responses_5xx = increment c.responses_5xx }
    else c

unfoldable pub server_stats_connection_accepted : Stats → Stats
server_stats_connection_accepted =
    when_ready (λ c. record c { connections_accepted = increment c.connections_accepted })

unfoldable pub server_stats_connection_started : Stats → Stats
server_stats_connection_started =
    when_ready (λ c. record c { active_connections = increment c.active_connections })

unfoldable pub server_stats_connection_finished : Stats → Stats
server_stats_connection_finished = when_ready (λ c.
    if ltb 0 c.active_connections
    then record c { active_connections = c.active_connections - 1 }
    else c)

unfoldable pub server_stats_request_received : Stats → Stats
server_stats_request_received =
    when_ready (λ c. record c { requests_total = increment c.requests_total })

unfoldable pub server_stats_response_sent : ℕ → Stats → Stats
server_stats_response_sent status = when_ready (count_response status)

-- One call.
unfoldable pub step : Event → Stats → Stats
step connection_accepted = server_stats_connection_accepted
step connection_started = server_stats_connection_started
step connection_finished = server_stats_connection_finished
step request_received = server_stats_request_received
step (response_sent status) = server_stats_response_sent status

unfoldable pub run : List Event → Stats → Stats
run [] s = s
run (e ∷ es) s = run es (step e s)

unfoldable pub server_stats_snapshot : Stats → Counters
server_stats_snapshot s = if not s.initialized then zero_counters else s.counters
