-- ===== src/Client/Loop.antt =====
-- The loop of `client_handle` in src/client_handler.c, and what follows it.
use cinder_http.Prelude.{ℕ, suc, ◌+◌, true, false, List, [], ◌∷◌, ◌++◌, Option, none, some, ℤ}
use cinder_http.Text.{Bytes}
use cinder_http.Reader.{Reader, http_reader_init}
use cinder_http.Stats.{Event, connection_finished}
use cinder_http.Config.{Config}
use cinder_http.Client.{Visit, Visited}
use cinder_http.Client.Round.{visit}

-- What a connection comes to: the number of rounds, what came in, the messages taken from it, what
-- went out, the calls of the statistics and the closed descriptors, in their order.
pub record Session : Type 0 where
  pub rounds : ℕ
  pub received : Bytes
  pub messages : List Bytes
  pub out : Bytes
  pub events : List Event
  pub closed : List ℤ

abbrev pub last_round : Visited → Session
last_round x = record {
  rounds = 1;
  received = x.received;
  messages = x.messages;
  out = x.out;
  events = x.events;
  closed = x.closed;
}

abbrev pub and_then : Visited → Option Session → Option Session
and_then x none = none
and_then x (some s) = some (record {
  rounds = suc s.rounds;
  received = x.received ++ s.received;
  messages = x.messages ++ s.messages;
  out = x.out ++ s.out;
  events = x.events ++ s.events;
  closed = x.closed ++ s.closed;
})

-- The loop over the visits that are to come.
unfoldable pub rounds_from : Config → ℕ → Reader → List Visit → Option Session
rounds_from c requests reader [] = none
rounds_from c requests reader (v ∷ vs) = elim (visit c v requests reader) [
  | none ↦ none
  | some x ↦ elim x.stays [
    | false ↦ some (last_round x)
    | true ↦ and_then x (rounds_from c (requests + 1) x.reader vs)
  ]
]

-- The reader is given up, the descriptor closed, and the connection counted as finished.
abbrev pub give_up : ℤ → Option Session → Option Session
give_up client_fd none = none
give_up client_fd (some s) = some (record s {
  events = s.events ++ connection_finished ∷ [];
  closed = s.closed ++ client_fd ∷ [];
})

unfoldable pub client_handle : Config → ℤ → List Visit → Option Session
client_handle c client_fd vs = give_up client_fd (rounds_from c 0 http_reader_init vs)
