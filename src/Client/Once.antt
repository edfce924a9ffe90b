-- ===== src/Client/Once.antt =====
-- What the loop of `client_handle` reports to the statistics over a connection, and that it gives
-- its descriptor up.
use cinder_http.Prelude.{
  ℕ, suc, ◌+◌, ◌≤◌, ◌<◌, ◌≡◌, refl, sym, ap, ◌∙◌, subst, Bool, true, false, List, [], ◌∷◌, ◌++◌,
  Option, none, some, ℤ, arith, length, length-append,
}
use cinder_http.Limits.{http_max_requests_per_connection}
use cinder_http.Text.{Bytes}
use cinder_http.Reader.{Reader, http_reader_init}
use cinder_http.Reader.Stream.{WhenDone}
use cinder_http.Stats.{Event, connection_finished}
use cinder_http.Stats.Counts.{count, is_received, is_finished, is_started, is_accepted}
use cinder_http.Config.{Config}
use cinder_http.Client.{Visit, Visited}
use cinder_http.Client.Round.{visit}
use cinder_http.Client.Loop.{Session, last_round, and_then, rounds_from, give_up, client_handle}
use cinder_http.Client.Stays.{visit_stays}
use cinder_http.Client.Reports.{is_response, reports, visit-Reports}

pub count-append :
    (p : Event → Bool) (xs ys : List Event) → count p (xs ++ ys) ≡ count p xs + count p ys
unfolding count
count-append p [] ys = omega arith
count-append p (x ∷ xs) ys = omega (arith, count-append p xs ys)

-- The calls that a connection makes behind its start, for the requests it read.
pub record Tallies (es : List Event) (messages : List Bytes) (rounds : ℕ) : Type 0 where
  pub requests : count is_received es ≡ length messages
  pub no_more_requests : length messages ≤ rounds
  pub no_more_responses : count is_response es ≤ rounds
  pub all_but_one_answered : rounds ≤ count is_response es + 1
  pub none_accepted : count is_accepted es ≡ 0
  pub none_started : count is_started es ≡ 0

record Unfinished (requests : ℕ) (s : Session) : Type 0 where
  tallies : Tallies s.events s.messages s.rounds
  none_finished : count is_finished s.events ≡ 0
  within : requests + s.rounds ≤ http_max_requests_per_connection

reports-Tallies :
    (ms : List Bytes) (status : Option ℕ) → length ms ≤ 1 → Tallies (reports ms status) ms 1
unfolding count
reports-Tallies [] none few = record {
  requests = refl;
  no_more_requests = omega arith;
  no_more_responses = omega arith;
  all_but_one_answered = omega arith;
  none_accepted = refl;
  none_started = refl;
}
reports-Tallies [] (some status) few = record {
  requests = refl;
  no_more_requests = omega arith;
  no_more_responses = omega arith;
  all_but_one_answered = omega arith;
  none_accepted = refl;
  none_started = refl;
}
reports-Tallies (m ∷ ms) status few =
    let t = reports-Tallies ms status (omega arith) in
    record {
      requests = omega (arith, t.requests);
      no_more_requests = omega arith;
      no_more_responses = omega (arith, t.no_more_responses);
      all_but_one_answered = omega arith;
      none_accepted = omega (arith, t.none_accepted);
      none_started = omega (arith, t.none_started);
    }

reports-unfinished :
    (ms : List Bytes) (status : Option ℕ) → count is_finished (reports ms status) ≡ 0
unfolding count
reports-unfinished [] none = refl
reports-unfinished [] (some status) = refl
reports-unfinished (m ∷ ms) status = omega (arith, reports-unfinished ms status)

-- A round that answered, and the rounds behind it.
append-Tallies :
    (es fs : List Event) (ms ns : List Bytes) (rounds : ℕ)
    → Tallies es ms 1
    → count is_response es ≡ 1
    → Tallies fs ns rounds
    → Tallies (es ++ fs) (ms ++ ns) (suc rounds)
append-Tallies es fs ms ns rounds t one u = record {
  requests =
      omega (arith, count-append is_received es fs, length-append ms ns, t.requests, u.requests);
  no_more_requests = omega (arith, length-append ms ns, t.no_more_requests, u.no_more_requests);
  no_more_responses = omega (arith, count-append is_response es fs, u.no_more_responses);
  all_but_one_answered = omega (arith, count-append is_response es fs, u.all_but_one_answered);
  none_accepted = omega (arith, count-append is_accepted es fs, t.none_accepted, u.none_accepted);
  none_started = omega (arith, count-append is_started es fs, t.none_started, u.none_started);
}

module _ (c : Config) (v : Visit) (requests : ℕ) (reader : Reader) (x : Visited) where
  visit-Tallies : visit c v requests reader ≡ some x → Tallies x.events x.messages 1
  visit-Tallies h =
      let r = visit-Reports c v requests reader x h in
      subst (λ es. Tallies es x.messages 1) (sym r.events)
        (reports-Tallies x.messages r.status r.one)

  visit-unfinished : visit c v requests reader ≡ some x → count is_finished x.events ≡ 0
  visit-unfinished h =
      let r = visit-Reports c v requests reader x h in
      ap (count is_finished) r.events ∙ reports-unfinished x.messages r.status

  visit-answered :
      visit c v requests reader ≡ some x → x.stays ≡ true → count is_response x.events ≡ 1
  unfolding count
  visit-answered h stays =
      ap (count is_response) (visit_stays c v requests reader x h stays).answered.counted

module _ (c : Config) where
  rounds_from-Unfinished :
      (vs : List Visit) (requests : ℕ) (reader : Reader)
      → requests < http_max_requests_per_connection
      → WhenDone (Unfinished requests) (rounds_from c requests reader vs)
  unfolding rounds_from
  rounds_from-Unfinished [] requests reader few = tt
  rounds_from-Unfinished (v ∷ vs) requests reader few =
      go (visit c v requests reader) refl
        (λ x below. rounds_from-Unfinished vs (requests + 1) x.reader below)
    where
      later :
          (x : Visited) (o : Option Session)
          → visit c v requests reader ≡ some x
          → x.stays ≡ true
          → WhenDone (Unfinished (requests + 1)) o
          → WhenDone (Unfinished requests) (and_then x o)
      later x none h stays u = tt
      later x (some s) h stays u = record {
        tallies =
            append-Tallies x.events s.events x.messages s.messages s.rounds
              (visit-Tallies c v requests reader x h) (visit-answered c v requests reader x h stays)
              u.tallies;
        none_finished = omega (
          arith,
          count-append is_finished x.events s.events,
          u.none_finished,
          visit-unfinished c v requests reader x h,
        );
        within = omega (arith, u.within);
      }

      stays :
          (x : Visited) (b : Bool)
          → visit c v requests reader ≡ some x
          → x.stays ≡ b
          → ((requests + 1 < http_max_requests_per_connection)
              → WhenDone (Unfinished (requests + 1)) (rounds_from c (requests + 1) x.reader vs))
          → WhenDone (Unfinished requests) (elim b [
            | false ↦ some (last_round x)
            | true ↦ and_then x (rounds_from c (requests + 1) x.reader vs)
          ])
      stays x false h e next = record {
        tallies = visit-Tallies c v requests reader x h;
        none_finished = visit-unfinished c v requests reader x h;
        within = omega arith;
      }
      stays x true h e next =
          later x (rounds_from c (requests + 1) x.reader vs) h e
            (next (visit_stays c v requests reader x h e).below)

      go :
          (o : Option Visited)
          → visit c v requests reader ≡ o
          → ((x : Visited)
              → requests + 1 < http_max_requests_per_connection
              → WhenDone (Unfinished (requests + 1)) (rounds_from c (requests + 1) x.reader vs))
          → WhenDone (Unfinished requests) (elim o [
            | none ↦ none
            | some x ↦ elim x.stays [
              | false ↦ some (last_round x)
              | true ↦ and_then x (rounds_from c (requests + 1) x.reader vs)
            ]
          ])
      go none h next = tt
      go (some x) h next = stays x x.stays h refl (next x)

-- A connection that has been given up.
pub record GivenUp (client_fd : ℤ) (s : Session) : Type 0 where
  pub within : s.rounds ≤ http_max_requests_per_connection
  pub tallies : Tallies s.events s.messages s.rounds
  pub finished_once : count is_finished s.events ≡ 1
  pub before : List Event
  pub finished_last : s.events ≡ before ++ connection_finished ∷ []
  pub closed_before : List ℤ
  pub closed_last : s.closed ≡ closed_before ++ client_fd ∷ []

give_up-GivenUp :
    (client_fd : ℤ) (o : Option Session)
    → WhenDone (Unfinished 0) o
    → WhenDone (GivenUp client_fd) (give_up client_fd o)
unfolding count
give_up-GivenUp client_fd none u = tt
give_up-GivenUp client_fd (some s) u =
    let t = u.tallies in
    let last : List Event = connection_finished ∷ [] in
    record {
      within = omega (arith, u.within);
      tallies = record {
        requests = omega (arith, count-append is_received s.events last, t.requests);
        no_more_requests = t.no_more_requests;
        no_more_responses =
            omega (arith, count-append is_response s.events last, t.no_more_responses);
        all_but_one_answered =
            omega (arith, count-append is_response s.events last, t.all_but_one_answered);
        none_accepted = omega (arith, count-append is_accepted s.events last, t.none_accepted);
        none_started = omega (arith, count-append is_started s.events last, t.none_started);
      };
      finished_once = omega (arith, count-append is_finished s.events last, u.none_finished);
      before = s.events;
      finished_last = refl;
      closed_before = s.closed;
      closed_last = refl;
    }

-- Whatever the peer, the kernel and the file system do, and however many visits there are, a
-- connection has at most a hundred rounds. It ends with the close of its descriptor and with the one
-- call that counts it as finished; it counts exactly the messages that it took as requests, reports
-- in all as many responses as it has rounds or one less, and counts no connection as accepted or
-- started.
pub client_handle-GivenUp :
    (c : Config) (client_fd : ℤ) (vs : List Visit) (s : Session)
    → client_handle c client_fd vs ≡ some s
    → GivenUp client_fd s
unfolding client_handle
client_handle-GivenUp c client_fd vs s h = subst (WhenDone (GivenUp client_fd)) h (
    give_up-GivenUp client_fd (rounds_from c 0 http_reader_init vs)
      (rounds_from-Unfinished c vs 0 http_reader_init (omega arith)))
