-- ===== src/Server/Counted.antt =====
-- What the threads of src/server.c and src/thread_pool.c report to the statistics.
use cinder_http.Prelude.{
  ℕ, ◌+◌, ◌≡◌, ap, ◌∙◌, Bool, true, false, List, [], ◌∷◌, ◌++◌, ℤ, arith, length, length-append,
}
use cinder_http.Queue.{Queue}
use cinder_http.Queue.Invariant.{contents}
use cinder_http.Stats.{Event, connection_accepted, connection_started}
use cinder_http.Stats.Counts.{count, is_accepted, is_started, is_finished}
use cinder_http.Client.Once.{count-append}
use cinder_http.Server.{
  Acceptor, testing, in_accept, arrived, owns, entered, ended, Worker, serving, hung_up, Server,
}

-- The calls of a kind that a worker is still to make.
abbrev pub pending : (Event → Bool) → Worker → ℕ
pending p (serving fd later) = count p later
pending p (hung_up last) = count p (last ∷ [])
pending p _ = 0

abbrev pub all_pending : (Event → Bool) → List Worker → ℕ
all_pending p [] = 0
all_pending p (w ∷ ws) = pending p w + all_pending p ws

-- Whether a connection is accepted and not counted yet, or in the queue and not counted yet.
abbrev pub arrivals : Acceptor → ℕ
arrivals (arrived fd) = 1
arrivals _ = 0

abbrev pub entries : Acceptor → ℕ
entries entered = 1
entries _ = 0

abbrev pub is_live : Acceptor → Bool
is_live ended = false
is_live _ = true

-- Every accepted connection is reported, or about to be. Until the queue is destroyed, the starts
-- reported and the one about to be are the ends reported, those to come from the workers, and the
-- connections in the queue. No worker reports an acceptance or a start.
pub record Tallied (events : List Event) (a : Acceptor) (ws : List Worker) (q : Queue)
    (accepted : List ℤ) : Type 0 where
  pub all_accepted : count is_accepted events + arrivals a ≡ length accepted
  pub in_service :
      is_live a ≡ true
      → count is_started events + entries a
        ≡ count is_finished events + all_pending is_finished ws + length (contents q)
  pub none_accepted : all_pending is_accepted ws ≡ 0
  pub none_started : all_pending is_started ws ≡ 0

abbrev pub Counted : Server → Type 0
Counted s = Tallied s.events s.acceptor s.workers s.queue s.accepted

pub pending-split :
    (p : Event → Bool) (before after : List Worker) (w : Worker)
    → all_pending p (before ++ w ∷ after) ≡ all_pending p before + pending p w + all_pending p after
pending-split p [] after w = omega arith
pending-split p (b ∷ before) after w = omega (arith, pending-split p before after w)

-- The accept thread moves.
pub moves-Counted :
    (s : Server) (a : Acceptor)
    → Counted s
    → arrivals s.acceptor ≡ arrivals a
    → entries s.acceptor ≡ entries a
    → is_live s.acceptor ≡ true
    → Counted (record s { acceptor = a })
moves-Counted s a o same_arrivals same_entries live = record {
  all_accepted = omega (arith, o.all_accepted, same_arrivals);
  in_service = λ goes_on. omega (arith, o.in_service live, same_entries);
  none_accepted = o.none_accepted;
  none_started = o.none_started;
}

-- The queue holds the same number of connections, and a worker has the same calls to make.
pub works-Counted :
    (s : Server) (before after : List Worker) (w w' : Worker)
    → Counted s
    → s.workers ≡ before ++ w ∷ after
    → ((p : Event → Bool) → pending p w ≡ pending p w')
    → Counted (record s { workers = before ++ w' ∷ after })
works-Counted s before after w w' o e same =
    let keeps : (p : Event → Bool)
        → all_pending p (before ++ w' ∷ after) ≡ all_pending p s.workers =
      λ p. omega (
        arith,
        pending-split p before after w,
        pending-split p before after w',
        ap (all_pending p) e,
        same p,
      ) in
    record {
      all_accepted = o.all_accepted;
      in_service = λ live. omega (arith, o.in_service live, keeps is_finished);
      none_accepted = keeps is_accepted ∙ o.none_accepted;
      none_started = keeps is_started ∙ o.none_started;
    }

-- A worker makes the next of its calls.
pub reports-Counted :
    (s : Server) (before after : List Worker) (w w' : Worker) (x : Event)
    → Counted s
    → s.workers ≡ before ++ w ∷ after
    → ((p : Event → Bool) → pending p w ≡ count p (x ∷ []) + pending p w')
    → Counted (record s { workers = before ++ w' ∷ after; events = s.events ++ x ∷ [] })
reports-Counted s before after w w' x o e next =
    let less : (p : Event → Bool)
        → all_pending p s.workers ≡ count p (x ∷ []) + all_pending p (before ++ w' ∷ after) =
      λ p. omega (
        arith,
        pending-split p before after w,
        pending-split p before after w',
        ap (all_pending p) e,
        next p,
      ) in
    record {
      all_accepted = omega (
        arith,
        o.all_accepted,
        o.none_accepted,
        less is_accepted,
        count-append is_accepted s.events (x ∷ []),
      );
      in_service = λ live. omega (
        arith,
        o.in_service live,
        o.none_started,
        less is_started,
        less is_finished,
        count-append is_started s.events (x ∷ []),
        count-append is_finished s.events (x ∷ []),
      );
      none_accepted = omega (arith, o.none_accepted, less is_accepted);
      none_started = omega (arith, o.none_started, less is_started);
    }

pub accepts-Counted :
    (s : Server) (fd : ℤ)
    → Counted s
    → s.acceptor ≡ in_accept
    → Counted (record s { acceptor = arrived fd; accepted = s.accepted ++ fd ∷ [] })
accepts-Counted s fd o h = record {
  all_accepted = omega (arith, o.all_accepted, ap arrivals h, length-append s.accepted (fd ∷ []));
  in_service = λ live. omega (arith, o.in_service (ap is_live h), ap entries h);
  none_accepted = o.none_accepted;
  none_started = o.none_started;
}

pub counts_accepted-Counted :
    (s : Server) (fd : ℤ)
    → Counted s
    → s.acceptor ≡ arrived fd
    → Counted (record s { acceptor = owns fd; events = s.events ++ connection_accepted ∷ [] })
unfolding count
counts_accepted-Counted s fd o h =
    let one : List Event = connection_accepted ∷ [] in
    record {
      all_accepted =
          omega (arith, o.all_accepted, ap arrivals h, count-append is_accepted s.events one);
      in_service = λ live. omega (
        arith,
        o.in_service (ap is_live h),
        ap entries h,
        count-append is_started s.events one,
        count-append is_finished s.events one,
      );
      none_accepted = o.none_accepted;
      none_started = o.none_started;
    }

pub counts_started-Counted :
    (s : Server)
    → Counted s
    → s.acceptor ≡ entered
    → Counted (record s { acceptor = testing; events = s.events ++ connection_started ∷ [] })
unfolding count
counts_started-Counted s o h =
    let one : List Event = connection_started ∷ [] in
    record {
      all_accepted =
          omega (arith, o.all_accepted, ap arrivals h, count-append is_accepted s.events one);
      in_service = λ live. omega (
        arith,
        o.in_service (ap is_live h),
        ap entries h,
        count-append is_started s.events one,
        count-append is_finished s.events one,
      );
      none_accepted = o.none_accepted;
      none_started = o.none_started;
    }
