-- ===== src/Server/Tallies.antt =====
-- What the statistics show as active while src/server.c runs.
use cinder_http.Prelude.{
  ℕ, zero, suc, ◌+◌, ◌<◌, ◌^◌, ◌≡◌, ◌≢◌, refl, sym, ap, subst, Bool, true, false, ◌||◌, List, [],
  ◌∷◌, ◌++◌, if◌then◌else◌, some, ℤ, pos, arith, length, length-append, replicate,
}
use cinder_http.Queue.{Queue, Status, ok, error, returns, connection_queue_shutdown}
use cinder_http.Queue.Invariant.{contents, IsValid}
use cinder_http.Stats.{Event, Stats, server_stats_init, run, server_stats_snapshot}
use cinder_http.Stats.Counts.{
  count, is_accepted, is_started, is_finished, Bracketed, server_stats_snapshot-Counts,
}
use cinder_http.Config.{Config}
use cinder_http.Client.Once.{client_handle-GivenUp}
use cinder_http.Server.{
  Acceptor, testing, in_accept, arrived, owns, refused, entered, leaving, joining, ended, Worker,
  popping, serving, hung_up, exited, Server,
}
use cinder_http.Server.Steps.{
  is_shutdown, behind_refusal, Step, signals, stays_in_loop, leaves_loop, accept_fails, accepts,
  counts_accepted, pushes, is_refused, push_fails, gives_up, counts_started, shuts_down, cleans_up,
  pops, stops, pop_fails, reports, closes, finishes, started, Reach, start, then_step,
}
use cinder_http.Server.Sharing.{Pushed, push_pass-Pushed, Taken, pop_pass-Taken, shutdown-Usable}
use cinder_http.Server.Owned.{Owned}
use cinder_http.Server.Closed.{refused-same, reachable-Owned}
use cinder_http.Server.Counted.{
  all_pending, arrivals, entries, is_live, Counted, pending-split, moves-Counted, works-Counted,
  reports-Counted, accepts-Counted, counts_accepted-Counted, counts_started-Counted,
}

same_queue-Counted :
    (s : Server) (q : Queue) → q ≡ s.queue → Counted s → Counted (record s { queue = q })
same_queue-Counted s q e o = subst (λ k. Counted (record s { queue = k })) (sym e) o

pushes-Counted :
    (s : Server) (fd : ℤ) (q : Queue)
    → Counted s
    → s.acceptor ≡ owns fd
    → Pushed s.queue fd (returns ok q)
    → Counted (record s { acceptor = entered; queue = q })
pushes-Counted s fd q o h (usable, more) = record {
  all_accepted = omega (arith, o.all_accepted, ap arrivals h);
  in_service = λ live. omega (
    arith,
    o.in_service (ap is_live h),
    ap entries h,
    ap length more,
    length-append (contents s.queue) (fd ∷ []),
  );
  none_accepted = o.none_accepted;
  none_started = o.none_started;
}

gives_up-Counted :
    (s : Server) (fd : ℤ) (status : Status)
    → Counted s
    → s.acceptor ≡ refused fd status
    → Counted
        (record s { acceptor = behind_refusal status s.requested; closed = s.closed ++ fd ∷ [] })
gives_up-Counted s fd status o h = go (is_shutdown status || s.requested)
  where
    go :
        (b : Bool)
        → Counted
            (record s { acceptor = if b then leaving else testing; closed = s.closed ++ fd ∷ [] })
    go true =
        let m = moves-Counted s leaving o (ap arrivals h) (ap entries h) (ap is_live h) in
        record {
          all_accepted = m.all_accepted;
          in_service = m.in_service;
          none_accepted = m.none_accepted;
          none_started = m.none_started;
        }
    go false =
        let m = moves-Counted s testing o (ap arrivals h) (ap entries h) (ap is_live h) in
        record {
          all_accepted = m.all_accepted;
          in_service = m.in_service;
          none_accepted = m.none_accepted;
          none_started = m.none_started;
        }

shuts_down-Counted :
    (s : Server)
    → Counted s
    → Owned s
    → s.acceptor ≡ leaving
    → Counted (record s { acceptor = joining; queue = connection_queue_shutdown s.queue })
shuts_down-Counted s o owned h =
    let (usable, same) = shutdown-Usable s.queue owned.usable in
    record {
      all_accepted = omega (arith, o.all_accepted, ap arrivals h);
      in_service = λ live. omega (arith, o.in_service (ap is_live h), ap entries h, ap length same);
      none_accepted = o.none_accepted;
      none_started = o.none_started;
    }

pops-Counted :
    (s : Server) (before after : List Worker) (fd : ℤ) (q : Queue) (es : List Event)
    → Counted s
    → s.workers ≡ before ++ popping ∷ after
    → Taken s.queue (returns (ok, some fd) q)
    → count is_finished es ≡ 1
    → count is_accepted es ≡ 0
    → count is_started es ≡ 0
    → Counted (record s { workers = before ++ serving fd es ∷ after; queue = q })
pops-Counted s before after fd q es o e (usable, first) finished accepted started =
    let more : (p : Event → Bool)
        → all_pending p (before ++ serving fd es ∷ after) ≡ all_pending p s.workers + count p es =
      λ p. omega (
        arith,
        pending-split p before after popping,
        pending-split p before after (serving fd es),
        ap (all_pending p) e,
      ) in
    record {
      all_accepted = o.all_accepted;
      in_service =
          λ live. omega (arith, o.in_service live, more is_finished, finished, ap length first);
      none_accepted = omega (arith, o.none_accepted, more is_accepted, accepted);
      none_started = omega (arith, o.none_started, more is_started, started);
    }

Step-Counted : {c : Config} {s t : Server} → Step c s t → Owned s → Counted s → Counted t
unfolding count
Step-Counted {s = s} (signals e) w o = subst Counted (sym e) (record {
  all_accepted = o.all_accepted;
  in_service = o.in_service;
  none_accepted = o.none_accepted;
  none_started = o.none_started;
})
Step-Counted {s = s} (stays_in_loop h r e) w o =
    subst Counted (sym e)
      (moves-Counted s in_accept o (ap arrivals h) (ap entries h) (ap is_live h))
Step-Counted {s = s} (leaves_loop h r e) w o =
    subst Counted (sym e) (moves-Counted s leaving o (ap arrivals h) (ap entries h) (ap is_live h))
Step-Counted {s = s} (accept_fails h e) w o =
    subst Counted (sym e) (moves-Counted s testing o (ap arrivals h) (ap entries h) (ap is_live h))
Step-Counted {s = s} (accepts fd h e) w o = subst Counted (sym e) (accepts-Counted s (pos fd) o h)
Step-Counted {s = s} (counts_accepted fd h e) w o =
    subst Counted (sym e) (counts_accepted-Counted s fd o h)
Step-Counted {s = s} (pushes fd clock_ok q h r e) w o = subst Counted (sym e) (
    pushes-Counted s fd q o h
      (subst (Pushed s.queue fd) r (push_pass-Pushed s.queue fd _ w.usable)))
Step-Counted {s = s} (is_refused fd clock_ok status q h ne r e) w o = subst Counted (sym e) (
    moves-Counted (record s { queue = q }) (refused fd status)
      (same_queue-Counted s q
        (refused-same s.queue q fd status ne
          (subst (Pushed s.queue fd) r (push_pass-Pushed s.queue fd _ w.usable)))
        o)
      (ap arrivals h) (ap entries h) (ap is_live h))
Step-Counted {s = s} (push_fails fd h e) w o =
    subst Counted (sym e)
      (moves-Counted s (refused fd error) o (ap arrivals h) (ap entries h) (ap is_live h))
Step-Counted {s = s} (gives_up fd status h e) w o =
    subst Counted (sym e) (gives_up-Counted s fd status o h)
Step-Counted {s = s} (counts_started h e) w o = subst Counted (sym e) (counts_started-Counted s o h)
Step-Counted {s = s} (shuts_down h e) w o = subst Counted (sym e) (shuts_down-Counted s o w h)
Step-Counted {s = s} (cleans_up h x e) w o = subst Counted (sym e) (record {
  all_accepted = omega (arith, o.all_accepted, ap arrivals h);
  in_service = λ live. absurd (cc);
  none_accepted = o.none_accepted;
  none_started = o.none_started;
})
Step-Counted {c = c} {s = s} (pops before after fd q vs session h r handled e) w o =
    let given_up = client_handle-GivenUp c fd vs session handled in
    subst Counted (sym e) (
      pops-Counted s before after fd q session.events o h
        (subst (Taken s.queue) r (pop_pass-Taken s.queue w.usable)) given_up.finished_once
        given_up.tallies.none_accepted given_up.tallies.none_started)
Step-Counted {s = s} (stops before after q h r e) w o = subst Counted (sym e) (
    works-Counted (record s { queue = q }) before after popping exited
      (same_queue-Counted s q (subst (Taken s.queue) r (pop_pass-Taken s.queue w.usable)) o) h
      (λ p. refl))
Step-Counted {s = s} (pop_fails before after h e) w o =
    subst Counted (sym e) (works-Counted s before after popping exited o h (λ p. refl))
Step-Counted {s = s} (reports before after fd x next later h e) w o = subst Counted (sym e) (
    reports-Counted s before after (serving fd (x ∷ next ∷ later)) (serving fd (next ∷ later)) x o h
      (λ p. omega arith))
Step-Counted {s = s} (closes before after fd last h e) w o =
    let m = works-Counted s before after (serving fd (last ∷ [])) (hung_up last) o h (λ p. refl) in
    subst Counted (sym e) (record {
      all_accepted = m.all_accepted;
      in_service = m.in_service;
      none_accepted = m.none_accepted;
      none_started = m.none_started;
    })
Step-Counted {s = s} (finishes before after last h e) w o =
    subst Counted (sym e)
      (reports-Counted s before after (hung_up last) popping last o h (λ p. omega arith))

none_pending : (p : Event → Bool) (n : ℕ) → all_pending p (replicate n popping) ≡ 0
none_pending p zero = refl
none_pending p (suc n) = omega (arith, none_pending p n)

started-Counted : (q : Queue) (n : ℕ) → contents q ≡ [] → Counted (started q n)
unfolding count
started-Counted q n empty = record {
  all_accepted = refl;
  in_service = λ live. omega (arith, none_pending is_finished n, ap length empty);
  none_accepted = none_pending is_accepted n;
  none_started = none_pending is_started n;
}

pub reachable-Counted :
    (c : Config) (q : Queue) (worker_count : ℕ) (s : Server)
    → IsValid q
    → contents q ≡ []
    → Reach c q worker_count s
    → Counted s
reachable-Counted c q n s v empty start = started-Counted q n empty
reachable-Counted c q n s v empty (then_step before st) =
    Step-Counted st (reachable-Owned c q n _ v empty before)
      (reachable-Counted c q n _ v empty before)

live : (a : Acceptor) → a ≢ ended → is_live a ≡ true
live testing ne = refl
live in_accept ne = refl
live (arrived fd) ne = refl
live (owns fd) ne = refl
live (refused fd status) ne = refl
live entered ne = refl
live leaving ne = refl
live joining ne = refl
live ended ne = absurd (ne refl)

-- What a snapshot shows of a running server: the accepted connections, but for one that is about to
-- be counted; and as active those that wait in the queue or are with a worker that has not counted
-- their end, but for one that is about to be counted as started. Until the queue is destroyed, after
-- fewer than 2^64 calls, and provided that no connection was counted as finished before it was
-- counted as started.
pub reachable-Active :
    (c : Config) (q : Queue) (worker_count : ℕ) (s : Server) {fresh : Stats}
    → IsValid q
    → contents q ≡ []
    → Reach c q worker_count s
    → s.acceptor ≢ ended
    → server_stats_init true ≡ some fresh
    → length s.events < 2 ^ 64
    → Bracketed 0 s.events
    → let shown = server_stats_snapshot (run s.events fresh) in
      (shown.connections_accepted + arrivals s.acceptor ≡ length s.accepted)
      × (shown.active_connections + entries s.acceptor
          ≡ length (contents s.queue) + all_pending is_finished s.workers)
reachable-Active c q n s v empty r goes_on made few br =
    let o = reachable-Counted c q n s v empty r in
    let counts = server_stats_snapshot-Counts s.events made few br in
    (
      omega (arith, counts.accepted, o.all_accepted),
      omega (arith, counts.active, o.in_service (live s.acceptor goes_on)),
    )
