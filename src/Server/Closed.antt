-- ===== src/Server/Closed.antt =====
-- Every client descriptor of src/server.c and src/thread_pool.c is closed exactly once.
use cinder_http.Prelude.{
  ℕ, zero, suc, ◌≡◌, ◌≢◌, refl, sym, ap, subst, [], ◌∷◌, ℤ, inl, arith, all, count_where, replicate,
}
use cinder_http.Queue.{Queue, Status, ok, shutdown, error, returns}
use cinder_http.Queue.Invariant.{contents, IsValid}
use cinder_http.Config.{Config}
use cinder_http.Server.{
  testing, in_accept, owns, refused, leaving, popping, serving, hung_up, exited, Server,
}
use cinder_http.Server.Steps.{
  Step, signals, stays_in_loop, leaves_loop, accept_fails, accepts, counts_accepted, pushes,
  is_refused, push_fails, gives_up, counts_started, shuts_down, cleans_up, pops, stops, pop_fails,
  reports, closes, finishes, started, Reach, start, then_step,
}
use cinder_http.Server.Sharing.{Pushed, push_pass-Pushed, Taken, pop_pass-Taken}
use cinder_http.Server.Owned.{held_by, all_served, not_negative_fd, Owned}
use cinder_http.Server.Kept.{
  moves, works, accepts-Owned, pushes-Owned, gives_up-Owned, shuts_down-Owned, cleans_up-Owned,
  pops-Owned, closes-Owned,
}

-- A refusal leaves the queue as it is.
pub refused-same :
    (q q' : Queue) (fd : ℤ) (status : Status)
    → status ≢ ok
    → Pushed q fd (returns status q')
    → q' ≡ q
refused-same q q' fd ok ne p = absurd (ne refl)
refused-same q q' fd shutdown ne p = p
refused-same q q' fd error ne p = p

same_queue : (s : Server) (q : Queue) → q ≡ s.queue → Owned s → Owned (record s { queue = q })
same_queue s q e o = subst (λ k. Owned (record s { queue = k })) (sym e) o

Step-Owned : {c : Config} {s t : Server} → Step c s t → Owned s → Owned t
Step-Owned {s = s} (signals e) o = subst Owned (sym e) (record {
  balance = o.balance;
  usable = o.usable;
  queue_real = o.queue_real;
  held_real = o.held_real;
})
Step-Owned {s = s} (stays_in_loop h r e) o =
    subst Owned (sym e) (moves s in_accept o (ap held_by h))
Step-Owned {s = s} (leaves_loop h r e) o = subst Owned (sym e) (moves s leaving o (ap held_by h))
Step-Owned {s = s} (accept_fails h e) o = subst Owned (sym e) (moves s testing o (ap held_by h))
Step-Owned {s = s} (accepts fd h e) o = subst Owned (sym e) (accepts-Owned s fd o h)
Step-Owned {s = s} (counts_accepted fd h e) o =
    let m = moves s (owns fd) o (ap held_by h) in
    subst Owned (sym e) (record {
      balance = m.balance;
      usable = m.usable;
      queue_real = m.queue_real;
      held_real = m.held_real;
    })
Step-Owned {s = s} (pushes fd clock_ok q h r e) o =
    subst Owned (sym e) (
      pushes-Owned s fd q o h
        (subst (Pushed s.queue fd) r (push_pass-Pushed s.queue fd _ o.usable)))
Step-Owned {s = s} (is_refused fd clock_ok status q h ne r e) o = subst Owned (sym e) (
    moves (record s { queue = q }) (refused fd status)
      (same_queue s q
        (refused-same s.queue q fd status ne
          (subst (Pushed s.queue fd) r (push_pass-Pushed s.queue fd _ o.usable)))
        o)
      (ap held_by h))
Step-Owned {s = s} (push_fails fd h e) o =
    subst Owned (sym e) (moves s (refused fd error) o (ap held_by h))
Step-Owned {s = s} (gives_up fd status h e) o = subst Owned (sym e) (gives_up-Owned s fd status o h)
Step-Owned {s = s} (counts_started h e) o =
    let m = moves s testing o (ap held_by h) in
    subst Owned (sym e) (record {
      balance = m.balance;
      usable = m.usable;
      queue_real = m.queue_real;
      held_real = m.held_real;
    })
Step-Owned {s = s} (shuts_down h e) o = subst Owned (sym e) (shuts_down-Owned s o h)
Step-Owned {s = s} (cleans_up h x e) o = subst Owned (sym e) (cleans_up-Owned s o h)
Step-Owned {s = s} (pops before after fd q vs session h r handled e) o = subst Owned (sym e) (
    pops-Owned s before after fd q session.events o h
      (subst (Taken s.queue) r (pop_pass-Taken s.queue o.usable)))
Step-Owned {s = s} (stops before after q h r e) o = subst Owned (sym e) (
    works (record s { queue = q }) before after popping exited
      (same_queue s q (subst (Taken s.queue) r (pop_pass-Taken s.queue o.usable)) o) h refl)
Step-Owned {s = s} (pop_fails before after h e) o =
    subst Owned (sym e) (works s before after popping exited o h refl)
Step-Owned {s = s} (reports before after fd x next later h e) o =
    let m =
      works s before after (serving fd (x ∷ next ∷ later)) (serving fd (next ∷ later)) o h refl in
    subst Owned (sym e) (record {
      balance = m.balance;
      usable = m.usable;
      queue_real = m.queue_real;
      held_real = m.held_real;
    })
Step-Owned {s = s} (closes before after fd last h e) o =
    subst Owned (sym e) (closes-Owned s before after fd last o h)
Step-Owned {s = s} (finishes before after last h e) o =
    let m = works s before after (hung_up last) popping o h refl in
    subst Owned (sym e) (record {
      balance = m.balance;
      usable = m.usable;
      queue_real = m.queue_real;
      held_real = m.held_real;
    })

none_served : (n : ℕ) → all_served (replicate n popping) ≡ []
none_served zero = refl
none_served (suc n) = none_served n

started-Owned : (q : Queue) (n : ℕ) → IsValid q → contents q ≡ [] → Owned (started q n)
started-Owned q n v empty = record {
  balance = λ p. omega (arith, ap (count_where p) empty, ap (count_where p) (none_served n));
  usable = inl v;
  queue_real = ap (all not_negative_fd) empty;
  held_real = refl;
}

-- However the accept thread, the workers and the signal interleave, and whatever fails, at every
-- moment each client descriptor that `accept` has given has exactly one owner or has been closed
-- exactly once: as many descriptors of any kind have been accepted as are closed, wait in the queue,
-- or are in the hands of the accept thread or of a worker. The queue is empty and valid at the start.
pub reachable-Owned :
    (c : Config) (q : Queue) (worker_count : ℕ) (s : Server)
    → IsValid q
    → contents q ≡ []
    → Reach c q worker_count s
    → Owned s
reachable-Owned c q n s v empty start = started-Owned q n v empty
reachable-Owned c q n s v empty (then_step before st) =
    Step-Owned st (reachable-Owned c q n _ v empty before)
