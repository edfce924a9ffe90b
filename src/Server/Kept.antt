-- ===== src/Server/Kept.antt =====
-- Every step of src/server.c and src/thread_pool.c keeps the account of the client descriptors.
use cinder_http.Prelude.{
  ℕ, ◌≡◌, refl, sym, ap, ap₂, ◌∙◌, subst, Bool, true, false, ◌&&◌, ◌||◌, List, [], ◌∷◌, ◌++◌,
  if◌then◌else◌, some, ℤ, pos, arith, all, all-append, count_where, count_where-append,
}
use cinder_http.Queue.{
  Queue, Status, ok, returns, connection_queue_shutdown, connection_queue_destroy,
}
use cinder_http.Queue.Invariant.{contents}
use cinder_http.Stats.{Event}
use cinder_http.Server.{
  Acceptor, testing, in_accept, arrived, owns, refused, entered, leaving, joining, ended, Worker,
  popping, serving, hung_up, Server,
}
use cinder_http.Server.Steps.{is_shutdown, behind_refusal}
use cinder_http.Server.Sharing.{Pushed, Taken, shutdown-Usable, destroy-Usable}
use cinder_http.Server.Owned.{
  held_by, served_by, all_served, not_negative_fd, Owned, all_served-split, swap_worker,
}

-- Where only the accept thread's place changes, between two at which it owns the same.
pub moves :
    (s : Server) (a : Acceptor)
    → Owned s
    → held_by s.acceptor ≡ held_by a
    → Owned (record s { acceptor = a })
moves s a o same = record {
  balance = λ p. omega (arith, o.balance p, ap (count_where p) same);
  usable = o.usable;
  queue_real = o.queue_real;
  held_real = subst (λ fds. all not_negative_fd fds ≡ true) same o.held_real;
}

-- Where a worker owns the same as before.
pub works :
    (s : Server) (before after : List Worker) (w w' : Worker)
    → Owned s
    → s.workers ≡ before ++ w ∷ after
    → served_by w ≡ served_by w'
    → Owned (record s { workers = before ++ w' ∷ after })
works s before after w w' o e same = record {
  balance = λ p. omega (arith, o.balance p, swap_worker p before after w w' s.workers e same);
  usable = o.usable;
  queue_real = o.queue_real;
  held_real = o.held_real;
}

pub accepts-Owned :
    (s : Server) (fd : ℕ)
    → Owned s
    → s.acceptor ≡ in_accept
    → Owned (record s { acceptor = arrived (pos fd); accepted = s.accepted ++ pos fd ∷ [] })
accepts-Owned s fd o h = record {
  balance = λ p. omega (
    arith,
    o.balance p,
    count_where-append p s.accepted (pos fd ∷ []),
    ap (λ a. count_where p (held_by a)) h,
  );
  usable = o.usable;
  queue_real = o.queue_real;
  held_real = refl;
}

pub pushes-Owned :
    (s : Server) (fd : ℤ) (q : Queue)
    → Owned s
    → s.acceptor ≡ owns fd
    → Pushed s.queue fd (returns ok q)
    → Owned (record s { acceptor = entered; queue = q })
pushes-Owned s fd q o h (usable, more) = record {
  balance = λ p. omega (
    arith,
    o.balance p,
    ap (λ a. count_where p (held_by a)) h,
    ap (count_where p) more,
    count_where-append p (contents s.queue) (fd ∷ []),
  );
  usable = usable;
  queue_real =
      ap (all not_negative_fd) more
      ∙ all-append not_negative_fd (contents s.queue) (fd ∷ [])
      ∙ ap₂ ◌&&◌ o.queue_real (subst (λ a. all not_negative_fd (held_by a) ≡ true) h o.held_real);
  held_real = refl;
}

pub gives_up-Owned :
    (s : Server) (fd : ℤ) (status : Status)
    → Owned s
    → s.acceptor ≡ refused fd status
    → Owned
        (record s { acceptor = behind_refusal status s.requested; closed = s.closed ++ fd ∷ [] })
gives_up-Owned s fd status o h = go (is_shutdown status || s.requested)
  where
    go :
        (b : Bool)
        → Owned
            (record s { acceptor = if b then leaving else testing; closed = s.closed ++ fd ∷ [] })
    go true = record {
      balance = λ p. omega (
        arith,
        o.balance p,
        ap (λ a. count_where p (held_by a)) h,
        count_where-append p s.closed (fd ∷ []),
      );
      usable = o.usable;
      queue_real = o.queue_real;
      held_real = refl;
    }
    go false = record {
      balance = λ p. omega (
        arith,
        o.balance p,
        ap (λ a. count_where p (held_by a)) h,
        count_where-append p s.closed (fd ∷ []),
      );
      usable = o.usable;
      queue_real = o.queue_real;
      held_real = refl;
    }

pub shuts_down-Owned :
    (s : Server)
    → Owned s
    → s.acceptor ≡ leaving
    → Owned (record s { acceptor = joining; queue = connection_queue_shutdown s.queue })
shuts_down-Owned s o h =
    let (usable, same) = shutdown-Usable s.queue o.usable in
    record {
      balance = λ p.
          omega
            (arith, o.balance p, ap (λ a. count_where p (held_by a)) h, ap (count_where p) same);
      usable = usable;
      queue_real = ap (all not_negative_fd) same ∙ o.queue_real;
      held_real = refl;
    }

pub cleans_up-Owned :
    (s : Server)
    → Owned s
    → s.acceptor ≡ joining
    → Owned (record s {
      acceptor = ended;
      queue = (connection_queue_destroy s.queue).1;
      closed = s.closed ++ (connection_queue_destroy s.queue).0;
    })
cleans_up-Owned s o h =
    let (closes_all, none_left, usable) = destroy-Usable s.queue o.usable o.queue_real in
    record {
      balance = λ p. omega (
        arith,
        o.balance p,
        ap (λ a. count_where p (held_by a)) h,
        count_where-append p s.closed (connection_queue_destroy s.queue).0,
        ap (count_where p) closes_all,
        ap (count_where p) none_left,
      );
      usable = usable;
      queue_real = ap (all not_negative_fd) none_left;
      held_real = refl;
    }

pub pops-Owned :
    (s : Server) (before after : List Worker) (fd : ℤ) (q : Queue) (es : List Event)
    → Owned s
    → s.workers ≡ before ++ popping ∷ after
    → Taken s.queue (returns (ok, some fd) q)
    → Owned (record s { workers = before ++ serving fd es ∷ after; queue = q })
pops-Owned s before after fd q es o e (usable, first) = record {
  balance = λ p. omega (
    arith,
    o.balance p,
    ap (count_where p) first,
    ap (λ ws. count_where p (all_served ws)) e,
    all_served-split p before after popping,
    all_served-split p before after (serving fd es),
  );
  usable = usable;
  queue_real = go (not_negative_fd fd) (sym (ap (all not_negative_fd) first) ∙ o.queue_real);
  held_real = o.held_real;
}
  where
    go :
        (b : Bool)
        → (b && all not_negative_fd (contents q)) ≡ true
        → all not_negative_fd (contents q) ≡ true
    go true h = h
    go false h = absurd (cc)

pub closes-Owned :
    (s : Server) (before after : List Worker) (fd : ℤ) (last : Event)
    → Owned s
    → s.workers ≡ before ++ serving fd (last ∷ []) ∷ after
    → Owned (record s { workers = before ++ hung_up last ∷ after; closed = s.closed ++ fd ∷ [] })
closes-Owned s before after fd last o e = record {
  balance = λ p. omega (
    arith,
    o.balance p,
    count_where-append p s.closed (fd ∷ []),
    ap (λ ws. count_where p (all_served ws)) e,
    all_served-split p before after (serving fd (last ∷ [])),
    all_served-split p before after (hung_up last),
  );
  usable = o.usable;
  queue_real = o.queue_real;
  held_real = o.held_real;
}
