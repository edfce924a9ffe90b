-- ===== src/Server/Owned.antt =====
-- Who owns the client descriptors of src/server.c and src/thread_pool.c.
use cinder_http.Prelude.{
  ◌+◌, ◌≡◌, ap, Bool, true, not, List, [], ◌∷◌, ◌++◌, ℤ, is_negative, arith, all, count_where,
  count_where-append,
}
use cinder_http.Queue.Invariant.{contents}
use cinder_http.Server.{Acceptor, arrived, owns, refused, Worker, serving, Server}
use cinder_http.Server.Sharing.{Usable}

-- The descriptors that a thread owns.
abbrev pub held_by : Acceptor → List ℤ
held_by (arrived fd) = fd ∷ []
held_by (owns fd) = fd ∷ []
held_by (refused fd status) = fd ∷ []
held_by _ = []

abbrev pub served_by : Worker → List ℤ
served_by (serving fd later) = fd ∷ []
served_by _ = []

abbrev pub all_served : List Worker → List ℤ
all_served [] = []
all_served (w ∷ ws) = served_by w ++ all_served ws

abbrev pub not_negative_fd : ℤ → Bool
not_negative_fd fd = not (is_negative fd)

-- For every property of descriptors, as many have been accepted as have been closed, wait in the
-- queue, and are owned by the accept thread and by the workers.
pub record Owned (s : Server) : Type 0 where
  pub balance :
      (p : ℤ → Bool)
      → count_where p s.accepted
        ≡ count_where p s.closed
          + count_where p (contents s.queue)
          + count_where p (held_by s.acceptor)
          + count_where p (all_served s.workers)
  pub usable : Usable s.queue
  pub queue_real : all not_negative_fd (contents s.queue) ≡ true
  pub held_real : all not_negative_fd (held_by s.acceptor) ≡ true

all_served-append :
    (p : ℤ → Bool) (before after : List Worker)
    → count_where p (all_served (before ++ after))
      ≡ count_where p (all_served before) + count_where p (all_served after)
all_served-append p [] after = omega arith
all_served-append p (w ∷ before) after = omega (
  arith,
  count_where-append p (served_by w) (all_served (before ++ after)),
  count_where-append p (served_by w) (all_served before),
  all_served-append p before after,
)

-- What the workers own, with one of them taken out.
pub all_served-split :
    (p : ℤ → Bool) (before after : List Worker) (w : Worker)
    → count_where p (all_served (before ++ w ∷ after))
      ≡ count_where p (all_served before)
        + count_where p (served_by w)
        + count_where p (all_served after)
all_served-split p before after w = omega (
  arith,
  all_served-append p before (w ∷ after),
  count_where-append p (served_by w) (all_served after),
)

-- A worker that owns the same before and after.
pub swap_worker :
    (p : ℤ → Bool) (before after : List Worker) (w w' : Worker) (ws : List Worker)
    → ws ≡ before ++ w ∷ after
    → served_by w ≡ served_by w'
    → count_where p (all_served (before ++ w' ∷ after)) ≡ count_where p (all_served ws)
swap_worker p before after w w' ws e same = omega (
  arith,
  all_served-split p before after w',
  all_served-split p before after w,
  ap (λ v. count_where p (all_served v)) e,
  ap (count_where p) same,
)
