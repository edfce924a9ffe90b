-- ===== src/Server/Finished.antt =====
-- What src/server.c leaves when it has cleaned up.
use cinder_http.Prelude.{
  ℕ, ◌≡◌, refl, sym, ap, ◌∙◌, subst, Bool, true, false, ◌&&◌, ◌||◌, List, [], ◌∷◌, ◌++◌,
  if◌then◌else◌, ℤ, arith, all, count_where,
}
use cinder_http.Queue.{Queue, Status}
use cinder_http.Queue.Invariant.{contents, IsValid}
use cinder_http.Config.{Config}
use cinder_http.Server.{testing, leaving, ended, Worker, popping, serving, hung_up, exited, Server}
use cinder_http.Server.Steps.{
  is_exited, is_shutdown, behind_refusal, Step, signals, stays_in_loop, leaves_loop, accept_fails,
  accepts, counts_accepted, pushes, is_refused, push_fails, gives_up, counts_started, shuts_down,
  cleans_up, pops, stops, pop_fails, reports, closes, finishes, Reach, start, then_step,
}
use cinder_http.Server.Sharing.{destroy-Usable}
use cinder_http.Server.Owned.{held_by, all_served, Owned}
use cinder_http.Server.Closed.{reachable-Owned}

-- With the accept thread at its end, the workers are at theirs, and the queue is empty.
record Left (s : Server) : Type 0 where
  all_exited : all is_exited s.workers ≡ true
  none_waiting : contents s.queue ≡ []

abbrev AtEnd : Server → Type 0
AtEnd s = s.acceptor ≡ ended → Left s

-- A worker among those that have exited has exited.
exited_middle :
    (before after : List Worker) (w : Worker)
    → all is_exited (before ++ w ∷ after) ≡ true
    → is_exited w ≡ true
exited_middle [] after w a = go (is_exited w) refl a
  where
    go : (b : Bool) → is_exited w ≡ b → (b && all is_exited after) ≡ true → is_exited w ≡ true
    go true e h = e
    go false e h = absurd (cc)
exited_middle (x ∷ before) after w a = exited_middle before after w (go (is_exited x) a)
  where
    go :
        (b : Bool)
        → (b && all is_exited (before ++ w ∷ after)) ≡ true
        → all is_exited (before ++ w ∷ after) ≡ true
    go true h = h
    go false h = absurd (cc)

no_worker :
    (s : Server) (before after : List Worker) (w : Worker)
    → AtEnd s
    → s.workers ≡ before ++ w ∷ after
    → is_exited w ≡ false
    → s.acceptor ≡ ended
    → ⊥
no_worker s before after w at_end e busy h =
    let all_exited : all is_exited (before ++ w ∷ after) ≡ true =
      subst (λ ws. all is_exited ws ≡ true) e (at_end h).all_exited in
    let done = exited_middle before after w all_exited in
    let both : true ≡ false = sym done ∙ busy in cc

behind_refusal-goes_on : (status : Status) (r : Bool) → behind_refusal status r ≡ ended → ⊥
behind_refusal-goes_on status r = go (is_shutdown status || r)
  where
    go : (b : Bool) → (if b then leaving else testing) ≡ ended → ⊥
    go true e = cc
    go false e = cc

Step-AtEnd : {c : Config} {s t : Server} → Step c s t → Owned s → AtEnd s → AtEnd t
Step-AtEnd {s = s} (signals e) o a =
    subst AtEnd (sym e)
      (λ h. record { all_exited = (a h).all_exited; none_waiting = (a h).none_waiting })
Step-AtEnd {s = s} (stays_in_loop h r e) o a = subst AtEnd (sym e) (λ k. absurd (cc))
Step-AtEnd {s = s} (leaves_loop h r e) o a = subst AtEnd (sym e) (λ k. absurd (cc))
Step-AtEnd {s = s} (accept_fails h e) o a = subst AtEnd (sym e) (λ k. absurd (cc))
Step-AtEnd {s = s} (accepts fd h e) o a = subst AtEnd (sym e) (λ k. absurd (cc))
Step-AtEnd {s = s} (counts_accepted fd h e) o a = subst AtEnd (sym e) (λ k. absurd (cc))
Step-AtEnd {s = s} (pushes fd clock_ok q h r e) o a = subst AtEnd (sym e) (λ k. absurd (cc))
Step-AtEnd {s = s} (is_refused fd clock_ok status q h ne r e) o a =
    subst AtEnd (sym e) (λ k. absurd (cc))
Step-AtEnd {s = s} (push_fails fd h e) o a = subst AtEnd (sym e) (λ k. absurd (cc))
Step-AtEnd {s = s} (gives_up fd status h e) o a =
    subst AtEnd (sym e) (λ k. absurd (behind_refusal-goes_on status s.requested k))
Step-AtEnd {s = s} (counts_started h e) o a = subst AtEnd (sym e) (λ k. absurd (cc))
Step-AtEnd {s = s} (shuts_down h e) o a = subst AtEnd (sym e) (λ k. absurd (cc))
Step-AtEnd {s = s} (cleans_up h x e) o a =
    let (closes_all, none_left, usable) = destroy-Usable s.queue o.usable o.queue_real in
    subst AtEnd (sym e) (λ k. record { all_exited = x; none_waiting = none_left })
Step-AtEnd {s = s} (pops before after fd q vs session h r handled e) o a =
    subst AtEnd (sym e) (λ k. absurd (no_worker s before after popping a h refl k))
Step-AtEnd {s = s} (stops before after q h r e) o a =
    subst AtEnd (sym e) (λ k. absurd (no_worker s before after popping a h refl k))
Step-AtEnd {s = s} (pop_fails before after h e) o a =
    subst AtEnd (sym e) (λ k. absurd (no_worker s before after popping a h refl k))
Step-AtEnd {s = s} (reports before after fd x next later h e) o a =
    subst AtEnd (sym e)
      (λ k. absurd (no_worker s before after (serving fd (x ∷ next ∷ later)) a h refl k))
Step-AtEnd {s = s} (closes before after fd last h e) o a =
    subst AtEnd (sym e) (λ k. absurd (no_worker s before after (serving fd (last ∷ [])) a h refl k))
Step-AtEnd {s = s} (finishes before after last h e) o a =
    subst AtEnd (sym e) (λ k. absurd (no_worker s before after (hung_up last) a h refl k))

reachable-AtEnd :
    (c : Config) (q : Queue) (worker_count : ℕ) (s : Server)
    → IsValid q
    → contents q ≡ []
    → Reach c q worker_count s
    → AtEnd s
reachable-AtEnd c q n s v empty start = λ k. absurd (cc)
reachable-AtEnd c q n s v empty (then_step before st) =
    Step-AtEnd st (reachable-Owned c q n _ v empty before) (reachable-AtEnd c q n _ v empty before)

exited-serve_none : (ws : List Worker) → all is_exited ws ≡ true → all_served ws ≡ []
exited-serve_none [] a = refl
exited-serve_none (exited ∷ ws) a = exited-serve_none ws a
exited-serve_none (popping ∷ ws) a = absurd (cc)
exited-serve_none (serving fd es ∷ ws) a = absurd (cc)
exited-serve_none (hung_up last ∷ ws) a = absurd (cc)

-- When the server has cleaned up after itself, in whatever way the threads interleaved and failed,
-- every client descriptor that `accept` gave has been closed exactly once, and no other was closed:
-- for every property of descriptors, as many were closed as were accepted.
pub finished-closed :
    (c : Config) (q : Queue) (worker_count : ℕ) (s : Server) (p : ℤ → Bool)
    → IsValid q
    → contents q ≡ []
    → Reach c q worker_count s
    → s.acceptor ≡ ended
    → count_where p s.closed ≡ count_where p s.accepted
finished-closed c q n s p v empty r h =
    let o = reachable-Owned c q n s v empty r in
    let left = reachable-AtEnd c q n s v empty r h in
    omega (
      arith,
      o.balance p,
      ap (count_where p) left.none_waiting,
      ap (λ a. count_where p (held_by a)) h,
      ap (count_where p) (exited-serve_none s.workers left.all_exited),
    )
