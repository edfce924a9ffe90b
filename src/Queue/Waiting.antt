-- ===== src/Queue/Waiting.antt =====
-- The waits of `connection_queue_push`: what other threads do while it sleeps is in the queue that
-- it wakes to.
use cinder_http.Prelude.{
  ◌≤◌, ◌<◌, ◌≡◌, ◌≢◌, refl, sym, ap, ap₂, ◌∙◌, true, false, List, [], ◌∷◌, ◌++◌, Option, none, some,
  arith, ℤ, ◌⊎◌, inl, inr, ◌↔◌,
}
use cinder_http.Queue.{
  Queue, Readings, Pass, returns, sleeps, Status, ok, shutdown, error, push_pass, enqueue, Wake,
  WaitAnswer, woken, timed_out, failed, or_else, after_sleep, push_loop,
}
use cinder_http.Queue.Invariant.{IsValid, contents}
use cinder_http.Queue.Refine.{contents-enqueue}

-- A push sleeps exactly on a full queue that is open, with no abort and a clock that answers.
pub push_sleeps_iff :
    (q : Queue) (fd : ℤ) (r : Readings)
    → (push_pass q fd r ≡ sleeps)
      ↔ (q.capacity ≤ q.count)
        × (q.shutting_down ≡ false)
        × (r.aborted ≡ false)
        × (r.clock_ok ≡ true)
unfolding push_pass
push_sleeps_iff q fd r = (λ h. ground arith, λ h. ground arith)

some_pair :
    {t s : Status} {x q' : Queue}
    → ◌≡◌ {A = Option (Status × Queue)} (some (t, x)) (some (s, q'))
    → (t ≡ s) × (x ≡ q')
some_pair h = (cc, cc)

-- What a pass that does not sleep does: the descriptor goes behind those that wait in an open queue
-- with room, or the queue is left as it is, for it is shut down, or full and the server stops, or
-- full and the clock fails.
abbrev pub Direct : Queue → ℤ → Readings → Status → Queue → Type 0
Direct q fd r s q' =
    ((s ≡ ok)
      × (q.count < q.capacity)
      × (q.shutting_down ≡ false)
      × (contents q' ≡ contents q ++ fd ∷ []))
    ⊎ (s ≡ shutdown)
      × ((q.shutting_down ≡ true) ⊎ (q.capacity ≤ q.count) × (r.aborted ≡ true))
      × (q' ≡ q)
    ⊎ (s ≡ error) × (q.capacity ≤ q.count) × (r.clock_ok ≡ false) × (q' ≡ q)

abbrev pub IsFull : Queue → Readings → Type 0
IsFull q r =
    (q.capacity ≤ q.count) × (q.shutting_down ≡ false) × (r.aborted ≡ false) × (r.clock_ok ≡ true)

-- What a push comes to: it is done on the queue that it meets; or that one is full, and the push
-- sleeps until a wait that fails, behind which it leaves the queue as it is, or until a wake, behind
-- which it goes on with the queue that it then meets.
abbrev pub Pushed : Queue → ℤ → Readings → List Wake → Status → Queue → Type 0
Pushed q fd r [] s q' = Direct q fd r s q'
Pushed q fd r (w ∷ ws) s q' =
    Direct q fd r s q'
    ⊎ IsFull q r
      × ((w.answer ≡ failed) × (s ≡ error) × (q' ≡ w.queue)
          ⊎ (w.answer ≢ failed) × Pushed w.queue fd w.readings ws s q')

abbrev pub AreValid : List Wake → Type 0
AreValid [] = Unit
AreValid (w ∷ ws) = IsValid w.queue × AreValid ws

pass_effect :
    (q : Queue) (fd : ℤ) (r : Readings) {s : Status} {q' : Queue}
    → push_pass q fd r ≡ returns s q'
    → ((s ≡ ok) × (q.count < q.capacity) × (q.shutting_down ≡ false) × (q' ≡ enqueue q fd))
      ⊎ (s ≡ shutdown)
        × ((q.shutting_down ≡ true) ⊎ (q.capacity ≤ q.count) × (r.aborted ≡ true))
        × (q' ≡ q)
      ⊎ (s ≡ error) × (q.capacity ≤ q.count) × (r.clock_ok ≡ false) × (q' ≡ q)
unfolding push_pass
pass_effect q fd r h = ground arith

returns-Direct :
    (q : Queue) (fd : ℤ) (r : Readings) {s : Status} {q' : Queue}
    → IsValid q
    → push_pass q fd r ≡ returns s q'
    → Direct q fd r s q'
returns-Direct q fd r v h = elim (pass_effect q fd r h) [
  | inl (answer, room, running, e) ↦
      inl (answer, room, running, ap contents e ∙ contents-enqueue q fd v room)
  | inr other ↦ inr other
]

-- Whatever the other threads do during its sleeps, as long as the queues that they leave are valid: a
-- push sleeps only on a full open queue, and returns OK having put the descriptor once, behind all
-- that wait, into the one that it met last, which had room and was open. With SHUTDOWN or ERROR it
-- has left that queue as it was: shut down, or full when the server stops; full when the clock fails,
-- or behind a wait that failed.
pub push_loop-Pushed :
    (ws : List Wake) (q : Queue) (fd : ℤ) (r : Readings) {s : Status} {q' : Queue}
    → IsValid q
    → AreValid ws
    → push_loop q fd r ws ≡ some (s, q')
    → Pushed q fd r ws s q'
unfolding push_loop
push_loop-Pushed [] q fd r {s} {q'} v vs h = go (push_pass q fd r) refl h
  where
    go :
        (p : Pass Status)
        → push_pass q fd r ≡ p
        → or_else p none ≡ some (s, q')
        → Direct q fd r s q'
    go (returns t x) e k = returns-Direct q fd r v (e ∙ ap₂ returns (some_pair k).0 (some_pair k).1)
    go sleeps e k = cc
push_loop-Pushed (w ∷ ws) q fd r {s} {q'} v (v', vs) h =
    go (push_pass q fd r) refl w.answer refl
      (λ k. push_loop-Pushed ws w.queue fd w.readings v' vs k) h
  where
    go :
        (p : Pass Status)
        → push_pass q fd r ≡ p
        → (a : WaitAnswer) → w.answer ≡ a
        → (push_loop w.queue fd w.readings ws ≡ some (s, q') → Pushed w.queue fd w.readings ws s q')
        → or_else p (after_sleep a (some (error, w.queue)) (push_loop w.queue fd w.readings ws))
          ≡ some (s, q')
        → Pushed q fd r (w ∷ ws) s q'
    go (returns t x) e a wait later k =
        inl (returns-Direct q fd r v (e ∙ ap₂ returns (some_pair k).0 (some_pair k).1))
    go sleeps e failed wait later k =
        inr ((push_sleeps_iff q fd r).0 e, inl (wait, sym (some_pair k).0, sym (some_pair k).1))
    go sleeps e woken wait later k =
        inr ((push_sleeps_iff q fd r).0 e, inr (λ f. absurd (let x = sym wait ∙ f in cc), later k))
    go sleeps e timed_out wait later k =
        inr ((push_sleeps_iff q fd r).0 e, inr (λ f. absurd (let x = sym wait ∙ f in cc), later k))
