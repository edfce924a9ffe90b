-- ===== src/Server/Sharing.antt =====
-- What the critical sections of src/connection_queue.c do with the descriptors in the queue, up to
-- and after its destruction.
use cinder_http.Prelude.{
  ◌<◌, ◌≡◌, refl, sym, ap, ◌∙◌, Bool, true, false, not, ◌&&◌, ◌==◌, leb, if◌then◌else◌, List, [],
  ◌∷◌, ◌++◌, none, some, ℤ, pos, negsuc, is_negative, ◌⊎◌, inl, inr, arith, all, get_or,
}
use cinder_http.Queue.{
  Queue, Status, ok, shutdown, error, Readings, Pass, returns, sleeps, Popped, push_pass, pop_pass,
  enqueue, dequeue, connection_queue_shutdown, connection_queue_destroy, close_from,
}
use cinder_http.Queue.Invariant.{contents, IsValid, enqueue-IsValid, dequeue-IsValid}
use cinder_http.Queue.Refine.{contents-enqueue, contents-dequeue, contents-empty}
use cinder_http.Queue.Drain.{not_negative, destroy_closes_contents}

-- What `connection_queue_destroy` leaves.
pub record Destroyed (q : Queue) : Type 0 where
  pub no_capacity : q.capacity ≡ 0
  pub no_items : q.count ≡ 0
  pub running : q.shutting_down ≡ false
  pub dismantled : q.mutex_initialized ≡ false

abbrev pub Usable : Queue → Type 0
Usable q = IsValid q ⊎ Destroyed q

abbrev pub Pushed : Queue → ℤ → Pass Status → Type 0
Pushed q fd (returns ok q') = Usable q' × (contents q' ≡ contents q ++ fd ∷ [])
Pushed q fd (returns status q') = q' ≡ q
Pushed q fd sleeps = Unit {0}

pub push_pass-Pushed :
    (q : Queue) (fd : ℤ) (r : Readings) → Usable q → Pushed q fd (push_pass q fd r)
unfolding push_pass
push_pass-Pushed q fd r u = go (leb q.capacity q.count) q.shutting_down r.aborted r.clock_ok refl
  where
    enqueued :
        Usable q
        → leb q.capacity q.count ≡ false
        → Usable (enqueue q fd) × (contents (enqueue q fd) ≡ contents q ++ fd ∷ [])
    enqueued (inl v) e =
        let room : q.count < q.capacity = ground arith in
        (inl (enqueue-IsValid q fd v room), contents-enqueue q fd v room)
    enqueued (inr d) e = absurd (ground (arith, d.no_capacity))

    go :
        (full down aborted clock_ok : Bool)
        → leb q.capacity q.count ≡ full
        → Pushed q fd (
            if full && not down
            then (if aborted
                then returns shutdown q
                else if not clock_ok
                then returns error q
                else sleeps)
            else if down
            then returns shutdown q
            else returns ok (enqueue q fd))
    go true false true clock_ok e = refl
    go true false false false e = refl
    go true false false true e = tt
    go true true aborted clock_ok e = refl
    go false true aborted clock_ok e = refl
    go false false aborted clock_ok e = enqueued u e

abbrev pub Taken : Queue → Pass Popped → Type 0
Taken q (returns (ok, some fd) q') = Usable q' × (contents q ≡ fd ∷ contents q')
Taken q (returns (ok, none) q') = ⊥
Taken q (returns (shutdown, fd) q') = q' ≡ q
Taken q (returns (error, fd) q') = q' ≡ q
Taken q sleeps = Unit {0}

pub pop_pass-Taken : (q : Queue) → Usable q → Taken q (pop_pass q)
unfolding pop_pass
pop_pass-Taken q u = go (q.count == 0) q.shutting_down refl
  where
    dequeued :
        Usable q
        → q.count == 0 ≡ false
        → Usable (dequeue q) × (contents q ≡ get_or q.items q.head (pos 0) ∷ contents (dequeue q))
    dequeued (inl v) e =
        let some_left : 0 < q.count = ground arith in
        (inl (dequeue-IsValid q v some_left), contents-dequeue q v some_left)
    dequeued (inr d) e = absurd (ground (arith, d.no_items))

    go :
        (empty down : Bool)
        → q.count == 0 ≡ empty
        → Taken q (
            if empty && not down
            then sleeps
            else if empty && down
            then returns (shutdown, none) q
            else returns (ok, some (get_or q.items q.head (pos 0))) (dequeue q))
    go true false e = tt
    go true true e = refl
    go false down e = dequeued u e

pub shutdown-Usable :
    (q : Queue)
    → Usable q
    → Usable (connection_queue_shutdown q) × (contents (connection_queue_shutdown q) ≡ contents q)
unfolding connection_queue_shutdown
shutdown-Usable q u = go q.mutex_initialized refl u
  where
    go :
        (made : Bool)
        → q.mutex_initialized ≡ made
        → Usable q
        → let q' = if not made then q else record q { shutting_down = true } in
          Usable q' × (contents q' ≡ contents q)
    go false e v = (v, refl)
    go true e (inl v) = (
      inl (record {
        storage = v.storage;
        some_room = v.some_room;
        addressable = v.addressable;
        head_in = v.head_in;
        tail_in = v.tail_in;
        count_in = v.count_in;
        tail_is = v.tail_is;
        ready = v.ready;
      }),
      refl,
    )
    go true e (inr d) = absurd (let both : true ≡ false = sym e ∙ d.dismantled in cc)

not_negative-all :
    (fds : List ℤ) → all (λ fd. not (is_negative fd)) fds ≡ true → not_negative fds ≡ fds
not_negative-all [] a = refl
not_negative-all (pos n ∷ fds) a = ap (◌∷◌ (pos n)) (not_negative-all fds a)
not_negative-all (negsuc n ∷ fds) a = absurd (cc)

dismantles : (q : Queue) → Destroyed (connection_queue_destroy q).1
unfolding connection_queue_destroy
dismantles q = record { no_capacity = refl; no_items = refl; running = refl; dismantled = refl }

none_closed : (q : Queue) → q.count ≡ 0 → (connection_queue_destroy q).0 ≡ contents q
unfolding connection_queue_destroy close_from
none_closed q e =
    ap (λ n. (close_from 0 n q.capacity q.head q.items).0) e ∙ sym (contents-empty q e)

-- The descriptors that are left are closed, and nothing is left.
pub destroy-Usable :
    (q : Queue)
    → Usable q
    → all (λ fd. not (is_negative fd)) (contents q) ≡ true
    → let (closed, left) = connection_queue_destroy q in
      (closed ≡ contents q) × (contents left ≡ []) × Usable left
destroy-Usable q u a = go u
  where
    left-Destroyed : Destroyed (connection_queue_destroy q).1
    left-Destroyed = dismantles q

    go :
        Usable q
        → let (closed, left) = connection_queue_destroy q in
          (closed ≡ contents q) × (contents left ≡ []) × Usable left
    go (inl v) =
        let (closes, items, count, ready) = destroy_closes_contents q v in
        (
          closes ∙ not_negative-all (contents q) a,
          contents-empty (connection_queue_destroy q).1 left-Destroyed.no_items,
          inr left-Destroyed,
        )
    go (inr d) = (
      none_closed q d.no_items,
      contents-empty (connection_queue_destroy q).1 left-Destroyed.no_items,
      inr left-Destroyed,
    )
