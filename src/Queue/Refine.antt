-- ===== src/Queue/Refine.antt =====
-- The ring buffer of src/connection_queue.c behaves as the bounded FIFO of its contents, for every
-- order in which the threads' critical sections run.
use cinder_http.Prelude.{
  ℕ, zero, suc, ◌+◌, ◌-◌, ◌%◌, ◌^◌, ◌≤◌, ◌<◌, ◌≡◌, refl, ap, sym, List, [], ◌∷◌, ◌++◌, some, arith,
  ℤ, pos, get_or, set, length, ◌∙◌, get_or-set_self, get_or-set_ne, ap₂, append_assoc, append-nil,
  subst,
}
use native.Mathlib.Nat.{mod-eq_of_lt}
use cinder_http.Queue.{
  Queue, Pass, returns, sleeps, Status, ok, Popped, size_add, push_pass, pop_pass, enqueue, dequeue,
  connection_queue_shutdown,
}
use cinder_http.Queue.Invariant.{
  slots, contents, IsValid, next, next-add, slot-ne, enqueue-IsValid, dequeue-IsValid,
}
use cinder_http.Queue.Fifo
use cinder_http.Queue.Fifo.{Fifo, Op, push, pop, close, Reply, pushed, popped, blocked, closing}

pub length-slots : (items : List ℤ) (n h i k : ℕ) → length (slots items n h i k) ≡ k
length-slots items n h i zero = refl
length-slots items n h i (suc k) = ap suc (length-slots items n h (i + 1) k)

slots-concat :
    (items : List ℤ) (n h i k : ℕ)
    → slots items n h i (suc k)
      ≡ slots items n h i k ++ get_or items ((h + (i + k)) % n) (pos 0) ∷ []
slots-concat items n h i zero = ap (λ j. get_or items ((h + j) % n) (pos 0) ∷ []) (omega arith)
slots-concat items n h i (suc k) = ap (◌∷◌ (get_or items ((h + i) % n) (pos 0))) (
    slots-concat items n h (i + 1) k
    ∙ ap (λ j. slots items n h (i + 1) k ++ get_or items ((h + j) % n) (pos 0) ∷ []) (omega arith))

slots-set :
    (items : List ℤ) (n h i k c : ℕ) (v : ℤ)
    → h < n
    → i + k ≤ c
    → c < n
    → slots (set items ((h + c) % n) v) n h i k ≡ slots items n h i k
slots-set items n h i zero c v hh le hc = refl
slots-set items n h i (suc k) c v hh le hc =
    ap₂ ◌∷◌ (get_or-set_ne items v (pos 0) (λ e. slot-ne n h i c hh (omega arith) hc (sym e)))
      (slots-set items n h (i + 1) k c v hh (omega arith) hc)

slots-next :
    (items : List ℤ) (n h i k : ℕ)
    → h < n
    → i + k ≤ n
    → n ≤ 2 ^ 62
    → slots items n (next n h) i k ≡ slots items n h (i + 1) k
slots-next items n h i zero hh le small = refl
slots-next items n h i (suc k) hh le small =
    ap₂ ◌∷◌ (ap (λ j. get_or items j (pos 0)) (next-add n h i hh (omega arith) small))
      (slots-next items n h (i + 1) k hh (omega arith) small)

pub contents-enqueue :
    (q : Queue) (fd : ℤ)
    → IsValid q
    → q.count < q.capacity
    → contents (enqueue q fd) ≡ contents q ++ fd ∷ []
contents-enqueue q fd v lt =
    let plain : size_add q.count 1 ≡ suc q.count = omega (arith, v.addressable) in
    let place : (q.head + (0 + q.count)) % q.capacity ≡ q.tail =
      ap (λ k. (q.head + k) % q.capacity) (omega arith) ∙ sym v.tail_is in
    ap (slots (set q.items q.tail fd) q.capacity q.head 0) plain
    ∙ slots-concat (set q.items q.tail fd) q.capacity q.head 0 q.count
    ∙ ap₂ (λ xs x. xs ++ x ∷ [])
        (ap (λ t. slots (set q.items t fd) q.capacity q.head 0 q.count) v.tail_is
          ∙ slots-set q.items q.capacity q.head 0 q.count q.count fd v.head_in (omega arith) lt)
        (ap (λ t. get_or (set q.items q.tail fd) t (pos 0)) place
          ∙ get_or-set_self q.items q.tail fd (pos 0) (omega arith))

pub contents-dequeue :
    (q : Queue)
    → IsValid q
    → 0 < q.count
    → contents q ≡ get_or q.items q.head (pos 0) ∷ contents (dequeue q)
contents-dequeue q v lt =
    let one_more : q.count ≡ suc (q.count - 1) = omega arith in
    let at_head : (q.head + 0) % q.capacity ≡ q.head =
      ap (λ k. k % q.capacity) (omega arith) ∙ mod-eq_of_lt v.head_in in
    ap (slots q.items q.capacity q.head 0) one_more
    ∙ ap₂ ◌∷◌ (ap (λ j. get_or q.items j (pos 0)) at_head) (
        sym (
          slots-next q.items q.capacity q.head 0 (q.count - 1) v.head_in (omega arith)
            v.addressable))

abbrev pub view : Queue → Fifo
view q = record { waiting = contents q; closed = q.shutting_down }

abbrev reply_push : Queue → Pass Status → Reply × Queue
reply_push q (returns s q') = (pushed s, q')
reply_push q sleeps = (blocked, q)

abbrev reply_pop : Queue → Pass Popped → Reply × Queue
reply_pop q (returns (s, fd) q') = (popped s fd, q')
reply_pop q sleeps = (blocked, q)

-- A thread's turn with the mutex.
unfoldable pub turn : Queue → Op → Reply × Queue
turn q (push fd r) = reply_push q (push_pass q fd r)
turn q pop = reply_pop q (pop_pass q)
turn q close = (closing, connection_queue_shutdown q)

unfoldable pub turns : Queue → List Op → List Reply × Queue
turns q [] = ([], q)
turns q (op ∷ ops) =
    let (reply, q') = turn q op in let (replies, last) = turns q' ops in (reply ∷ replies, last)

-- Every critical section, of push, pop and shutdown, leaves a valid queue valid.
pub turn-IsValid : (q : Queue) (op : Op) → IsValid q → IsValid (turn q op).1
unfolding turn push_pass pop_pass connection_queue_shutdown
turn-IsValid q (push fd r) v = ground (arith, enqueue-IsValid q fd v)
turn-IsValid q pop v = ground (arith, dequeue-IsValid q v)
turn-IsValid q close v = ground arith

pub contents-empty : (q : Queue) → q.count ≡ 0 → contents q ≡ []
contents-empty q e = ap (slots q.items q.capacity q.head 0) e

pub capacity-turn : (q : Queue) (op : Op) → (turn q op).1.capacity ≡ q.capacity
unfolding turn push_pass pop_pass connection_queue_shutdown
capacity-turn q (push fd r) = ground arith
capacity-turn q pop = ground arith
capacity-turn q close = ground arith

pub turn_refines :
    (q : Queue) (op : Op)
    → IsValid q
    → let (reply, q') = turn q op in (reply, view q') ≡ Fifo.step q.capacity (view q) op
unfolding turn push_pass pop_pass connection_queue_shutdown Fifo.step
turn_refines q (push fd r) v =
    ground (arith, contents-enqueue q fd v, length-slots q.items q.capacity q.head 0 q.count)
turn_refines q pop v = ground (arith, contents-dequeue q v, contents-empty q)
turn_refines q close v = ground arith

-- Whatever order the threads' turns take, a valid queue answers each as the bounded FIFO of its
-- contents does, and is left with that FIFO's descriptors.
pub turns_refines :
    (ops : List Op) (q : Queue)
    → IsValid q
    → let (replies, last) = turns q ops in (replies, view last) ≡ Fifo.run q.capacity (view q) ops
unfolding turns Fifo.run
turns_refines [] q v = refl
turns_refines (op ∷ ops) q v =
    let (reply, q') = turn q op in
    let (replies, last) = turns q' ops in
    let after : (replies, view last) ≡ Fifo.run q.capacity (view q') ops =
      subst (λ c. (replies, view last) ≡ Fifo.run c (view q') ops) (capacity-turn q op)
        (turns_refines ops q' (turn-IsValid q op v)) in
    ap (λ p. (reply ∷ p.0, p.1)) after
    ∙ ap (λ s. let (rs, f) = Fifo.run q.capacity s.1 ops in (s.0 ∷ rs, f)) (turn_refines q op v)

-- The descriptor that a turn takes into the queue, and the one that it hands out.
abbrev pub taken : Op → Reply → List ℤ
taken (push fd r) (pushed ok) = fd ∷ []
taken _ _ = []

abbrev pub given : Reply → List ℤ
given (popped ok (some fd)) = fd ∷ []
given _ = []

abbrev pub all_taken : List Op → List Reply → List ℤ
all_taken (op ∷ ops) (reply ∷ replies) = taken op reply ++ all_taken ops replies
all_taken _ _ = []

abbrev pub all_given : List Reply → List ℤ
all_given [] = []
all_given (reply ∷ replies) = given reply ++ all_given replies

turn_balance :
    (q : Queue) (op : Op)
    → IsValid q
    → let (reply, q') = turn q op in contents q ++ taken op reply ≡ given reply ++ contents q'
unfolding turn push_pass pop_pass connection_queue_shutdown
turn_balance q (push fd r) v = ground (arith, contents-enqueue q fd v, append-nil (contents q))
turn_balance q pop v =
    ground (arith, contents-dequeue q v, append-nil (contents q), append-nil (contents (dequeue q)))
turn_balance q close v = ground (arith, append-nil (contents q))

-- Each descriptor accepted by a push leaves by exactly one pop, in the order of arrival, or is
-- still in the queue; no other descriptor leaves.
pub turns_balance :
    (ops : List Op) (q : Queue)
    → IsValid q
    → let (replies, last) = turns q ops in
      contents q ++ all_taken ops replies ≡ all_given replies ++ contents last
unfolding turns
turns_balance [] q v = append-nil (contents q)
turns_balance (op ∷ ops) q v =
    let (reply, q') = turn q op in
    let (replies, last) = turns q' ops in
    sym (append_assoc (contents q) (taken op reply) (all_taken ops replies))
    ∙ ap (λ t. t ++ all_taken ops replies) (turn_balance q op v)
    ∙ append_assoc (given reply) (contents q') (all_taken ops replies)
    ∙ ap (λ t. given reply ++ t) (turns_balance ops q' (turn-IsValid q op v))
    ∙ sym (append_assoc (given reply) (all_given replies) (contents last))
