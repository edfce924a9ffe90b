-- ===== src/Queue/Drain.antt =====
-- Shutting the queue down: workers drain it, and what is left at the end is closed.
use cinder_http.Prelude.{
  ℕ, zero, suc, ◌+◌, ◌%◌, ◌≤◌, ◌<◌, ◌≡◌, refl, ap, ap₂, sym, true, false, List, [], ◌∷◌,
  if◌then◌else◌, none, some, arith, ℤ, pos, negsuc, is_negative, get_or, set, ◌∙◌, get_or-set_ne,
  replicate, Bool-cases, inl, inr,
}
use native.Mathlib.Decide.{dec_lt}
use cinder_http.Queue.{Queue, ok, shutdown, pop_pass, dequeue, close_from, connection_queue_destroy}
use cinder_http.Queue.Invariant.{slots, contents, IsValid, slot-ne, dequeue-IsValid}
use cinder_http.Queue.Fifo.{Op, pop, Reply, popped}
use cinder_http.Queue.Refine.{turn, turns, contents-dequeue, contents-empty}

pop_last :
    (q : Queue) → q.shutting_down ≡ true → q.count ≡ 0 → turn q pop ≡ (popped shutdown none, q)
unfolding turn pop_pass
pop_last q e c = ground arith

pop_first :
    (q : Queue)
    → 0 < q.count
    → turn q pop ≡ (popped ok (some (get_or q.items q.head (pos 0))), dequeue q)
unfolding turn pop_pass
pop_first q h = ground arith

-- What `n` pops in a row answer, of a closed queue that holds `fds`.
abbrev pub drain_replies : List ℤ → ℕ → List Reply
drain_replies fds zero = []
drain_replies [] (suc n) = popped shutdown none ∷ drain_replies [] n
drain_replies (fd ∷ fds) (suc n) = popped ok (some fd) ∷ drain_replies fds n

turns-cons :
    (q : Queue) (op : Op) (ops : List Op) {r : Reply} {q' : Queue}
    → turn q op ≡ (r, q')
    → (turns q (op ∷ ops)).0 ≡ r ∷ (turns q' ops).0
unfolding turns
turns-cons q op ops e = ap (λ p. p.0 ∷ (turns p.1 ops).0) e

-- A valid queue that is shut down never puts a worker to sleep: pops hand out the descriptors that
-- are left, in order, and from then on every pop answers SHUTDOWN.
pub pops_after_shutdown :
    (n : ℕ) (q : Queue)
    → IsValid q
    → q.shutting_down ≡ true
    → (turns q (replicate n pop)).0 ≡ drain_replies (contents q) n
unfolding turns
pops_after_shutdown zero q v down = refl
pops_after_shutdown (suc n) q v down = elim (dec_lt 0 q.count) [
  | yes some_left ↦
      turns-cons q pop (replicate n pop) (pop_first q some_left)
      ∙ ap (◌∷◌ (popped ok (some (get_or q.items q.head (pos 0)))))
          (pops_after_shutdown n (dequeue q) (dequeue-IsValid q v some_left) down)
      ∙ ap (λ fds. drain_replies fds (suc n)) (sym (contents-dequeue q v some_left))
  | no none_left ↦
      let empty : q.count ≡ 0 = omega arith in
      turns-cons q pop (replicate n pop) (pop_last q down empty)
      ∙ ap (◌∷◌ (popped shutdown none)) (
          pops_after_shutdown n q v down ∙ ap (λ fds. drain_replies fds n) (contents-empty q empty))
      ∙ ap (λ fds. drain_replies fds (suc n)) (sym (contents-empty q empty))
]

abbrev pub not_negative : List ℤ → List ℤ
not_negative [] = []
not_negative (fd ∷ fds) = if is_negative fd then not_negative fds else fd ∷ not_negative fds

slots-set_before :
    (items : List ℤ) (n h i k c : ℕ) (v : ℤ)
    → h < n
    → c < i
    → i + k ≤ n
    → slots (set items ((h + c) % n) v) n h i k ≡ slots items n h i k
slots-set_before items n h i zero c v hh lt le = refl
slots-set_before items n h i (suc k) c v hh lt le =
    ap₂ ◌∷◌ (get_or-set_ne items v (pos 0) (slot-ne n h c i hh lt (omega arith)))
      (slots-set_before items n h (i + 1) k c v hh (omega arith) (omega arith))

close_from-slots :
    (i k n h : ℕ) (items : List ℤ)
    → h < n
    → i + k ≤ n
    → (close_from i k n h items).0 ≡ not_negative (slots items n h i k)
unfolding close_from
close_from-slots i zero n h items hh le = refl
close_from-slots i (suc k) n h items hh le =
    elim (Bool-cases (is_negative (get_or items ((h + i) % n) (pos 0)))) [
      | inl e ↦ rw e (close_from-slots (i + 1) k n h items hh (omega arith))
      | inr e ↦ rw e (
          ap (◌∷◌ (get_or items ((h + i) % n) (pos 0))) (
            close_from-slots (i + 1) k n h (set items ((h + i) % n) (negsuc 0)) hh (omega arith)
            ∙ ap not_negative
                (slots-set_before items n h (i + 1) k i (negsuc 0) hh (omega arith) (omega arith))))
    ]

-- Destroying a valid queue closes each descriptor that is left once, in the order of the queue,
-- and leaves no item and no initialised primitive.
pub destroy_closes_contents :
    (q : Queue)
    → IsValid q
    → let (closed, left) = connection_queue_destroy q in
      (closed ≡ not_negative (contents q))
      × (left.items ≡ [])
      × (left.count ≡ 0)
      × (left.mutex_initialized ≡ false)
unfolding connection_queue_destroy
destroy_closes_contents q v =
    (close_from-slots 0 q.count q.capacity q.head q.items v.head_in (omega arith), refl, refl, refl)
