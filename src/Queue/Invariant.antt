-- ===== src/Queue/Invariant.antt =====
-- The representation invariant of `connection_queue_t`.
use cinder_http.Prelude.{
  ℕ, zero, suc, ◌+◌, ◌-◌, ◌%◌, ◌^◌, ◌≤◌, ◌<◌, ◌≡◌, ◌≢◌, refl, ap, Bool, true, false, List, [], ◌∷◌,
  ltb, if◌then◌else◌, some, arith, ℤ, pos, get_or, length, length-set, length-replicate, ◌∙◌, sym,
}
use native.Mathlib.Nat.{mod-eq_of_lt, mod-eq-sub-mod}
use native.Mathlib.Decide.{dec_lt}
use cinder_http.Queue.{Queue, InitCalls, size_add, connection_queue_init, enqueue, dequeue}

-- The descriptors held from offset `i` behind the head on, in the order of `connection_queue_destroy`.
abbrev pub slots : List ℤ → ℕ → ℕ → ℕ → ℕ → List ℤ
slots items capacity head i zero = []
slots items capacity head i (suc n) =
    get_or items ((head + i) % capacity) (pos 0) ∷ slots items capacity head (i + 1) n

abbrev pub contents : Queue → List ℤ
contents q = slots q.items q.capacity q.head 0 q.count

-- `calloc` gives at most 2^62 items of four bytes.
pub record IsValid (q : Queue) : Type 0 where
  pub storage : length q.items ≡ q.capacity
  pub some_room : 0 < q.capacity
  pub addressable : q.capacity ≤ 2 ^ 62
  pub head_in : q.head < q.capacity
  pub tail_in : q.tail < q.capacity
  pub count_in : q.count ≤ q.capacity
  pub tail_is : q.tail ≡ (q.head + q.count) % q.capacity
  pub ready : q.mutex_initialized ≡ true

-- One turn round the ring at most.
pub mod_once : (n x : ℕ) → 0 < n → x < n + n → x % n ≡ (if ltb x n then x else x - n)
mod_once n x p h = go (ltb x n) refl
  where
    go : (b : Bool) → ltb x n ≡ b → x % n ≡ (if b then x else x - n)
    go true e = mod-eq_of_lt (ground (arith, e))
    go false e =
        let far : n ≤ x = ground (arith, e) in
        mod-eq-sub-mod {n = x} {m = n} far ∙ mod-eq_of_lt {n = x - n} {m = n} (omega arith)

-- A queue that `connection_queue_init` has made, of a capacity that memory can hold, is valid and
-- empty.
pub init-IsValid :
    (calls : InitCalls) (capacity : ℕ) {q : Queue}
    → capacity ≤ 2 ^ 62
    → connection_queue_init calls capacity ≡ some q
    → IsValid q × (contents q ≡ [])
unfolding connection_queue_init
init-IsValid calls capacity {q} small e = (
  record {
    storage = ground (arith, length-replicate capacity (pos 0));
    some_room = ground arith;
    addressable = ground arith;
    head_in = ground arith;
    tail_in = ground arith;
    count_in = ground arith;
    tail_is = ground (arith, mod-eq_of_lt {n = 0} {m = capacity});
    ready = ground arith;
  },
  ground arith,
)

-- The next index round the ring.
abbrev pub next : ℕ → ℕ → ℕ
next n x = size_add x 1 % n

pub next_eq : (n x : ℕ) → x < n → n ≤ 2 ^ 62 → next n x ≡ (if ltb (x + 1) n then x + 1 else 0)
next_eq n x h small =
    let plain : size_add x 1 ≡ x + 1 = omega arith in rw plain (ground (arith, mod_once n (x + 1)))

-- Stepping the index and stepping the offset come to the same slot.
pub next-add : (n h i : ℕ) → h < n → i ≤ n → n ≤ 2 ^ 62 → (next n h + i) % n ≡ (h + (i + 1)) % n
next-add n h i hh hi small = elim (dec_lt (h + 1) n) [
  | yes p ↦
      let step : next n h ≡ h + 1 = ground (arith, next_eq n h hh small) in
      ap (λ k. k % n) (omega (arith, step))
  | no p ↦
      let step : next n h ≡ 0 = ground (arith, next_eq n h hh small) in
      ap (λ k. k % n) (omega (arith, step)) ∙ wrapped (omega arith)
]
  where
    wrapped : h + 1 ≡ n → i % n ≡ (h + (i + 1)) % n
    wrapped e =
        sym (mod-eq-sub-mod {n = h + (i + 1)} {m = n} (omega arith) ∙ ap (λ k. k % n) (omega arith))

-- Offsets less than one round apart are different slots.
pub slot-ne : (n h i j : ℕ) → h < n → i < j → j < n → (h + i) % n ≢ (h + j) % n
slot-ne n h i j hh hij hj e = ground (arith, mod_once n (h + i), mod_once n (h + j), e)

tail_step : (n h c : ℕ) → h < n → c < n → n ≤ 2 ^ 62 → next n ((h + c) % n) ≡ (h + size_add c 1) % n
tail_step n h c hh hc small =
    let plain : size_add c 1 ≡ c + 1 = omega arith in
    rw plain (
      ground (
        arith,
        mod_once n (h + c),
        mod_once n (h + (c + 1)),
        next_eq n (h + c),
        next_eq n (h + c - n),
      ))

pub enqueue-IsValid :
    (q : Queue) (fd : ℤ) → IsValid q → q.count < q.capacity → IsValid (enqueue q fd)
enqueue-IsValid q fd v lt =
    let step = next_eq q.capacity q.tail v.tail_in v.addressable in
    record {
      storage = omega (arith, length-set q.items q.tail fd);
      some_room = v.some_room;
      addressable = v.addressable;
      head_in = v.head_in;
      tail_in = ground (arith, step);
      count_in = omega arith;
      tail_is = rw v.tail_is (tail_step q.capacity q.head q.count v.head_in lt v.addressable);
      ready = v.ready;
    }

pub dequeue-IsValid : (q : Queue) → IsValid q → 0 < q.count → IsValid (dequeue q)
dequeue-IsValid q v lt =
    let step = next_eq q.capacity q.head v.head_in v.addressable in
    record {
      storage = v.storage;
      some_room = v.some_room;
      addressable = v.addressable;
      head_in = ground (arith, step);
      tail_in = v.tail_in;
      count_in = omega arith;
      tail_is =
          v.tail_is
          ∙ ap (λ k. (q.head + k) % q.capacity) (omega arith)
          ∙ sym (next-add q.capacity q.head (q.count - 1) v.head_in (omega arith) v.addressable);
      ready = v.ready;
    }
