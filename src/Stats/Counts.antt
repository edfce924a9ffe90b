-- ===== src/Stats/Counts.antt =====
-- What the counters of src/server_stats.c count.
use cinder_http.Prelude.{
  ℕ, suc, ◌+◌, ◌-◌, ◌^◌, ◌≤◌, ◌<◌, ◌≡◌, refl, ap, sym, ◌∙◌, subst, Bool, true, false, ◌&&◌, List,
  [], ◌∷◌, leb, if◌then◌else◌, some, arith, length,
}
use native.Mathlib.Nat.{mod-eq_of_lt}
use cinder_http.Stats.{
  Counters, Stats, zero_counters, server_stats_init, increment, Event, connection_accepted,
  connection_started, connection_finished, request_received, response_sent,
  server_stats_connection_accepted, server_stats_connection_started,
  server_stats_connection_finished, server_stats_request_received, server_stats_response_sent, step,
  run, server_stats_snapshot,
}

unfoldable pub count : (Event → Bool) → List Event → ℕ
count p [] = 0
count p (e ∷ es) = (if p e then 1 else 0) + count p es

abbrev pub is_accepted : Event → Bool
is_accepted connection_accepted = true
is_accepted _ = false

abbrev pub is_started : Event → Bool
is_started connection_started = true
is_started _ = false

abbrev pub is_finished : Event → Bool
is_finished connection_finished = true
is_finished _ = false

abbrev pub is_received : Event → Bool
is_received request_received = true
is_received _ = false

abbrev pub is_sent : ℕ → Event → Bool
is_sent first (response_sent status) = leb first status && leb status (first + 99)
is_sent first _ = false

-- At every moment no more connections have finished than have started.
abbrev pub Bracketed : ℕ → List Event → Type 0
Bracketed active [] = Unit
Bracketed active (connection_started ∷ es) = Bracketed (suc active) es
Bracketed active (connection_finished ∷ es) = (0 < active) × Bracketed (active - 1) es
Bracketed active (_ ∷ es) = Bracketed active es

-- The counters of `c` are those of `b` and what the events add.
pub record Counts (es : List Event) (b c : Counters) : Type 0 where
  pub accepted : c.connections_accepted ≡ b.connections_accepted + count is_accepted es
  pub received : c.requests_total ≡ b.requests_total + count is_received es
  pub sent_2xx : c.responses_2xx ≡ b.responses_2xx + count (is_sent 200) es
  pub sent_4xx : c.responses_4xx ≡ b.responses_4xx + count (is_sent 400) es
  pub sent_5xx : c.responses_5xx ≡ b.responses_5xx + count (is_sent 500) es
  pub active :
      c.active_connections + count is_finished es ≡ b.active_connections + count is_started es

-- No counter has come nearer than `n` to its end.
record HasRoom (n : ℕ) (b : Counters) : Type 0 where
  accepted_room : b.connections_accepted + n < 2 ^ 64
  received_room : b.requests_total + n < 2 ^ 64
  room_2xx : b.responses_2xx + n < 2 ^ 64
  room_4xx : b.responses_4xx + n < 2 ^ 64
  room_5xx : b.responses_5xx + n < 2 ^ 64
  active_room : b.active_connections + n < 2 ^ 64

increment-exact : (n : ℕ) → n + 1 < 2 ^ 64 → increment n ≡ n + 1
increment-exact n lt = mod-eq_of_lt lt

abbrev ready : Counters → Stats
ready c = record { initialized = true; counters = c }

-- The counters behind one call.
change : Event → Counters → Counters
change e b = (step e (ready b)).counters

step-ready : (e : Event) (b : Counters) → step e (ready b) ≡ ready (change e b)
unfolding change step server_stats_connection_accepted server_stats_connection_started
    server_stats_connection_finished server_stats_request_received server_stats_response_sent
step-ready connection_accepted b = refl
step-ready connection_started b = refl
step-ready connection_finished b = refl
step-ready request_received b = refl
step-ready (response_sent status) b = refl

change-Counts :
    (e : Event) (es : List Event) (b : Counters)
    → HasRoom 1 b
    → Bracketed b.active_connections (e ∷ es)
    → Counts (e ∷ []) b (change e b)
unfolding change step count server_stats_connection_accepted server_stats_connection_started
    server_stats_connection_finished server_stats_request_received server_stats_response_sent
change-Counts connection_accepted es b room br =
    let plus = increment-exact b.connections_accepted room.accepted_room in
    record {
      accepted = omega arith;
      received = omega arith;
      sent_2xx = omega arith;
      sent_4xx = omega arith;
      sent_5xx = omega arith;
      active = omega arith;
    }
change-Counts connection_started es b room br =
    let plus = increment-exact b.active_connections room.active_room in
    record {
      accepted = omega arith;
      received = omega arith;
      sent_2xx = omega arith;
      sent_4xx = omega arith;
      sent_5xx = omega arith;
      active = omega arith;
    }
change-Counts connection_finished es b room br = ground (arith, br.0)
change-Counts request_received es b room br =
    let plus = increment-exact b.requests_total room.received_room in
    record {
      accepted = omega arith;
      received = omega arith;
      sent_2xx = omega arith;
      sent_4xx = omega arith;
      sent_5xx = omega arith;
      active = omega arith;
    }
change-Counts (response_sent status) es b room br = ground (
  arith,
  increment-exact b.responses_2xx room.room_2xx,
  increment-exact b.responses_4xx room.room_4xx,
  increment-exact b.responses_5xx room.room_5xx,
)

count-cons :
    (p : Event → Bool) (e : Event) (es : List Event)
    → count p (e ∷ es) ≡ count p (e ∷ []) + count p es
unfolding count
count-cons p e es = omega arith

count-one : (p : Event → Bool) (e : Event) → count p (e ∷ []) ≤ 1
unfolding count
count-one p e = ground arith

Counts-trans :
    (e : Event) (es : List Event) {b b' c : Counters}
    → Counts (e ∷ []) b b'
    → Counts es b' c
    → Counts (e ∷ es) b c
Counts-trans e es k l = record {
  accepted = omega (arith, k.accepted, l.accepted, count-cons is_accepted e es);
  received = omega (arith, k.received, l.received, count-cons is_received e es);
  sent_2xx = omega (arith, k.sent_2xx, l.sent_2xx, count-cons (is_sent 200) e es);
  sent_4xx = omega (arith, k.sent_4xx, l.sent_4xx, count-cons (is_sent 400) e es);
  sent_5xx = omega (arith, k.sent_5xx, l.sent_5xx, count-cons (is_sent 500) e es);
  active =
      omega (arith, k.active, l.active, count-cons is_started e es, count-cons is_finished e es);
}

HasRoom-change :
    (n : ℕ) (e : Event) {b b' : Counters} → Counts (e ∷ []) b b' → HasRoom (suc n) b → HasRoom n b'
HasRoom-change n e k room = record {
  accepted_room = omega (arith, k.accepted, count-one is_accepted e, room.accepted_room);
  received_room = omega (arith, k.received, count-one is_received e, room.received_room);
  room_2xx = omega (arith, k.sent_2xx, count-one (is_sent 200) e, room.room_2xx);
  room_4xx = omega (arith, k.sent_4xx, count-one (is_sent 400) e, room.room_4xx);
  room_5xx = omega (arith, k.sent_5xx, count-one (is_sent 500) e, room.room_5xx);
  active_room = omega (arith, k.active, count-one is_started e, room.active_room);
}

HasRoom-one : (n : ℕ) {b : Counters} → HasRoom (suc n) b → HasRoom 1 b
HasRoom-one n room = record {
  accepted_room = omega (arith, room.accepted_room);
  received_room = omega (arith, room.received_room);
  room_2xx = omega (arith, room.room_2xx);
  room_4xx = omega (arith, room.room_4xx);
  room_5xx = omega (arith, room.room_5xx);
  active_room = omega (arith, room.active_room);
}

Bracketed-change :
    (e : Event) (es : List Event) (b : Counters)
    → HasRoom 1 b
    → Bracketed b.active_connections (e ∷ es)
    → Bracketed (change e b).active_connections es
unfolding change step server_stats_connection_accepted server_stats_connection_started
    server_stats_connection_finished server_stats_request_received server_stats_response_sent
Bracketed-change connection_accepted es b room br = br
Bracketed-change connection_started es b room br =
    subst (λ n. Bracketed n es) {x = suc b.active_connections}
      (omega (arith, increment-exact b.active_connections room.active_room)) br
Bracketed-change connection_finished es b room (some_active, br) =
    subst (λ n. Bracketed n es) {x = b.active_connections - 1} (ground (arith, some_active)) br
Bracketed-change request_received es b room br = br
Bracketed-change (response_sent status) es b room br =
    subst (λ n. Bracketed n es) {x = b.active_connections} (ground arith) br

run-Counts :
    (es : List Event) (b : Counters)
    → HasRoom (length es) b
    → Bracketed b.active_connections es
    → (c : Counters) × (run es (ready b) ≡ ready c) × Counts es b c
unfolding run
run-Counts [] b room br = (
  b,
  refl,
  unfold count in
      record {
        accepted = omega arith;
        received = omega arith;
        sent_2xx = omega arith;
        sent_4xx = omega arith;
        sent_5xx = omega arith;
        active = omega arith;
      },
)
run-Counts (e ∷ es) b room br =
    let one = change-Counts e es b (HasRoom-one (length es) room) br in
    let (c, ran, rest) =
      run-Counts es (change e b) (HasRoom-change (length es) e one room)
        (Bracketed-change e es b (HasRoom-one (length es) room) br) in
    (c, ap (run es) (step-ready e b) ∙ ran, Counts-trans e es one rest)

-- After fewer than 2^64 calls in whatever order the threads make them, provided that no connection
-- finishes before it has started, a snapshot shows exactly how often each call was made: accepted
-- connections, requests, responses by class of status, and as active the connections that have
-- started and not finished.
pub server_stats_snapshot-Counts :
    (es : List Event) {s : Stats}
    → server_stats_init true ≡ some s
    → length es < 2 ^ 64
    → Bracketed 0 es
    → Counts es zero_counters (server_stats_snapshot (run es s))
unfolding server_stats_init server_stats_snapshot
server_stats_snapshot-Counts es {s} made few br =
    let (c, ran, counts) =
      run-Counts es zero_counters
        (record {
          accepted_room = omega arith;
          received_room = omega arith;
          room_2xx = omega arith;
          room_4xx = omega arith;
          room_5xx = omega arith;
          active_room = omega arith;
        })
        br in
    let started : ready zero_counters ≡ s = cc in
    subst (λ x. Counts es zero_counters (server_stats_snapshot (run es x))) started
      (subst (λ x. Counts es zero_counters (server_stats_snapshot x)) (sym ran) counts)
