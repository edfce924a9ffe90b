-- ===== src/Server/Replay.antt =====
-- What `server_run` of src/server.c does, replayed: what each deed needs, and the start of the threads.
use cinder_http.Prelude.{
  ℕ, zero, suc, ◌+◌, ◌<◌, ◌≡◌, refl, ap, ◌∙◌, Bool, true, false, not, ◌&&◌, List, [], ◌∷◌, ◌++◌,
  ◌==◌, ltb, lt→ltb, if◌then◌else◌, Option, none, some, arith,
}
use cinder_http.Server.Pool.{
  Creation, created, no_memory, not_created, Deed, logger_up, stats_up, queue_up, pool_up,
  logger_down, stats_down, queue_down, pool_down, queue_shutdown, accept_loop, spawned, joined,
  joins, Start, spawn, gives_up_start, start_from,
}

-- Which parts are up, whether the queue is shut down, and the threads created and joined.
pub record World : Type 0 where
  pub logger : Bool
  pub stats : Bool
  pub queue : Bool
  pub pool : Bool
  pub shut : Bool
  pub threads : ℕ
  pub gone : ℕ

-- A part comes up on those that it uses, and goes down with none above it. A thread is created while
-- the pool is up and the queue open, in the order of the numbers, and joined in that order once the
-- queue is shut down. The pool goes down when every thread is joined.
unfoldable pub allowed : World → Deed → Bool
allowed w logger_up = not w.logger
allowed w stats_up = w.logger && not w.stats
allowed w queue_up = w.stats && not w.queue
allowed w pool_up = w.queue && not w.pool
allowed w (spawned i) = w.pool && (not w.shut && (i == w.threads && w.gone == 0))
allowed w accept_loop = w.pool && not w.shut
allowed w queue_shutdown = w.queue
allowed w (joined i) = w.pool && (w.shut && (i == w.gone && ltb i w.threads))
allowed w pool_down = w.pool && w.gone == w.threads
allowed w queue_down = w.queue && not w.pool
allowed w stats_down = w.stats && not w.queue
allowed w logger_down = w.logger && not w.stats

unfoldable pub does : World → Deed → World
does w logger_up = record w { logger = true }
does w stats_up = record w { stats = true }
does w queue_up = record w { queue = true }
does w pool_up = record w { pool = true }
does w (spawned i) = record w { threads = w.threads + 1 }
does w accept_loop = w
does w queue_shutdown = record w { shut = true }
does w (joined i) = record w { gone = w.gone + 1 }
does w pool_down = record w { pool = false }
does w queue_down = record w { queue = false }
does w stats_down = record w { stats = false }
does w logger_down = record w { logger = false }

-- The world behind the deeds, if each was allowed.
unfoldable pub replay : World → List Deed → Option World
replay w [] = some w
replay w (d ∷ ds) = elim (allowed w d) [ true ↦ replay (does w d) ds | false ↦ none ]

abbrev pub nothing_up : World
nothing_up = record {
  logger = false;
  stats = false;
  queue = false;
  pool = false;
  shut = false;
  threads = 0;
  gone = 0;
}

abbrev pub running : ℕ → ℕ → Bool → World
running threads gone shut = record {
  logger = true;
  stats = true;
  queue = true;
  pool = true;
  shut = shut;
  threads = threads;
  gone = gone;
}

pub eq_refl : (n : ℕ) → n == n ≡ true
eq_refl n = ground arith

pub replay-cons :
    (w : World) (d : Deed) (ds : List Deed)
    → allowed w d ≡ true
    → replay w (d ∷ ds) ≡ replay (does w d) ds
unfolding replay
replay-cons w d ds e = ap (λ b. elim b [ true ↦ replay (does w d) ds | false ↦ none ]) e

may_join : (n j : ℕ) → j < n → allowed (running n j true) (joined j) ≡ true
unfolding allowed
may_join n j h = rw (eq_refl j, lt→ltb j n h) refl

may_spawn : (i : ℕ) → allowed (running i 0 false) (spawned i) ≡ true
unfolding allowed
may_spawn i = rw (eq_refl i) refl

pub replay-joins :
    (m j n : ℕ) (rest : List Deed)
    → j + m ≡ n
    → replay (running n j true) (joins j m ++ rest) ≡ replay (running n n true) rest
unfolding joins does
replay-joins zero j n rest e = ap (λ k. replay (running n k true) rest) (omega arith)
replay-joins (suc m) j n rest e =
    replay-cons (running n j true) (joined j) (joins (j + 1) m ++ rest) (may_join n j (omega arith))
    ∙ replay-joins m (j + 1) n rest (omega arith)

-- All workers run, or those that did have been joined.
abbrev pub Started : ℕ → ℕ → Start → Type 0
Started i n s =
    if s.succeeded
    then (s.started_count ≡ i + n)
      × ((rest : List Deed)
          → replay (running i 0 false) (s.deeds ++ rest) ≡ replay (running (i + n) 0 false) rest)
    else (s.started_count ≡ 0)
      × ((k : ℕ) × ((rest : List Deed)
            → replay (running i 0 false) (s.deeds ++ rest) ≡ replay (running k k true) rest))

gives_up_start-Started : (i n : ℕ) → Started i n (gives_up_start i)
unfolding replay allowed does
gives_up_start-Started i n = (refl, (i, λ rest. replay-joins i 0 i rest (omega arith)))

spawn-Started : (i n : ℕ) (s : Start) → Started (i + 1) n s → Started i (suc n) (spawn i s)
unfolding does
spawn-Started i n s = go s.succeeded refl
  where
    spawns :
        (ds : List Deed)
        → replay (running i 0 false) (spawned i ∷ ds) ≡ replay (running (i + 1) 0 false) ds
    spawns ds = replay-cons (running i 0 false) (spawned i) ds (may_spawn i)

    go :
        (b : Bool)
        → s.succeeded ≡ b
        → Started (i + 1) n (record s { succeeded = b })
        → Started i (suc n) (spawn i (record s { succeeded = b }))
    go true e (count, more) = (
      count ∙ omega arith,
      λ rest.
          spawns (s.deeds ++ rest)
          ∙ more rest
          ∙ ap (λ k. replay (running k 0 false) rest) (omega arith),
    )
    go false e (count, (k, more)) = (count, (k, λ rest. spawns (s.deeds ++ rest) ∙ more rest))

pub start_from-Started : (create : ℕ → Creation) (n i : ℕ) → Started i n (start_from create i n)
unfolding start_from
start_from-Started create zero i =
    (omega arith, λ rest. ap (λ k. replay (running k 0 false) rest) (omega arith))
start_from-Started create (suc n) i = go (start_from-Started create n (i + 1)) (create i)
  where
    go :
        Started (i + 1) n (start_from create (i + 1) n)
        → (m : Creation)
        → Started i (suc n) (elim m [
          | created ↦ spawn i (start_from create (i + 1) n)
          | no_memory ↦ gives_up_start i
          | not_created ↦ gives_up_start i
        ])
    go more created = spawn-Started i n (start_from create (i + 1) n) more
    go more no_memory = gives_up_start-Started i (suc n)
    go more not_created = gives_up_start-Started i (suc n)
