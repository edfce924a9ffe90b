-- ===== src/Client/Ends.antt =====
-- The loop of `client_handle` ends.
use cinder_http.Prelude.{
  ℕ, ◌+◌, ◌<◌, ◌≡◌, refl, Bool, true, false, List, [], ◌∷◌, Option, none, some, ℤ, ◌⊎◌, inl, inr,
  arith, length,
}
use cinder_http.Limits.{http_max_requests_per_connection}
use cinder_http.Reader.{Reader, http_reader_init}
use cinder_http.Response.Transmit.Ends.{Done}
use cinder_http.Config.{Config}
use cinder_http.Client.{Visit, Visited}
use cinder_http.Client.Round.{visit}
use cinder_http.Client.Loop.{Session, last_round, and_then, rounds_from, give_up, client_handle}
use cinder_http.Client.Stays.{visit_stays}

-- The connection comes to a visit that waits for its clock, its socket or its file without end: it
-- goes round the visits before that one, each of which leaves it open and its reader for the next.
abbrev pub WaitsIn : Config → ℕ → Reader → List Visit → Type 0
WaitsIn c requests reader [] = ⊥
WaitsIn c requests reader (v ∷ vs) =
    (visit c v requests reader ≡ none)
    ⊎ ((x : Visited) × (visit c v requests reader ≡ some x)
        × (x.stays ≡ true)
        × WaitsIn c (requests + 1) x.reader vs)

and_then-Done : (x : Visited) (o : Option Session) → Done o → Done (and_then x o)
and_then-Done x none (s, e) = absurd (cc)
and_then-Done x (some s) d = (_, refl)

module _ (c : Config) where
  -- What the loop makes of one round.
  abbrev pub after_visit : ℕ → List Visit → Option Visited → Option Session
  after_visit requests vs o = elim o [
    | none ↦ none
    | some x ↦ elim x.stays [
      | false ↦ some (last_round x)
      | true ↦ and_then x (rounds_from c (requests + 1) x.reader vs)
    ]
  ]

  rounds_from-ends :
      (vs : List Visit) (requests : ℕ) (reader : Reader)
      → requests < http_max_requests_per_connection
      → requests + length vs ≡ http_max_requests_per_connection
      → Done (rounds_from c requests reader vs) ⊎ WaitsIn c requests reader vs
  unfolding rounds_from
  rounds_from-ends [] requests reader few all = absurd (omega arith)
  rounds_from-ends (v ∷ vs) requests reader few all =
      go (visit c v requests reader) refl
        (λ x below. rounds_from-ends vs (requests + 1) x.reader below (omega arith))
    where
      stays :
          (x : Visited) (b : Bool)
          → visit c v requests reader ≡ some x
          → x.stays ≡ b
          → (b ≡ true → requests + 1 < http_max_requests_per_connection)
          → (requests + 1 < http_max_requests_per_connection
              → Done (rounds_from c (requests + 1) x.reader vs)
                ⊎ WaitsIn c (requests + 1) x.reader vs)
          → Done (elim b [
            | false ↦ some (last_round x)
            | true ↦ and_then x (rounds_from c (requests + 1) x.reader vs)
          ])
            ⊎ WaitsIn c requests reader (v ∷ vs)
      stays x false h e below next = inl (last_round x, refl)
      stays x true h e below next = elim (next (below refl)) [
        | inl done ↦ inl (and_then-Done x _ done)
        | inr waits ↦ inr (inr (x, h, e, waits))
      ]

      go :
          (o : Option Visited)
          → visit c v requests reader ≡ o
          → ((x : Visited)
              → requests + 1 < http_max_requests_per_connection
              → Done (rounds_from c (requests + 1) x.reader vs)
                ⊎ WaitsIn c (requests + 1) x.reader vs)
          → Done (after_visit requests vs o) ⊎ WaitsIn c requests reader (v ∷ vs)
      go none e next = inr (inl e)
      go (some x) e next =
          stays x x.stays e refl (λ s. (visit_stays c v requests reader x e s).below) (next x)

give_up-Done : (client_fd : ℤ) (o : Option Session) → Done o → Done (give_up client_fd o)
give_up-Done client_fd none (s, e) = absurd (cc)
give_up-Done client_fd (some s) d = (_, refl)

-- A hundred rounds are enough: given that many, the handler returns, unless the connection itself,
-- behind rounds that leave it open, comes to one in which it waits without end, for the clock, the
-- socket or a file.
pub client_handle_ends :
    (c : Config) (client_fd : ℤ) (vs : List Visit)
    → length vs ≡ http_max_requests_per_connection
    → ((s : Session) × (client_handle c client_fd vs ≡ some s)) ⊎ WaitsIn c 0 http_reader_init vs
unfolding client_handle
client_handle_ends c client_fd vs all =
    elim (rounds_from-ends c vs 0 http_reader_init (omega arith) (omega (arith, all))) [
      | inl done ↦ inl (give_up-Done client_fd _ done)
      | inr waits ↦ inr waits
    ]
