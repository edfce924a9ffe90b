-- ===== src/Client/Stream.antt =====
-- What `client_handle` makes of the bytes of its connection.
use cinder_http.Prelude.{
  ℕ, ◌+◌, ◌≡◌, refl, sym, ap, ◌∙◌, subst, Bool, true, false, List, [], ◌∷◌, ◌++◌, Option, none,
  some, ok, err, append_assoc, append-nil, ℤ,
}
use mathlib.Core.List.{flatten}
use mathlib.Core.Option.{some-injective}
use cinder_http.Text.{Bytes, Alloc}
use cinder_http.Reader.{Read, Reader, http_reader_init}
use cinder_http.Reader.Next.{Finished, http_reader_next_request}
use cinder_http.Reader.Stream.{WhenDone, next_request-takes_one_message}
use cinder_http.Reader.HandOut.{IsFramed}
use cinder_http.Config.{Config}
use cinder_http.Client.{Visit, reading, Visited}
use cinder_http.Client.Round.{message_of, visit}
use cinder_http.Client.Loop.{Session, last_round, and_then, rounds_from, give_up, client_handle}
use cinder_http.Client.Stays.{visit_stays}
use cinder_http.Client.ReadBy.{visit-ReadBy}

-- Each is a whole request, cut where its own head says.
abbrev pub AllFramed : List Bytes → Type 0
AllFramed [] = Unit {0}
AllFramed (m ∷ ms) = ((alloc : Alloc) × IsFramed alloc m) × AllFramed ms

-- The messages are consecutive pieces of the bytes, from the first on.
pub record Pieces (bytes : Bytes) (messages : List Bytes) : Type 0 where
  pub rest : Bytes
  pub in_order : flatten messages ++ rest ≡ bytes
  pub framed : AllFramed messages

none-Pieces : (bytes : Bytes) → Pieces bytes []
unfolding flatten
none-Pieces bytes = record { rest = bytes; in_order = refl; framed = tt }

-- A message, and the pieces of what the reader then holds and receives.
cons-Pieces :
    (alloc : Alloc) (raw before delivered kept later : Bytes) (ms : List Bytes)
    → raw ++ kept ≡ before ++ delivered
    → IsFramed alloc raw
    → Pieces (kept ++ later) ms
    → Pieces (before ++ (delivered ++ later)) (raw ∷ ms)
unfolding flatten
cons-Pieces alloc raw before delivered kept later ms cut framed p = record {
  rest = p.rest;
  in_order =
      append_assoc raw (flatten ms) p.rest
      ∙ ap (λ t. raw ++ t) p.in_order
      ∙ sym (append_assoc raw kept later)
      ∙ ap (λ t. t ++ later) cut
      ∙ append_assoc before delivered later;
  framed = ((alloc, framed), p.framed);
}

module _ (c : Config) (v : Visit) (requests : ℕ) (reader : Reader) (x : Visited) where
  last-Pieces :
      visit c v requests reader ≡ some x → Pieces (reader.data_bytes ++ x.received) x.messages
  last-Pieces h =
      let r = visit-ReadBy c v requests reader x h in
      subst (λ ms. Pieces (reader.data_bytes ++ x.received) ms) (sym r.same_messages)
        (go r.finished r.finished.answer refl r.returned r.same_received)
    where
      go :
          (f : Finished) (a : Read Bytes)
          → f.answer ≡ a
          → http_reader_next_request (v.alloc reading) reader c.request_timeout_sec v.now v.turns
            ≡ some f
          → x.received ≡ f.delivered
          → Pieces (reader.data_bytes ++ x.received) (message_of a)
      go f (err e) answered returned received = none-Pieces (reader.data_bytes ++ x.received)
      go f (ok raw) answered returned received =
          let (cut, framed) =
            next_request-takes_one_message (v.alloc reading) reader c.request_timeout_sec v.now
              v.turns raw f returned answered in
          subst (λ bytes. Pieces (reader.data_bytes ++ bytes) (raw ∷ []))
            (append-nil f.delivered ∙ sym received)
            (cons-Pieces (v.alloc reading) raw reader.data_bytes f.delivered f.reader.data_bytes []
              [] cut framed (none-Pieces (f.reader.data_bytes ++ [])))

  next-Pieces :
      (s : Session)
      → visit c v requests reader ≡ some x
      → x.stays ≡ true
      → Pieces (x.reader.data_bytes ++ s.received) s.messages
      → Pieces (reader.data_bytes ++ (x.received ++ s.received)) (x.messages ++ s.messages)
  next-Pieces s h stays p =
      let r = visit-ReadBy c v requests reader x h in
      let k = visit_stays c v requests reader x h stays in
      let f = r.finished in
      let same : k.finished ≡ f = some-injective k.finished f (sym k.returned ∙ r.returned) in
      let answered : f.answer ≡ ok k.raw = sym (ap (λ g. g.answer) same) ∙ k.read in
      let (cut, framed) =
        next_request-takes_one_message (v.alloc reading) reader c.request_timeout_sec v.now v.turns
          k.raw f r.returned answered in
      let messages : x.messages ≡ k.raw ∷ [] = r.same_messages ∙ ap message_of answered in
      let pieces : Pieces (reader.data_bytes ++ (f.delivered ++ s.received)) (k.raw ∷ s.messages) =
        cons-Pieces (v.alloc reading) k.raw reader.data_bytes f.delivered f.reader.data_bytes
          s.received s.messages cut framed
          (subst (λ d. Pieces (d ++ s.received) s.messages) (ap (λ d. d.data_bytes) r.same_reader)
            p) in
      subst (λ ms. Pieces (reader.data_bytes ++ (x.received ++ s.received)) (ms ++ s.messages))
        (sym messages)
        (subst (λ bytes. Pieces (reader.data_bytes ++ (bytes ++ s.received)) (k.raw ∷ s.messages))
          (sym r.same_received) pieces)

module _ (c : Config) where
  abbrev SessionPieces : Reader → Option Session → Type 0
  SessionPieces reader o = WhenDone (λ s. Pieces (reader.data_bytes ++ s.received) s.messages) o

  rounds_from-Pieces :
      (vs : List Visit) (requests : ℕ) (reader : Reader)
      → SessionPieces reader (rounds_from c requests reader vs)
  unfolding rounds_from
  rounds_from-Pieces [] requests reader = tt
  rounds_from-Pieces (v ∷ vs) requests reader =
      go (visit c v requests reader) refl (λ x. rounds_from-Pieces vs (requests + 1) x.reader)
    where
      later :
          (x : Visited) (o : Option Session)
          → visit c v requests reader ≡ some x
          → x.stays ≡ true
          → SessionPieces x.reader o
          → SessionPieces reader (and_then x o)
      later x none h stays p = tt
      later x (some s) h stays p = next-Pieces c v requests reader x s h stays p

      stays :
          (x : Visited) (b : Bool)
          → visit c v requests reader ≡ some x
          → x.stays ≡ b
          → SessionPieces x.reader (rounds_from c (requests + 1) x.reader vs)
          → SessionPieces reader (elim b [
            | false ↦ some (last_round x)
            | true ↦ and_then x (rounds_from c (requests + 1) x.reader vs)
          ])
      stays x false h e next = last-Pieces c v requests reader x h
      stays x true h e next = later x _ h e next

      go :
          (o : Option Visited)
          → visit c v requests reader ≡ o
          → ((x : Visited) → SessionPieces x.reader (rounds_from c (requests + 1) x.reader vs))
          → SessionPieces reader (elim o [
            | none ↦ none
            | some x ↦ elim x.stays [
              | false ↦ some (last_round x)
              | true ↦ and_then x (rounds_from c (requests + 1) x.reader vs)
            ]
          ])
      go none h next = tt
      go (some x) h next = stays x x.stays h refl (next x)

give_up-Pieces :
    (client_fd : ℤ) (o : Option Session)
    → WhenDone (λ s. Pieces s.received s.messages) o
    → WhenDone (λ s. Pieces s.received s.messages) (give_up client_fd o)
give_up-Pieces client_fd none p = tt
give_up-Pieces client_fd (some s) p = p

-- Pipelined requests are neither lost nor doubled nor reordered, and no byte of one is taken for
-- another: the messages that a connection's rounds take are consecutive pieces of the bytes received
-- from it, from the first on, each of them a whole request that ends where its own head says.
pub client_handle-Pieces :
    (c : Config) (client_fd : ℤ) (vs : List Visit) (s : Session)
    → client_handle c client_fd vs ≡ some s
    → Pieces s.received s.messages
unfolding client_handle
client_handle-Pieces c client_fd vs s h = subst (WhenDone (λ t. Pieces t.received t.messages)) h (
    give_up-Pieces client_fd (rounds_from c 0 http_reader_init vs)
      (rounds_from-Pieces c vs 0 http_reader_init))
