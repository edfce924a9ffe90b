-- ===== src/Client/Replies.antt =====
-- What a reply of src/client_handler.c must be for its connection to stay open.
use cinder_http.Prelude.{
  ℕ, ◌+◌, ◌<◌, ◌≡◌, refl, sym, ◌∙◌, Bool, true, false, List, [], ◌∷◌, ◌++◌, leb, if◌then◌else◌,
  Option, none, some, arith,
}
use cinder_http.Limits.{http_max_requests_per_connection}
use cinder_http.Request.{Request}
use cinder_http.Reader.{Reader}
use cinder_http.Reader.Stream.{WhenDone}
use cinder_http.Response.{Response, http_response_init}
use cinder_http.Response.Transmit.{http_response_send}
use cinder_http.Connection.{http_request_wants_keep_alive}
use cinder_http.Router.{RouterResult, handled, router_error, router_is_api_request, router_dispatch}
use cinder_http.Sending.{Sent}
use cinder_http.Stats.{Event, request_received, response_sent}
use cinder_http.Config.{Config}
use cinder_http.Client.{Visit, answering, sending, Reply, Visited}
use cinder_http.Client.Pages.{Built, handle_static_get_head}
use cinder_http.Client.Round.{
  close_if_required, error_response, reply_to, after_routing, dispatch_request, with_policy,
  after_send, send_ready, send_reply, send_one, is_get_or_head, requires_close,
}

-- A response has been sent whole, and the round's calls of the statistics are those before it and
-- the one that counts it.
pub record Answered (before : List Event) (x : Visited) : Type 0 where
  pub response : Response
  pub answered : x.answer ≡ some response
  pub status : ℕ
  pub counted : x.events ≡ before ++ response_sent status ∷ []

-- What a reply must be for the connection to stay open behind it.
pub record StaysBy (p : Reply) (x : Visited) : Type 0 where
  pub kept : p.keep_alive ≡ true
  pub answered : Answered p.events x
  pub same_status : p.status ≡ some answered.status

module _ (c : Config) (v : Visit) where
  after_send-StaysBy :
      (reader : Reader) (p : Reply) (status : ℕ) (force_close : Bool) (r : Response)
      (o : Option Sent)
      → p.status ≡ some status
      → WhenDone (λ x. x.stays ≡ true → StaysBy p x) (after_send reader p status force_close r o)
  after_send-StaysBy reader p status force_close r none e = tt
  after_send-StaysBy reader p status force_close r (some (true, out)) e = λ stays. record {
    kept = ground arith;
    answered = record { response = r; answered = refl; status = status; counted = refl };
    same_status = e;
  }
  after_send-StaysBy reader p status force_close r (some (false, out)) e = λ stays. absurd (cc)

  send_reply-StaysBy :
      (reader : Reader) (p : Reply)
      → WhenDone (λ x. x.stays ≡ true → StaysBy p x) (send_reply c v reader p)
  send_reply-StaysBy reader p = go p.response_ready p.status refl
    where
      go :
          (ready : Bool) (status : Option ℕ)
          → p.status ≡ status
          → WhenDone (λ x. x.stays ≡ true → StaysBy p x) (send_ready c v reader p ready status)
      go false status e = λ stays. absurd (cc)
      go true none e = λ stays. absurd (cc)
      go true (some status) e =
          after_send-StaysBy reader p status (with_policy c v p).0 (with_policy c v p).1
            (http_response_send (v.alloc sending) v.wire (with_policy c v p).1 p.omit_body) e

  pub send_one-StaysBy :
      (requests : ℕ) (reader : Reader) (p : Reply)
      → WhenDone
          (λ x. x.stays ≡ true → (requests + 1 < http_max_requests_per_connection) × StaysBy p x)
          (send_one c v requests reader p)
  unfolding send_one
  send_one-StaysBy requests reader p = go (leb http_max_requests_per_connection (requests + 1)) refl
    where
      cut : Reply
      cut = record p { force_close = true; keep_alive = false }

      closes :
          (o : Option Visited)
          → WhenDone (λ x. x.stays ≡ true → StaysBy cut x) o
          → WhenDone
              (λ x.
                x.stays ≡ true → (requests + 1 < http_max_requests_per_connection) × StaysBy p x)
              o
      closes none w = tt
      closes (some x) w = λ stays. absurd (let s = w stays in cc (s.kept))

      below :
          (o : Option Visited)
          → leb http_max_requests_per_connection (requests + 1) ≡ false
          → WhenDone (λ x. x.stays ≡ true → StaysBy p x) o
          → WhenDone
              (λ x.
                x.stays ≡ true → (requests + 1 < http_max_requests_per_connection) × StaysBy p x)
              o
      below none e w = tt
      below (some x) e w = λ stays. (ground arith, w stays)

      go :
          (b : Bool)
          → leb http_max_requests_per_connection (requests + 1) ≡ b
          → WhenDone
              (λ x.
                x.stays ≡ true → (requests + 1 < http_max_requests_per_connection) × StaysBy p x)
              (send_reply c v reader (if b then cut else p))
      go true e = closes (send_reply c v reader cut) (send_reply-StaysBy reader cut)
      go false e = below (send_reply c v reader p) e (send_reply-StaysBy reader p)

-- A reply that belongs to a request.
pub record AnswersTo (request : Request) (p : Reply) : Type 0 where
  pub received : p.events ≡ request_received ∷ []
  pub wanted : p.keep_alive ≡ http_request_wants_keep_alive request

module _ (c : Config) (v : Visit) where
  pub dispatch_request-AnswersTo :
      (request : Request) → AnswersTo request (dispatch_request c v request)
  unfolding dispatch_request
  dispatch_request-AnswersTo request =
      go (router_is_api_request request) (is_get_or_head request.method)
        (router_dispatch (v.alloc answering) (some v.stats) request http_response_init)
    where
      routed : (d : RouterResult × Response) → AnswersTo request (after_routing c v request d)
      routed (handled, r) = record { received = refl; wanted = refl }
      routed (router_error, r) = record { received = refl; wanted = refl }

      served : (b : Built) → AnswersTo request (reply_to request false b)
      served b = record { received = refl; wanted = refl }

      go :
          (api file : Bool) (d : RouterResult × Response)
          → AnswersTo request (
              if api
              then after_routing c v request d
              else if file
              then reply_to request false (handle_static_get_head c.document_root v request)
              else reply_to request false (error_response c v http_response_init 405))
      go true file d = routed d
      go false true d = served _
      go false false d = served _

-- With a reply kept open, its request and status are known.
pub record OpenFor (request : Request) (p : Reply) : Type 0 where
  pub received : p.events ≡ request_received ∷ []
  pub wanted : http_request_wants_keep_alive request ≡ true
  pub harmless : requires_close p.status ≡ false

pub close_if_required-OpenFor :
    (request : Request) (p : Reply)
    → AnswersTo request p
    → (close_if_required p).keep_alive ≡ true
    → OpenFor request (close_if_required p)
unfolding close_if_required
close_if_required-OpenFor request p a kept = go (requires_close p.status) refl kept
  where
    go :
        (b : Bool)
        → requires_close p.status ≡ b
        → (if b then record p { force_close = true; keep_alive = false } else p).keep_alive ≡ true
        → OpenFor request (if b then record p { force_close = true; keep_alive = false } else p)
    go true e k = absurd (cc)
    go false e k = record { received = a.received; wanted = sym a.wanted ∙ k; harmless = e }
