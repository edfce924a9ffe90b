-- ===== src/Client/Told.antt =====
-- What the client learns from a response that `client_handle` has sent, from the label `send_one` on.
use cinder_http.Prelude.{
  ℕ, ◌+◌, ◌≡◌, refl, subst, Bool, true, false, not, ◌&&◌, ◌||◌, leb, if◌then◌else◌, Option, none,
  some,
}
use cinder_http.Limits.{http_max_requests_per_connection}
use cinder_http.Text.{Bytes, codes}
use cinder_http.Reader.{Reader}
use cinder_http.Reader.Stream.{WhenDone}
use cinder_http.Response.{Response}
use cinder_http.Response.Serialize.{http_response_serialize_headers}
use cinder_http.Response.Transmit.{send_head, http_response_send}
use cinder_http.Response.Transmit.Exact.{IsSent, http_response_send-IsSent}
use cinder_http.Connection.{http_response_apply_connection_policy}
use cinder_http.Connection.Policy.{Tells}
use cinder_http.Connection.Denied.{
  closing_policy-Tells, Keeps, WhenApplied, keeping_policy-WhenApplied,
}
use cinder_http.Sending.{Sent}
use cinder_http.Config.{Config}
use cinder_http.Client.{Visit, deciding, retrying, sending, Reply, Visited}
use cinder_http.Client.Round.{or_close, with_policy, after_send, send_ready, send_reply, send_one}

-- The response says what is to become of the connection.
abbrev pub Says : Bool → Option Bytes → Response → Type 0
Says stays version r = if stays then Keeps version r else Tells (codes "close") r

module _ (c : Config) (v : Visit) where
  abbrev SaysBy : Option Bytes → Bool → Bool × Response → Type 0
  SaysBy version keep_alive (force_close, r) = Says (not (force_close || not keep_alive)) version r

  or_close-SaysBy :
      (version : Option Bytes) (keep_alive force_close : Bool) (q : Bool × Response)
      → (not (force_close || not keep_alive) ≡ true → WhenApplied version q)
      → (not (force_close || not keep_alive) ≡ false → Tells (codes "close") q.1)
      → SaysBy version keep_alive (or_close c v force_close version q)
  or_close-SaysBy version keep_alive force_close (false, r) keeps closes =
      closing_policy-Tells (v.alloc retrying) r version
  or_close-SaysBy version keep_alive force_close (true, r) keeps closes =
      go (not (force_close || not keep_alive)) refl
    where
      go : (stays : Bool) → not (force_close || not keep_alive) ≡ stays → Says stays version r
      go true e = keeps e
      go false e = closes e

  with_policy-SaysBy : (p : Reply) → SaysBy p.version p.keep_alive (with_policy c v p)
  unfolding with_policy
  with_policy-SaysBy p = go p.keep_alive p.force_close
    where
      go :
          (keep_alive force_close : Bool)
          → SaysBy p.version keep_alive (
              or_close c v force_close p.version (
                http_response_apply_connection_policy
                  (v.alloc deciding)
                  p.response
                  (keep_alive && not force_close)
                  p.version))
      go true true =
          or_close-SaysBy p.version true true _ (λ e. absurd (cc))
            (λ e. closing_policy-Tells (v.alloc deciding) p.response p.version)
      go true false =
          or_close-SaysBy p.version true false _
            (λ e. keeping_policy-WhenApplied (v.alloc deciding) p.response p.version)
            (λ e. absurd (cc))
      go false true =
          or_close-SaysBy p.version false true _ (λ e. absurd (cc))
            (λ e. closing_policy-Tells (v.alloc deciding) p.response p.version)
      go false false =
          or_close-SaysBy p.version false false _ (λ e. absurd (cc))
            (λ e. closing_policy-Tells (v.alloc deciding) p.response p.version)

-- What went out with a response sent whole, and what it says.
pub record Told (v : Visit) (omit_body : Bool) (version : Option Bytes) (x : Visited) (r : Response)
    : Type 0 where
  pub headers : Bytes
  pub serialized : http_response_serialize_headers (v.alloc sending) r ≡ some headers
  pub sent : IsSent v.wire r omit_body headers (true, x.out)
  pub says : Says x.stays version r

abbrev AnswerTold : Visit → Bool → Option Bytes → Visited → Type 0
AnswerTold v omit_body version x = elim x.answer [
  | none ↦ Unit {0}
  | some r ↦ Told v omit_body version x r
]

module _ (c : Config) (v : Visit) where
  sent_whole :
      (r : Response) (omit_body : Bool) (out : Bytes)
      → http_response_send (v.alloc sending) v.wire r omit_body ≡ some (true, out)
      → (headers : Bytes) × (http_response_serialize_headers (v.alloc sending) r ≡ some headers)
        × IsSent v.wire r omit_body headers (true, out)
  unfolding http_response_send
  sent_whole r omit_body out h = go (http_response_serialize_headers (v.alloc sending) r) refl h
    where
      go :
          (o : Option Bytes)
          → http_response_serialize_headers (v.alloc sending) r ≡ o
          → send_head v.wire r omit_body o ≡ some (true, out)
          → (headers : Bytes) × (http_response_serialize_headers (v.alloc sending) r ≡ some headers)
            × IsSent v.wire r omit_body headers (true, out)
      go none e g = absurd (cc)
      go (some headers) e g = (
        headers,
        e,
        http_response_send-IsSent (v.alloc sending) v.wire r omit_body headers (true, out) e h,
      )

  after_send-AnswerTold :
      (reader : Reader) (p : Reply) (status : ℕ) (force_close : Bool) (r : Response)
      (o : Option Sent)
      → http_response_send (v.alloc sending) v.wire r p.omit_body ≡ o
      → Says (not (force_close || not p.keep_alive)) p.version r
      → WhenDone (AnswerTold v p.omit_body p.version) (after_send reader p status force_close r o)
  after_send-AnswerTold reader p status force_close r none e says = tt
  after_send-AnswerTold reader p status force_close r (some (false, out)) e says = tt
  after_send-AnswerTold reader p status force_close r (some (true, out)) e says =
      let (headers, built, sent) = sent_whole r p.omit_body out e in
      record { headers = headers; serialized = built; sent = sent; says = says }

  send_reply-AnswerTold :
      (reader : Reader) (p : Reply)
      → WhenDone (AnswerTold v p.omit_body p.version) (send_reply c v reader p)
  send_reply-AnswerTold reader p = go p.response_ready p.status
    where
      go :
          (ready : Bool) (status : Option ℕ)
          → WhenDone (AnswerTold v p.omit_body p.version) (send_ready c v reader p ready status)
      go false status = tt
      go true none = tt
      go true (some status) =
          after_send-AnswerTold reader p status (with_policy c v p).0 (with_policy c v p).1
            (http_response_send (v.alloc sending) v.wire (with_policy c v p).1 p.omit_body) refl
            (with_policy-SaysBy c v p)

  send_one-AnswerTold :
      (requests : ℕ) (reader : Reader) (p : Reply)
      → WhenDone (AnswerTold v p.omit_body p.version) (send_one c v requests reader p)
  unfolding send_one
  send_one-AnswerTold requests reader p = go (leb http_max_requests_per_connection (requests + 1))
    where
      cut : Reply
      cut = record p { force_close = true; keep_alive = false }

      go :
          (b : Bool)
          → WhenDone
              (AnswerTold v p.omit_body p.version)
              (send_reply c v reader (if b then cut else p))
      go true = send_reply-AnswerTold reader cut
      go false = send_reply-AnswerTold reader p

  -- Of every response that is sent whole, exactly the serialised header section and, unless it
  -- answers HEAD, the whole body have gone out, and its headers say what the handler does next: if it
  -- closes the connection, exactly one Connection header with "close"; if it reads on, exactly one
  -- with "keep-alive" for HTTP/1.0 and none otherwise. This holds whatever allocations are denied.
  pub send_one-Told :
      (requests : ℕ) (reader : Reader) (p : Reply) (x : Visited) (r : Response)
      → send_one c v requests reader p ≡ some x
      → x.answer ≡ some r
      → Told v p.omit_body p.version x r
  send_one-Told requests reader p x r h answered =
      subst (λ a. elim a [ none ↦ Unit {0} | some r' ↦ Told v p.omit_body p.version x r' ]) answered
        (subst (WhenDone (AnswerTold v p.omit_body p.version)) h
          (send_one-AnswerTold requests reader p))
