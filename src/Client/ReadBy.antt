-- ===== src/Client/ReadBy.antt =====
-- What a round of `client_handle` takes from its reader.
use cinder_http.Prelude.{
  ℕ, ◌+◌, ◌≡◌, refl, subst, Bool, true, false, leb, if◌then◌else◌, Option, none, some, is_empty,
}
use cinder_http.Limits.{http_max_requests_per_connection}
use cinder_http.Reader.{Reader}
use cinder_http.Reader.Next.{Finished, http_reader_next_request}
use cinder_http.Reader.Stream.{WhenDone}
use cinder_http.Response.{Response}
use cinder_http.Response.Transmit.{http_response_send}
use cinder_http.Sending.{Sent}
use cinder_http.Config.{Config}
use cinder_http.Client.{Visit, reading, sending, Reply, Choice, leaves, replies, Visited}
use cinder_http.Client.Round.{
  with_policy, after_send, send_ready, send_reply, send_one, after_choice, message_of, with_read,
  after_next, after_read, visit,
}

module _ (c : Config) (v : Visit) where
  abbrev KeepsReader : Reader → Option Visited → Type 0
  KeepsReader reader o = WhenDone (λ x. x.reader ≡ reader) o

  after_send-KeepsReader :
      (reader : Reader) (p : Reply) (status : ℕ) (force_close : Bool) (r : Response)
      (o : Option Sent)
      → KeepsReader reader (after_send reader p status force_close r o)
  after_send-KeepsReader reader p status force_close r none = tt
  after_send-KeepsReader reader p status force_close r (some (true, out)) = refl
  after_send-KeepsReader reader p status force_close r (some (false, out)) = refl

  send_reply-KeepsReader :
      (reader : Reader) (p : Reply) → KeepsReader reader (send_reply c v reader p)
  send_reply-KeepsReader reader p = go p.response_ready p.status
    where
      go :
          (ready : Bool) (status : Option ℕ)
          → KeepsReader reader (send_ready c v reader p ready status)
      go false status = refl
      go true none = refl
      go true (some status) =
          after_send-KeepsReader reader p status (with_policy c v p).0 (with_policy c v p).1
            (http_response_send (v.alloc sending) v.wire (with_policy c v p).1 p.omit_body)

  send_one-KeepsReader :
      (requests : ℕ) (reader : Reader) (p : Reply)
      → KeepsReader reader (send_one c v requests reader p)
  unfolding send_one
  send_one-KeepsReader requests reader p = send_reply-KeepsReader reader (
      if leb http_max_requests_per_connection (requests + 1)
      then record p { force_close = true; keep_alive = false }
      else p)

  after_choice-KeepsReader :
      (requests : ℕ) (reader : Reader) (ch : Choice)
      → KeepsReader reader (after_choice c v requests reader ch)
  after_choice-KeepsReader requests reader leaves = refl
  after_choice-KeepsReader requests reader (replies p) = send_one-KeepsReader requests reader p

-- What a round has of its reader.
pub record ReadBy (c : Config) (v : Visit) (reader : Reader) (x : Visited) : Type 0 where
  pub finished : Finished
  pub returned :
      http_reader_next_request (v.alloc reading) reader c.request_timeout_sec v.now v.turns
      ≡ some finished
  pub same_reader : x.reader ≡ finished.reader
  pub same_received : x.received ≡ finished.delivered
  pub same_messages : x.messages ≡ message_of finished.answer

module _ (c : Config) (v : Visit) where
  pub visit-ReadBy :
      (requests : ℕ) (reader : Reader) (x : Visited)
      → visit c v requests reader ≡ some x
      → ReadBy c v reader x
  unfolding visit
  visit-ReadBy requests reader x h = subst (WhenDone (ReadBy c v reader)) h (
      go (http_reader_next_request (v.alloc reading) reader c.request_timeout_sec v.now v.turns)
        refl)
    where
      read :
          (f : Finished) (o : Option Visited)
          → http_reader_next_request (v.alloc reading) reader c.request_timeout_sec v.now v.turns
            ≡ some f
          → WhenDone (λ y. y.reader ≡ f.reader) o
          → WhenDone (ReadBy c v reader) (with_read f o)
      read f none e k = tt
      read f (some y) e k = record {
        finished = f;
        returned = e;
        same_reader = k;
        same_received = refl;
        same_messages = refl;
      }

      go :
          (o : Option Finished)
          → http_reader_next_request (v.alloc reading) reader c.request_timeout_sec v.now v.turns
            ≡ o
          → WhenDone (ReadBy c v reader) (after_next c v requests (is_empty reader.data_bytes) o)
      go none e = tt
      go (some f) e =
          read f _ e (after_choice-KeepsReader c v requests f.reader (after_read c v _ f))
