-- ===== src/Client/Reports.antt =====
-- What a round of `client_handle` reports to the statistics.
use cinder_http.Prelude.{
  ℕ, ◌+◌, ◌≤◌, ◌≡◌, refl, sym, ap, ◌∙◌, subst, Bool, true, false, leb, if◌then◌else◌, is_empty,
  List, [], ◌∷◌, ◌++◌, Option, none, some, ok, err, arith, length,
}
use cinder_http.Limits.{http_max_requests_per_connection}
use cinder_http.Text.{Bytes}
use cinder_http.Parser.Errors.{Parsed}
use cinder_http.Parser.Message.{http_parse_request}
use cinder_http.Request.{Request}
use cinder_http.Reader.{
  Read, client_closed, timeout, read_too_large, io_error, read_bad_request,
  read_unsupported_transfer_encoding, read_invalid_content_length, read_out_of_memory, Reader,
}
use cinder_http.Reader.Next.{Finished, http_reader_next_request}
use cinder_http.Reader.Stream.{WhenDone}
use cinder_http.Response.{Response}
use cinder_http.Response.Transmit.{http_response_send}
use cinder_http.Sending.{Sent}
use cinder_http.Stats.{Event, request_received, response_sent}
use cinder_http.Config.{Config}
use cinder_http.Client.{Visit, parsing, sending, reading, Reply, Choice, leaves, replies, Visited}
use cinder_http.Client.Round.{
  close_if_required, dispatch_request, after_parse, reply_to_read_error, timed_out_reply,
  after_read, with_policy, after_send, send_ready, send_reply, send_one, after_choice, message_of,
  with_read, after_next, visit, requires_close,
}
use cinder_http.Client.Replies.{dispatch_request-AnswersTo}

abbrev pub is_response : Event → Bool
is_response (response_sent status) = true
is_response _ = false

-- The calls of a round: one for the request that was read, and one for the response that was sent.
abbrev pub reports : List Bytes → Option ℕ → List Event
reports [] none = []
reports [] (some status) = response_sent status ∷ []
reports (m ∷ ms) status = request_received ∷ reports ms status

pub record Reports (x : Visited) : Type 0 where
  pub status : Option ℕ
  pub events : x.events ≡ reports x.messages status
  pub one : length x.messages ≤ 1

abbrev Reported : List Bytes → Option Visited → Type 0
Reported messages o = WhenDone (λ x. (st : Option ℕ) × (x.events ≡ reports messages st)) o

pub reports-then :
    (ms : List Bytes) (status : ℕ)
    → reports ms none ++ response_sent status ∷ [] ≡ reports ms (some status)
reports-then [] status = refl
reports-then (m ∷ ms) status = ap (◌∷◌ request_received) (reports-then ms status)

module _ (c : Config) (v : Visit) (messages : List Bytes) where
  after_send-Reported :
      (reader : Reader) (p : Reply) (status : ℕ) (force_close : Bool) (r : Response)
      (o : Option Sent)
      → p.events ≡ reports messages none
      → Reported messages (after_send reader p status force_close r o)
  after_send-Reported reader p status force_close r none e = tt
  after_send-Reported reader p status force_close r (some (true, out)) e =
      (some status, ap (λ es. es ++ response_sent status ∷ []) e ∙ reports-then messages status)
  after_send-Reported reader p status force_close r (some (false, out)) e = (none, e)

  send_reply-Reported :
      (reader : Reader) (p : Reply)
      → p.events ≡ reports messages none
      → Reported messages (send_reply c v reader p)
  send_reply-Reported reader p e = go p.response_ready p.status
    where
      go :
          (ready : Bool) (status : Option ℕ)
          → Reported messages (send_ready c v reader p ready status)
      go false status = (none, e)
      go true none = (none, e)
      go true (some status) =
          after_send-Reported reader p status (with_policy c v p).0 (with_policy c v p).1
            (http_response_send (v.alloc sending) v.wire (with_policy c v p).1 p.omit_body) e

  send_one-Reported :
      (requests : ℕ) (reader : Reader) (p : Reply)
      → p.events ≡ reports messages none
      → Reported messages (send_one c v requests reader p)
  unfolding send_one
  send_one-Reported requests reader p e = go (leb http_max_requests_per_connection (requests + 1))
    where
      go :
          (b : Bool)
          → Reported messages (
              send_reply c v reader
                (if b then record p { force_close = true; keep_alive = false } else p))
      go true = send_reply-Reported reader (record p { force_close = true; keep_alive = false }) e
      go false = send_reply-Reported reader p e

abbrev pub ChoiceReported : List Bytes → Choice → Type 0
ChoiceReported messages leaves = messages ≡ []
ChoiceReported messages (replies p) = p.events ≡ reports messages none

close_if_required-events : (p : Reply) → (close_if_required p).events ≡ p.events
unfolding close_if_required
close_if_required-events p = go (requires_close p.status)
  where
    go :
        (b : Bool)
        → (if b then record p { force_close = true; keep_alive = false } else p).events ≡ p.events
    go true = refl
    go false = refl

module _ (c : Config) (v : Visit) where
  after_parse-events : (m : Parsed Request) → (after_parse c v m).events ≡ request_received ∷ []
  after_parse-events (err e) = refl
  after_parse-events (ok request) =
      close_if_required-events (dispatch_request c v request)
      ∙ (dispatch_request-AnswersTo c v request).received

  reply_to_read_error-events : (status : ℕ) → (reply_to_read_error c v status).events ≡ []
  unfolding reply_to_read_error
  reply_to_read_error-events status = refl

  timed_out_reply-ChoiceReported : (idle : Bool) → ChoiceReported [] (timed_out_reply c v idle)
  unfolding timed_out_reply
  timed_out_reply-ChoiceReported true = refl
  timed_out_reply-ChoiceReported false = reply_to_read_error-events 408

  pub after_read-ChoiceReported :
      (idle : Bool) (f : Finished) → ChoiceReported (message_of f.answer) (after_read c v idle f)
  unfolding after_read
  after_read-ChoiceReported idle f = go f.answer
    where
      go :
          (m : Read Bytes)
          → ChoiceReported (message_of m) (after_read c v idle (record f { answer = m }))
      go (ok raw) = after_parse-events (http_parse_request (v.alloc parsing) raw)
      go (err client_closed) = refl
      go (err timeout) = timed_out_reply-ChoiceReported idle
      go (err io_error) = refl
      go (err read_too_large) = reply_to_read_error-events _
      go (err read_bad_request) = reply_to_read_error-events _
      go (err read_unsupported_transfer_encoding) = reply_to_read_error-events _
      go (err read_invalid_content_length) = reply_to_read_error-events _
      go (err read_out_of_memory) = reply_to_read_error-events _

  message_of-one : (m : Read Bytes) → length (message_of m) ≤ 1
  message_of-one (ok raw) = omega arith
  message_of-one (err e) = omega arith

  with_read-Reports :
      (f : Finished) (o : Option Visited)
      → Reported (message_of f.answer) o
      → WhenDone Reports (with_read f o)
  with_read-Reports f none w = tt
  with_read-Reports f (some x) (status, e) = record {
    status = status;
    events = e;
    one = message_of-one f.answer;
  }

  -- What a round reports: one request if it read one, then one response if it sent one whole.
  pub visit-Reports :
      (requests : ℕ) (reader : Reader) (x : Visited)
      → visit c v requests reader ≡ some x
      → Reports x
  unfolding visit
  visit-Reports requests reader x h =
      subst (WhenDone Reports) h
        (go (http_reader_next_request (v.alloc reading) reader c.request_timeout_sec v.now v.turns))
    where
      chosen :
          (f : Finished) (ch : Choice)
          → ChoiceReported (message_of f.answer) ch
          → WhenDone Reports (with_read f (after_choice c v requests f.reader ch))
      chosen f leaves e =
          with_read-Reports f (after_choice c v requests f.reader leaves)
            (none, sym (ap (λ ms. reports ms none) e))
      chosen f (replies p) e =
          with_read-Reports f _ (send_one-Reported c v (message_of f.answer) requests f.reader p e)

      go :
          (o : Option Finished)
          → WhenDone Reports (after_next c v requests (is_empty reader.data_bytes) o)
      go none = tt
      go (some f) = chosen f _ (after_read-ChoiceReported _ f)
