-- ===== src/Client/Truthful.antt =====
-- The status that `client_handle` reports to the statistics.
use cinder_http.Prelude.{
  ℕ, ◌+◌, ◌≡◌, sym, ap, ◌∙◌, subst, Bool, true, false, List, [], ◌∷◌, ◌++◌, leb, if◌then◌else◌,
  Option, none, some, ok, err, is_empty,
}
use cinder_http.Limits.{http_max_requests_per_connection}
use cinder_http.Text.{Bytes}
use cinder_http.Parser.Message.{http_parse_request}
use cinder_http.Reader.{
  Read, client_closed, timeout, read_too_large, io_error, read_bad_request,
  read_unsupported_transfer_encoding, read_invalid_content_length, read_out_of_memory, Reader,
}
use cinder_http.Reader.Next.{Finished, http_reader_next_request}
use cinder_http.Reader.Stream.{WhenDone}
use cinder_http.Response.{Response, http_response_init}
use cinder_http.Response.Transmit.{http_response_send}
use cinder_http.Sending.{Sent}
use cinder_http.Stats.{response_sent}
use cinder_http.Config.{Config}
use cinder_http.Client.{Visit, parsing, sending, reading, Reply, Choice, leaves, replies, Visited}
use cinder_http.Client.Round.{
  reply_to_read_error, timed_out_reply, after_read, with_policy, after_send, send_ready, send_reply,
  send_one, after_choice, with_read, after_next, message_of, visit,
}
use cinder_http.Client.Reports.{reports, reports-then, ChoiceReported, after_read-ChoiceReported}
use cinder_http.Client.Descriptors.{with_policy-Untouched}
use cinder_http.Client.Named.{Names, build_static_error_response-Names, after_parse-Names}

abbrev ChoiceNames : Choice → Type 0
ChoiceNames leaves = Unit {0}
ChoiceNames (replies p) = Names p.status p.response

abbrev pub status_of : Option Response → Option ℕ
status_of none = none
status_of (some r) = some r.status_code

module _ (c : Config) (v : Visit) where
  read_error-Names : (status : ℕ) → ChoiceNames (replies (reply_to_read_error c v status))
  unfolding reply_to_read_error
  read_error-Names status =
      build_static_error_response-Names c.document_root v http_response_init status

  timed_out-Names : (idle : Bool) → ChoiceNames (timed_out_reply c v idle)
  unfolding timed_out_reply
  timed_out-Names true = tt
  timed_out-Names false = read_error-Names 408

  after_read-Names : (idle : Bool) (f : Finished) → ChoiceNames (after_read c v idle f)
  unfolding after_read
  after_read-Names idle f = go f.answer
    where
      go : (m : Read Bytes) → ChoiceNames (after_read c v idle (record f { answer = m }))
      go (ok raw) = after_parse-Names c v (http_parse_request (v.alloc parsing) raw)
      go (err client_closed) = tt
      go (err timeout) = timed_out-Names idle
      go (err io_error) = tt
      go (err read_too_large) = read_error-Names _
      go (err read_bad_request) = read_error-Names _
      go (err read_unsupported_transfer_encoding) = read_error-Names _
      go (err read_invalid_content_length) = read_error-Names _
      go (err read_out_of_memory) = read_error-Names _

  abbrev Counted : List Bytes → Option Visited → Type 0
  Counted messages o = WhenDone (λ x. x.events ≡ reports messages (status_of x.answer)) o

  after_send-Counted :
      (messages : List Bytes) (reader : Reader) (p : Reply) (status : ℕ) (force_close : Bool)
      (r : Response) (o : Option Sent)
      → p.events ≡ reports messages none
      → r.status_code ≡ status
      → Counted messages (after_send reader p status force_close r o)
  after_send-Counted messages reader p status force_close r none e n = tt
  after_send-Counted messages reader p status force_close r (some (true, out)) e n =
      ap (λ es. es ++ response_sent status ∷ []) e
      ∙ reports-then messages status
      ∙ ap (λ k. reports messages (some k)) (sym n)
  after_send-Counted messages reader p status force_close r (some (false, out)) e n = e

  send_reply-Counted :
      (messages : List Bytes) (reader : Reader) (p : Reply)
      → p.events ≡ reports messages none
      → Names p.status p.response
      → Counted messages (send_reply c v reader p)
  send_reply-Counted messages reader p e = go p.response_ready p.status
    where
      go :
          (ready : Bool) (status : Option ℕ)
          → Names status p.response
          → Counted messages (send_ready c v reader p ready status)
      go false status n = e
      go true none n = e
      go true (some status) n =
          after_send-Counted messages reader p status (with_policy c v p).0 (with_policy c v p).1
            (http_response_send (v.alloc sending) v.wire (with_policy c v p).1 p.omit_body) e
            ((with_policy-Untouched c v p).status_code ∙ n)

  send_one-Counted :
      (messages : List Bytes) (requests : ℕ) (reader : Reader) (p : Reply)
      → p.events ≡ reports messages none
      → Names p.status p.response
      → Counted messages (send_one c v requests reader p)
  unfolding send_one
  send_one-Counted messages requests reader p e n =
      go (leb http_max_requests_per_connection (requests + 1))
    where
      cut : Reply
      cut = record p { force_close = true; keep_alive = false }

      go : (b : Bool) → Counted messages (send_reply c v reader (if b then cut else p))
      go true = send_reply-Counted messages reader cut e n
      go false = send_reply-Counted messages reader p e n

  -- The statistics are told the truth: a round counts one request if its reader handed one out, and
  -- then, if and only if a response was sent whole, one response, of the status code that stands in
  -- the status line of this very response.
  pub visit_counts :
      (requests : ℕ) (reader : Reader) (x : Visited)
      → visit c v requests reader ≡ some x
      → x.events ≡ reports x.messages (status_of x.answer)
  unfolding visit
  visit_counts requests reader x h =
      subst (WhenDone CountsOwn) h
        (go (http_reader_next_request (v.alloc reading) reader c.request_timeout_sec v.now v.turns))
    where
      CountsOwn : Visited → Type 0
      CountsOwn y = y.events ≡ reports y.messages (status_of y.answer)

      read :
          (f : Finished) (o : Option Visited)
          → Counted (message_of f.answer) o
          → WhenDone CountsOwn (with_read f o)
      read f none e = tt
      read f (some y) e = e

      chosen :
          (f : Finished) (ch : Choice)
          → ChoiceReported (message_of f.answer) ch
          → ChoiceNames ch
          → Counted (message_of f.answer) (after_choice c v requests f.reader ch)
      chosen f leaves e n = sym (ap (λ ms. reports ms none) e)
      chosen f (replies p) e n = send_one-Counted (message_of f.answer) requests f.reader p e n

      go :
          (o : Option Finished)
          → WhenDone CountsOwn (after_next c v requests (is_empty reader.data_bytes) o)
      go none = tt
      go (some f) = read f _ (chosen f _ (after_read-ChoiceReported c v _ f) (after_read-Names _ f))
