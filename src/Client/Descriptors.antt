-- ===== src/Client/Descriptors.antt =====
-- A round of `client_handle` leaks no descriptor.
use cinder_http.Prelude.{
  ℕ, ◌+◌, ◌≡◌, refl, ap, ◌∙◌, subst, Bool, true, false, not, ◌&&◌, List, [], ◌∷◌, ◌++◌, leb,
  if◌then◌else◌, Option, none, some, ok, err, ℤ, is_empty,
}
use cinder_http.Limits.{http_max_requests_per_connection}
use cinder_http.Text.{Bytes}
use cinder_http.Parser.Message.{http_parse_request}
use cinder_http.Reader.{
  Read, client_closed, timeout, read_too_large, io_error, read_bad_request,
  read_unsupported_transfer_encoding, read_invalid_content_length, read_out_of_memory, Reader,
}
use cinder_http.Reader.Next.{Finished, http_reader_next_request}
use cinder_http.Reader.Stream.{WhenDone}
use cinder_http.Response.{
  Response, closed_by_destroy, closed_by_clear, of_option, http_response_init,
}
use cinder_http.Response.Bodies.{Untouched}
use cinder_http.Response.Transmit.{http_response_send}
use cinder_http.Connection.{http_response_apply_connection_policy}
use cinder_http.Connection.Untouched.{policy-Untouched}
use cinder_http.Sending.{Sent}
use cinder_http.Config.{Config}
use cinder_http.Client.{
  Visit, parsing, deciding, retrying, sending, reading, Reply, Choice, leaves, replies, Visited,
}
use cinder_http.Client.Round.{
  reply_to_read_error, timed_out_reply, after_read, or_close, with_policy, after_send, send_ready,
  send_reply, send_one, after_choice, message_of, with_read, after_next, visit,
}
use cinder_http.Client.Opened.{
  opened_by_page, ReplyBalanced, build_static_error_response-Balanced, opened_by_parsed,
  after_parse-Balanced,
}

-- What is opened for the message that a round took, if it took one.
abbrev pub opened_by_messages : Config → Visit → List Bytes → List ℤ
opened_by_messages c v [] = []
opened_by_messages c v (raw ∷ more) =
    opened_by_parsed c v (http_parse_request (v.alloc parsing) raw)

Untouched-trans : (r s t : Response) → Untouched r s → Untouched s t → Untouched r t
Untouched-trans r s t u w = record {
  status_code = w.status_code ∙ u.status_code;
  body = w.body ∙ u.body;
}

module _ (c : Config) (v : Visit) where
  pub with_policy-Untouched : (p : Reply) → Untouched p.response (with_policy c v p).1
  unfolding with_policy
  with_policy-Untouched p =
      go (http_response_apply_connection_policy (v.alloc deciding) p.response keep p.version)
        (policy-Untouched (v.alloc deciding) p.response keep p.version)
    where
      keep : Bool
      keep = p.keep_alive && not p.force_close

      go :
          (q : Bool × Response)
          → Untouched p.response q.1
          → Untouched p.response (or_close c v p.force_close p.version q).1
      go (true, r) u = u
      go (false, r) u =
          Untouched-trans p.response r _ u (policy-Untouched (v.alloc retrying) r false p.version)

  abbrev Closes : List ℤ → Option Visited → Type 0
  Closes opened o = WhenDone (λ x. x.closed ≡ opened) o

  after_send-Closes :
      (reader : Reader) (p : Reply) (status : ℕ) (force_close : Bool) (r : Response)
      (o : Option Sent) (opened : List ℤ)
      → p.closed ++ closed_by_destroy r ≡ opened
      → Closes opened (after_send reader p status force_close r o)
  after_send-Closes reader p status force_close r none opened e = tt
  after_send-Closes reader p status force_close r (some (true, out)) opened e = e
  after_send-Closes reader p status force_close r (some (false, out)) opened e = e

  send_reply-Closes :
      (reader : Reader) (p : Reply) (opened : List ℤ)
      → ReplyBalanced p opened
      → Closes opened (send_reply c v reader p)
  send_reply-Closes reader p opened e = go p.response_ready p.status
    where
      go : (ready : Bool) (status : Option ℕ) → Closes opened (send_ready c v reader p ready status)
      go false status = e
      go true none = e
      go true (some status) =
          after_send-Closes reader p status (with_policy c v p).0 (with_policy c v p).1
            (http_response_send (v.alloc sending) v.wire (with_policy c v p).1 p.omit_body) opened
            (ap (λ b. p.closed ++ of_option (closed_by_clear b)) (with_policy-Untouched p).body ∙ e)

  send_one-Closes :
      (requests : ℕ) (reader : Reader) (p : Reply) (opened : List ℤ)
      → ReplyBalanced p opened
      → Closes opened (send_one c v requests reader p)
  unfolding send_one
  send_one-Closes requests reader p opened e =
      go (leb http_max_requests_per_connection (requests + 1))
    where
      cut : Reply
      cut = record p { force_close = true; keep_alive = false }

      go : (b : Bool) → Closes opened (send_reply c v reader (if b then cut else p))
      go true = send_reply-Closes reader cut opened e
      go false = send_reply-Closes reader p opened e

  abbrev ChoiceBalanced : Choice → List ℤ → Type 0
  ChoiceBalanced leaves opened = [] ≡ opened
  ChoiceBalanced (replies p) opened = ReplyBalanced p opened

  read_error-Balanced :
      (status : ℕ)
      → opened_by_page c.document_root v status ≡ []
      → ReplyBalanced (reply_to_read_error c v status) []
  unfolding reply_to_read_error
  read_error-Balanced status e =
      build_static_error_response-Balanced c.document_root v http_response_init status ∙ e

  timed_out-Balanced : (idle : Bool) → ChoiceBalanced (timed_out_reply c v idle) []
  unfolding timed_out_reply opened_by_page
  timed_out-Balanced true = refl
  timed_out-Balanced false = read_error-Balanced 408 refl

  after_read-Balanced :
      (idle : Bool) (f : Finished)
      → ChoiceBalanced (after_read c v idle f) (opened_by_messages c v (message_of f.answer))
  unfolding after_read opened_by_page cinder_http.Client.Status.status_for_read_result
  after_read-Balanced idle f = go f.answer
    where
      go :
          (m : Read Bytes)
          → ChoiceBalanced
              (after_read c v idle (record f { answer = m }))
              (opened_by_messages c v (message_of m))
      go (ok raw) = after_parse-Balanced c v (http_parse_request (v.alloc parsing) raw)
      go (err client_closed) = refl
      go (err timeout) = timed_out-Balanced idle
      go (err io_error) = refl
      go (err read_too_large) = read_error-Balanced 413 refl
      go (err read_bad_request) = read_error-Balanced 400 refl
      go (err read_unsupported_transfer_encoding) = read_error-Balanced 501 refl
      go (err read_invalid_content_length) = read_error-Balanced 400 refl
      go (err read_out_of_memory) = read_error-Balanced 500 refl

  -- Every descriptor that a round opens is closed in it, exactly once and in the order of opening,
  -- whether it was given up on the way or served, and whether the response was sent or not. What a
  -- round opens is the file that the target of a GET or HEAD request leads to, and /404.html when
  -- there is none; for an API request, another method or an error of reader or parser, nothing.
  pub visit-closes :
      (requests : ℕ) (reader : Reader) (x : Visited)
      → visit c v requests reader ≡ some x
      → x.closed ≡ opened_by_messages c v x.messages
  unfolding visit
  visit-closes requests reader x h =
      subst (WhenDone ClosesOwn) h
        (go (http_reader_next_request (v.alloc reading) reader c.request_timeout_sec v.now v.turns))
    where
      ClosesOwn : Visited → Type 0
      ClosesOwn y = y.closed ≡ opened_by_messages c v y.messages

      read :
          (f : Finished) (o : Option Visited)
          → Closes (opened_by_messages c v (message_of f.answer)) o
          → WhenDone ClosesOwn (with_read f o)
      read f none e = tt
      read f (some y) e = e

      chosen :
          (f : Finished) (ch : Choice)
          → ChoiceBalanced ch (opened_by_messages c v (message_of f.answer))
          → Closes
              (opened_by_messages c v (message_of f.answer))
              (after_choice c v requests f.reader ch)
      chosen f leaves e = e
      chosen f (replies p) e = send_one-Closes requests f.reader p _ e

      go :
          (o : Option Finished)
          → WhenDone ClosesOwn (after_next c v requests (is_empty reader.data_bytes) o)
      go none = tt
      go (some f) = read f _ (chosen f _ (after_read-Balanced _ f))
