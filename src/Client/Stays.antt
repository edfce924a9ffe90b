-- ===== src/Client/Stays.antt =====
-- When `client_handle` reads on from a connection.
use cinder_http.Prelude.{
  ℕ, ◌+◌, ◌<◌, ◌≡◌, ◌≢◌, refl, sym, ap, subst, ◌∙◌, Bool, true, false, [], ◌∷◌, ◌++◌, Option, none,
  some, ok, err, is_empty,
}
use cinder_http.Limits.{http_max_requests_per_connection}
use cinder_http.Text.{Bytes}
use cinder_http.Request.{Request}
use cinder_http.Parser.Errors.{Parsed}
use cinder_http.Parser.Message.{http_parse_request}
use cinder_http.Reader.{
  Read, client_closed, timeout, read_too_large, io_error, read_bad_request,
  read_unsupported_transfer_encoding, read_invalid_content_length, read_out_of_memory, Reader,
}
use cinder_http.Reader.Next.{Finished, http_reader_next_request}
use cinder_http.Reader.Stream.{WhenDone}
use cinder_http.Connection.{http_request_wants_keep_alive}
use cinder_http.Stats.{request_received, response_sent}
use cinder_http.Config.{Config}
use cinder_http.Client.{Visit, parsing, reading, Reply, Choice, leaves, replies, Visited}
use cinder_http.Client.Status.{status_requires_close}
use cinder_http.Client.Round.{
  dispatch_request, after_parse, reply_to_read_error, timed_out_reply, after_read, send_one,
  after_choice, with_read, after_next, visit, requires_close,
}
use cinder_http.Client.Replies.{
  Answered, StaysBy, send_one-StaysBy, dispatch_request-AnswersTo, OpenFor,
  close_if_required-OpenFor,
}

-- The request behind a reply that is kept open, from the bytes that the reader handed out.
record Taken (v : Visit) (f : Finished) (p : Reply) : Type 0 where
  raw : Bytes
  read : f.answer ≡ ok raw
  request : Request
  parsed : http_parse_request (v.alloc parsing) raw ≡ ok request
  open_for : OpenFor request p

abbrev ChoiceTaken : Visit → Finished → Choice → Type 0
ChoiceTaken v f leaves = Unit {0}
ChoiceTaken v f (replies p) = p.keep_alive ≡ true → Taken v f p

-- None of the status codes that make the rest of the stream unsafe.
abbrev pub Harmless : ℕ → Type 0
Harmless status =
    (status ≢ 400)
    × (status ≢ 408)
    × (status ≢ 413)
    × (status ≢ 500)
    × (status ≢ 501)
    × (status ≢ 505)

differs :
    (status k : ℕ)
    → status_requires_close k ≡ true
    → status_requires_close status ≡ false
    → status ≢ k
differs status k closes kept e =
    absurd (let both : true ≡ false = sym closes ∙ sym (ap status_requires_close e) ∙ kept in cc)

status_requires_close-Harmless :
    (status : ℕ) → status_requires_close status ≡ false → Harmless status
unfolding status_requires_close
status_requires_close-Harmless status kept = (
  differs status 400 refl kept,
  differs status 408 refl kept,
  differs status 413 refl kept,
  differs status 500 refl kept,
  differs status 501 refl kept,
  differs status 505 refl kept,
)

-- Behind a round that lets the connection stay: what was read, parsed, answered and counted.
pub record Continues (c : Config) (v : Visit) (requests : ℕ) (reader : Reader) (x : Visited)
    : Type 0 where
  pub finished : Finished
  pub returned :
      http_reader_next_request (v.alloc reading) reader c.request_timeout_sec v.now v.turns
      ≡ some finished
  pub raw : Bytes
  pub read : finished.answer ≡ ok raw
  pub request : Request
  pub parsed : http_parse_request (v.alloc parsing) raw ≡ ok request
  pub wanted : http_request_wants_keep_alive request ≡ true
  pub below : requests + 1 < http_max_requests_per_connection
  pub answered : Answered (request_received ∷ []) x
  pub harmless : Harmless answered.status

module _ (c : Config) (v : Visit) where
  after_parse-Taken :
      (raw : Bytes) (f : Finished) (m : Parsed Request)
      → f.answer ≡ ok raw
      → http_parse_request (v.alloc parsing) raw ≡ m
      → ChoiceTaken v f (replies (after_parse c v m))
  after_parse-Taken raw f (ok request) read parsed = λ kept. record {
    raw = raw;
    read = read;
    request = request;
    parsed = parsed;
    open_for =
        close_if_required-OpenFor request (dispatch_request c v request)
          (dispatch_request-AnswersTo c v request) kept;
  }
  after_parse-Taken raw f (err e) read parsed = λ kept. absurd (cc)

  reply_to_read_error-ChoiceTaken :
      (f : Finished) (status : ℕ) → ChoiceTaken v f (replies (reply_to_read_error c v status))
  unfolding reply_to_read_error
  reply_to_read_error-ChoiceTaken f status = λ kept. absurd (cc)

  timed_out_reply-ChoiceTaken :
      (f : Finished) (idle : Bool) → ChoiceTaken v f (timed_out_reply c v idle)
  unfolding timed_out_reply
  timed_out_reply-ChoiceTaken f true = tt
  timed_out_reply-ChoiceTaken f false = reply_to_read_error-ChoiceTaken f 408

  after_read-ChoiceTaken : (idle : Bool) (f : Finished) → ChoiceTaken v f (after_read c v idle f)
  unfolding after_read
  after_read-ChoiceTaken idle f = go f.answer refl
    where
      go :
          (m : Read Bytes)
          → f.answer ≡ m
          → ChoiceTaken v f (after_read c v idle (record f { answer = m }))
      go (ok raw) e = after_parse-Taken raw f (http_parse_request (v.alloc parsing) raw) e refl
      go (err client_closed) e = tt
      go (err timeout) e = timed_out_reply-ChoiceTaken f idle
      go (err io_error) e = tt
      go (err read_too_large) e = reply_to_read_error-ChoiceTaken f _
      go (err read_bad_request) e = reply_to_read_error-ChoiceTaken f _
      go (err read_unsupported_transfer_encoding) e = reply_to_read_error-ChoiceTaken f _
      go (err read_invalid_content_length) e = reply_to_read_error-ChoiceTaken f _
      go (err read_out_of_memory) e = reply_to_read_error-ChoiceTaken f _

  abbrev StaysContinues : ℕ → Reader → Option Visited → Type 0
  StaysContinues requests reader o =
      WhenDone (λ x. x.stays ≡ true → Continues c v requests reader x) o

  after_choice-Continues :
      (requests : ℕ) (reader : Reader) (f : Finished) (ch : Choice)
      → http_reader_next_request (v.alloc reading) reader c.request_timeout_sec v.now v.turns
        ≡ some f
      → ChoiceTaken v f ch
      → StaysContinues requests reader (with_read f (after_choice c v requests f.reader ch))
  after_choice-Continues requests reader f leaves e taken = λ stays. absurd (cc)
  after_choice-Continues requests reader f (replies p) e taken =
      go (send_one c v requests f.reader p) (send_one-StaysBy c v requests f.reader p)
    where
      go :
          (o : Option Visited)
          → WhenDone
              (λ x.
                x.stays ≡ true → (requests + 1 < http_max_requests_per_connection) × StaysBy p x)
              o
          → StaysContinues requests reader (with_read f o)
      go none w = tt
      go (some x) w = λ stays.
          let (below, by) = w stays in
          let t = taken by.kept in
          record {
            finished = f;
            returned = e;
            raw = t.raw;
            read = t.read;
            request = t.request;
            parsed = t.parsed;
            wanted = t.open_for.wanted;
            below = below;
            answered = record {
              response = by.answered.response;
              answered = by.answered.answered;
              status = by.answered.status;
              counted =
                  by.answered.counted
                  ∙ ap (λ es. es ++ response_sent by.answered.status ∷ []) t.open_for.received;
            };
            harmless =
                status_requires_close-Harmless by.answered.status
                  (sym (ap requires_close by.same_status) ∙ t.open_for.harmless);
          }

  -- The handler reads on from a connection only behind a round in which a whole request was read and
  -- parsed, the request asks for the connection to stay, it is not the last that the limit allows,
  -- and a response to it, of a status other than 400, 408, 413, 500, 501 and 505, has been sent whole
  -- and is counted once. Behind every error of the reader, the parser or the transmission, the
  -- connection ends.
  pub visit_stays :
      (requests : ℕ) (reader : Reader) (x : Visited)
      → visit c v requests reader ≡ some x
      → x.stays ≡ true
      → Continues c v requests reader x
  unfolding visit
  visit_stays requests reader x h stays =
      subst (StaysContinues requests reader) h
        (go (http_reader_next_request (v.alloc reading) reader c.request_timeout_sec v.now v.turns)
          refl)
        stays
    where
      go :
          (o : Option Finished)
          → http_reader_next_request (v.alloc reading) reader c.request_timeout_sec v.now v.turns
            ≡ o
          → StaysContinues requests reader (after_next c v requests (is_empty reader.data_bytes) o)
      go none e = tt
      go (some f) e = after_choice-Continues requests reader f _ e (after_read-ChoiceTaken _ f)
