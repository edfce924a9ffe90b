-- ===== src/Client/Round.antt =====
-- The body of the loop of `client_handle` in src/client_handler.c.
use cinder_http.Prelude.{
  ℕ, ◌+◌, Bool, true, false, not, ◌&&◌, ◌||◌, List, [], ◌∷◌, ◌++◌, leb, if◌then◌else◌, Option, none,
  some, ok, err, is_empty,
}
use cinder_http.Limits.{http_max_requests_per_connection}
use cinder_http.Text.{Bytes}
use cinder_http.Request.{Method, get, head, Request}
use cinder_http.Parser.Errors.{Parsed}
use cinder_http.Parser.Message.{http_parse_request}
use cinder_http.Reader.{
  Read, client_closed, timeout, read_too_large, io_error, read_bad_request,
  read_unsupported_transfer_encoding, read_invalid_content_length, read_out_of_memory, Reader,
}
use cinder_http.Reader.Next.{Finished, http_reader_next_request}
use cinder_http.Response.{Response, http_response_init, closed_by_destroy}
use cinder_http.Response.Transmit.{http_response_send}
use cinder_http.Connection.{http_request_wants_keep_alive, http_response_apply_connection_policy}
use cinder_http.Router.{RouterResult, handled, router_error, router_is_api_request, router_dispatch}
use cinder_http.Sending.{Sent}
use cinder_http.Stats.{Event, request_received, response_sent}
use cinder_http.Config.{Config}
use cinder_http.Client.{
  Visit, parsing, answering, deciding, retrying, sending, reading, Reply, Choice, leaves, replies,
  Visited,
}
use cinder_http.Client.Status.{
  status_for_read_result, status_for_parse_result, status_requires_close,
}
use cinder_http.Client.Pages.{Built, build_static_error_response, handle_static_get_head}

abbrev pub is_some {ℓ} : {A : Type ℓ} → Option A → Bool
is_some none = false
is_some (some a) = true

abbrev pub is_head : Method → Bool
is_head head = true
is_head _ = false

abbrev pub is_get_or_head : Method → Bool
is_get_or_head get = true
is_get_or_head head = true
is_get_or_head _ = false

abbrev pub requires_close : Option ℕ → Bool
requires_close none = false
requires_close (some status) = status_requires_close status

-- `if (status >= 0 && status_requires_close(status))`.
unfoldable pub close_if_required : Reply → Reply
close_if_required p =
    if requires_close p.status then record p { force_close = true; keep_alive = false } else p

-- The answer to a request: built, with a connection that is to be closed or not.
abbrev pub reply_to : Request → Bool → Built → Reply
reply_to request force_close b = record {
  response = b.response;
  version = request.version;
  omit_body = is_head request.method;
  status = b.status;
  response_ready = is_some b.status;
  keep_alive = http_request_wants_keep_alive request;
  force_close = force_close;
  events = request_received ∷ [];
  closed = b.closed;
}

-- The answer where no request could be taken.
abbrev pub reply_without : Bool → List Event → Built → Reply
reply_without force_close events b = record {
  response = b.response;
  version = none;
  omit_body = false;
  status = b.status;
  response_ready = is_some b.status;
  keep_alive = false;
  force_close = force_close;
  events = events;
  closed = b.closed;
}

-- The end of a round, with the outcome of `http_response_send`.
abbrev pub after_send : Reader → Reply → ℕ → Bool → Response → Option Sent → Option Visited
after_send reader p status force_close r none = none
after_send reader p status force_close r (some (true, out)) = some (record {
  reader = reader;
  received = [];
  messages = [];
  answer = some r;
  out = out;
  events = p.events ++ response_sent status ∷ [];
  closed = p.closed ++ closed_by_destroy r;
  stays = not (force_close || not p.keep_alive);
})
after_send reader p status force_close r (some (false, out)) = some (record {
  reader = reader;
  received = [];
  messages = [];
  answer = none;
  out = out;
  events = p.events;
  closed = p.closed ++ closed_by_destroy r;
  stays = false;
})

abbrev pub unsent : Reader → Reply → Visited
unsent reader p = record {
  reader = reader;
  received = [];
  messages = [];
  answer = none;
  out = [];
  events = p.events;
  closed = p.closed ++ closed_by_destroy p.response;
  stays = false;
}

abbrev pub left : Reader → Visited
left reader = record {
  reader = reader;
  received = [];
  messages = [];
  answer = none;
  out = [];
  events = [];
  closed = [];
  stays = false;
}

abbrev pub message_of : Read Bytes → List Bytes
message_of (ok raw) = raw ∷ []
message_of (err e) = []

abbrev pub with_read : Finished → Option Visited → Option Visited
with_read f none = none
with_read f (some x) = some (record x { received = f.delivered; messages = message_of f.answer })

module _ (c : Config) (v : Visit) where
  abbrev pub error_response : Response → ℕ → Built
  error_response = build_static_error_response c.document_root v

  abbrev pub after_routing : Request → RouterResult × Response → Reply
  after_routing request (handled, r) =
      reply_to request false (record { status = some r.status_code; response = r; closed = [] })
  after_routing request (router_error, r) = reply_to request true (error_response r 500)

  -- From `router_is_api_request` on, without the last test.
  unfoldable pub dispatch_request : Request → Reply
  dispatch_request request =
      if router_is_api_request request
      then after_routing request
          (router_dispatch (v.alloc answering) (some v.stats) request http_response_init)
      else if is_get_or_head request.method
      then reply_to request false (handle_static_get_head c.document_root v request)
      else reply_to request false (error_response http_response_init 405)

  -- From the call of `http_parse_request` on.
  abbrev pub after_parse : Parsed Request → Reply
  after_parse (ok request) = close_if_required (dispatch_request request)
  after_parse (err e) =
      reply_without true (request_received ∷ [])
        (error_response http_response_init (status_for_parse_result {A = Request} (err e)))

  -- A read error that is answered.
  unfoldable pub reply_to_read_error : ℕ → Reply
  reply_to_read_error status =
      let b = error_response http_response_init status in reply_without (is_some b.status) [] b

  unfoldable pub timed_out_reply : Bool → Choice
  timed_out_reply true = leaves
  timed_out_reply false = replies (reply_to_read_error 408)

  -- From the result of `http_reader_next_request` on; the flag says that no byte of a request was
  -- there before the call and none is there after it.
  unfoldable pub after_read : Bool → Finished → Choice
  after_read idle f = elim f.answer [
    | ok raw ↦ replies (after_parse (http_parse_request (v.alloc parsing) raw))
    | err client_closed ↦ leaves
    | err timeout ↦ timed_out_reply idle
    | err io_error ↦ leaves
    | err read_too_large ↦ replies (reply_to_read_error (status_for_read_result read_too_large))
    | err read_bad_request ↦ replies (reply_to_read_error (status_for_read_result read_bad_request))
    | err read_unsupported_transfer_encoding ↦
        replies (reply_to_read_error (status_for_read_result read_unsupported_transfer_encoding))
    | err read_invalid_content_length ↦
        replies (reply_to_read_error (status_for_read_result read_invalid_content_length))
    | err read_out_of_memory ↦
        replies (reply_to_read_error (status_for_read_result read_out_of_memory))
  ]

  -- The Connection header is put in, with a second try if memory is short.
  abbrev pub or_close : Bool → Option Bytes → Bool × Response → Bool × Response
  or_close force_close version (true, r) = (force_close, r)
  or_close force_close version (false, r) =
      (true, (http_response_apply_connection_policy (v.alloc retrying) r false version).1)

  unfoldable pub with_policy : Reply → Bool × Response
  with_policy p = or_close p.force_close p.version (
      http_response_apply_connection_policy (v.alloc deciding) p.response
        (p.keep_alive && not p.force_close) p.version)

  abbrev pub send_ready : Reader → Reply → Bool → Option ℕ → Option Visited
  send_ready reader p true (some status) =
      let (force_close, r) = with_policy p in
      after_send reader p status force_close r
        (http_response_send (v.alloc sending) v.wire r p.omit_body)
  send_ready reader p _ _ = some (unsent reader p)

  abbrev pub send_reply : Reader → Reply → Option Visited
  send_reply reader p = send_ready reader p p.response_ready p.status

  -- From the label on, with the requests before this one.
  unfoldable pub send_one : ℕ → Reader → Reply → Option Visited
  send_one requests reader p = send_reply reader (
      if leb http_max_requests_per_connection (requests + 1)
      then record p { force_close = true; keep_alive = false }
      else p)

  abbrev pub after_choice : ℕ → Reader → Choice → Option Visited
  after_choice requests reader leaves = some (left reader)
  after_choice requests reader (replies p) = send_one requests reader p

  abbrev pub after_next : ℕ → Bool → Option Finished → Option Visited
  after_next requests was_empty none = none
  after_next requests was_empty (some f) =
      with_read f
        (after_choice requests f.reader (after_read (was_empty && is_empty f.reader.data_bytes) f))

  -- One round; `none` as long as it waits for the clock, `poll`, `recv`, `send` or a file.
  unfoldable pub visit : ℕ → Reader → Option Visited
  visit requests reader =
      after_next requests (is_empty reader.data_bytes)
        (http_reader_next_request (v.alloc reading) reader c.request_timeout_sec v.now v.turns)
