-- ===== src/Tests/Visiting.antt =====
-- A round of src/client_handler.c that answers a request from the router.
use cinder_http.Prelude.{ℕ, ◌≡◌, refl, true, false, [], ◌∷◌, ◌++◌, none, some}
use cinder_http.Text.{Bytes, codes}
use cinder_http.Reader.{Reader, Turn, Recv, readable, end_of_stream, http_reader_init}
use cinder_http.Reader.Next.{Finished, http_reader_next_request}
use cinder_http.Request.{Request, get, http_request_init}
use cinder_http.Parser.Message.{http_parse_request}
use cinder_http.Response.{Response, memory}
use cinder_http.Response.Transmit.{Wire, file_sent}
use cinder_http.Sending.{Send, sent}
use cinder_http.Stats.{zero_counters, request_received, response_sent}
use cinder_http.Config.{Config}
use cinder_http.Client.{Visit, Reply, Visited}
use cinder_http.Client.Round.{visit, left, send_one}
use cinder_http.Client.Stays.{Continues, visit_stays}
use cinder_http.Client.Reports.{reports}
use cinder_http.Client.Truthful.{status_of, visit_counts}
use cinder_http.Tests.Parsing.{granted_all}
use cinder_http.Tests.Reading.{send_up_to}
use cinder_http.Tests.Serving.{site}

abbrev pub configured : Config
configured = record {
  port = 8080;
  worker_count = 4;
  queue_capacity = 64;
  document_root = codes "/srv";
  verbose = false;
  keep_alive_timeout_sec = 5;
  request_timeout_sec = 10;
}

abbrev pub health_request : Bytes
health_request = codes "GET /api/health HTTP/1.1\r\n\r\n"

abbrev pub turn_with : (ℕ → Recv) → Turn
turn_with recv = record {
  before = none;
  polls = readable ∷ [];
  recv = recv;
  behind = some (record { tv_sec = 5; tv_nsec = 0 });
}

abbrev pub open_wire : Wire
open_wire = record {
  head_answers = sent 1000 ∷ [];
  body_answers = sent 1000 ∷ [];
  file_answers = [];
  lseek_works = true;
  chunks = [];
  content = λ fd. [];
}

abbrev pub visit_with : Turn → Visit
visit_with t = record {
  alloc = λ phase. granted_all;
  now = none;
  turns = t ∷ [];
  fs = site;
  stats = record { initialized = true; counters = zero_counters };
  wire = open_wire;
}

abbrev pub asks : Visit
asks = visit_with (turn_with (λ space. send_up_to space health_request))

abbrev pub hangs_up : Visit
hangs_up = visit_with (turn_with (λ space. end_of_stream))

abbrev pub healthy : Response
healthy = record {
  status_code = 200;
  reason_phrase = some (codes "OK");
  headers = record { name = codes "Content-Type"; value = codes "application/json" } ∷ [];
  body = memory (some (codes "{\"status\":\"ok\"}"));
  body_length = 15;
  suppress_auto_connection_close = true;
}

abbrev pub healthy_bytes : Bytes
healthy_bytes =
    codes "HTTP/1.1 200 OK\r\nContent-Type: application/json\r\n"
    ++ codes "Server: CinderHTTP/1.0\r\nContent-Length: 15\r\n\r\n{\"status\":\"ok\"}"

abbrev pub answered : Visited
answered = record {
  reader = record { data_bytes = []; capacity = 4096 };
  received = health_request;
  messages = health_request ∷ [];
  answer = some healthy;
  out = healthy_bytes;
  events = request_received ∷ response_sent 200 ∷ [];
  closed = [];
  stays = true;
}

pub answers_health : visit configured asks 0 http_reader_init ≡ some answered
unfolding visit cinder_http.Reader.Next.http_reader_next_request cinder_http.Reader.Next.next_loop
    cinder_http.Reader.Next.before_wait cinder_http.Reader.Next.try_extract_length
    cinder_http.Reader.Next.needed_bytes cinder_http.Parser.Terminator.find_terminator
    cinder_http.Reader.Next.ensure_capacity cinder_http.Reader.grow_from
    cinder_http.Reader.Next.after_ready cinder_http.Reader.wait_readable
    cinder_http.Reader.Next.after_recv cinder_http.Reader.Next.total_length
    cinder_http.Parser.Framing.http_inspect_message_framing cinder_http.Text.strcmp_eq
    cinder_http.Parser.Framing.inspect_after_request_line cinder_http.Parser.Framing.split_lf
    cinder_http.Parser.Framing.strip_cr cinder_http.Parser.Framing.inspect_lines
    cinder_http.Client.Round.after_read cinder_http.Reader.Next.take_message
    cinder_http.Client.Round.send_one cinder_http.Parser.Message.http_parse_request
    cinder_http.Parser.Message.parse_head cinder_http.Parser.RequestLine.parse_request_line
    cinder_http.Parser.RequestLine.request_fields cinder_http.Text.memchr cinder_http.Text.has_byte
    cinder_http.Text.dup_range cinder_http.Parser.Tokens.method_token_is_well_formed
    cinder_http.Text.c_string cinder_http.Parser.Tokens.is_token_char
    cinder_http.Parser.RequestLine.start_request cinder_http.Parser.RequestLine.check_method
    cinder_http.Parser.Tokens.is_supported_method_token cinder_http.Parser.RequestLine.check_version
    cinder_http.Parser.Message.parse_header_lines cinder_http.Parser.Message.finish_request
    cinder_http.Parser.Message.is_some cinder_http.Request.find_header
    cinder_http.Parser.Message.announced_length cinder_http.Client.Round.close_if_required
    cinder_http.Client.Round.dispatch_request cinder_http.Router.path_has_api_prefix
    cinder_http.Router.path_equals cinder_http.Router.has_prefix cinder_http.Router.router_dispatch
    cinder_http.Router.dispatch_from cinder_http.Router.method_compatible
    cinder_http.Request.http_method_from_string cinder_http.Router.handle
    cinder_http.Response.build_with_type cinder_http.Response.http_response_set_body_text
    cinder_http.Response.http_response_add_header cinder_http.Client.Status.status_requires_close
    cinder_http.Response.Transmit.http_response_send
    cinder_http.Response.Serialize.http_response_serialize_headers
    cinder_http.Decimal.format_decimal cinder_http.Decimal.digits_onto
    cinder_http.Client.Round.with_policy
    cinder_http.Connection.http_response_apply_connection_policy
    cinder_http.Connection.http_request_wants_keep_alive
    cinder_http.Connection.http_header_value_has_token
    cinder_http.Response.http_response_remove_header cinder_http.Response.http_reason_phrase
    cinder_http.Response.Serialize.headers_text cinder_http.Response.remove_from
    cinder_http.Text.header_name_equal cinder_http.Text.ascii_tolower
    cinder_http.Response.response_has_header cinder_http.Response.Serialize.headers_total
    cinder_http.Sending.send_all cinder_http.Response.Transmit.send_body
answers_health = refl

visit_stays_example : Continues configured asks 0 http_reader_init answered
visit_stays_example = visit_stays configured asks 0 http_reader_init answered answers_health refl

visit_counts_example : answered.events ≡ reports answered.messages (status_of answered.answer)
visit_counts_example = visit_counts configured asks 0 http_reader_init answered answers_health
