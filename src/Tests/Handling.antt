-- ===== src/Tests/Handling.antt =====
-- src/client_handler.c on a connection with one request.
use cinder_http.Prelude.{
  ℕ, zero, suc, ◌≡◌, refl, ap, ◌∙◌, ◌⊎◌, length, true, false, List, [], ◌∷◌, ◌++◌, some, pos,
}
use cinder_http.Text.{Bytes, codes}
use cinder_http.Reader.{Reader, Turn, Recv, readable, end_of_stream, http_reader_init}
use cinder_http.Reader.Next.{Finished, http_reader_next_request}
use cinder_http.Request.{Request, get, http_request_init}
use cinder_http.Response.{Response, memory}
use cinder_http.Response.Transmit.{Wire, file_sent}
use cinder_http.Sending.{Send, sent}
use cinder_http.Stats.{request_received, response_sent, connection_finished}
use cinder_http.Client.{Visit, Reply, Visited}
use cinder_http.Client.Round.{visit, left, send_one}
use cinder_http.Client.Loop.{Session, last_round, and_then, rounds_from, give_up, client_handle}
use cinder_http.Client.Ends.{WaitsIn, after_visit, client_handle_ends}
use cinder_http.Client.Once.{GivenUp, client_handle-GivenUp}
use cinder_http.Client.Told.{Told, send_one-Told}
use cinder_http.Client.Stream.{Pieces, client_handle-Pieces}
use cinder_http.Tests.Visiting.{
  configured, asks, hangs_up, health_request, healthy, healthy_bytes, answered, answers_health,
}

-- One request, and then the client hangs up.
abbrev pub session : Session
session = record {
  rounds = 2;
  received = health_request;
  messages = health_request ∷ [];
  out = healthy_bytes;
  events = request_received ∷ response_sent 200 ∷ connection_finished ∷ [];
  closed = pos 9 ∷ [];
}

hung_up : visit configured hangs_up 1 answered.reader ≡ some (left answered.reader)
unfolding visit cinder_http.Client.Round.after_read cinder_http.Reader.Next.http_reader_next_request
    cinder_http.Reader.Next.next_loop cinder_http.Reader.Next.before_wait
    cinder_http.Reader.Next.try_extract_length cinder_http.Reader.Next.needed_bytes
    cinder_http.Parser.Terminator.find_terminator cinder_http.Reader.Next.ensure_capacity
    cinder_http.Reader.grow_from cinder_http.Reader.Next.after_ready
    cinder_http.Reader.wait_readable cinder_http.Reader.Next.after_recv
    cinder_http.Reader.Next.total_length cinder_http.Parser.Framing.http_inspect_message_framing
    cinder_http.Text.strcmp_eq cinder_http.Parser.Framing.inspect_after_request_line
    cinder_http.Parser.Framing.split_lf cinder_http.Parser.Framing.strip_cr
    cinder_http.Parser.Framing.inspect_lines cinder_http.Reader.Next.take_message
hung_up = refl

then_closed :
    rounds_from configured 1 answered.reader (hangs_up ∷ [])
    ≡ some (last_round (left answered.reader))
unfolding rounds_from
then_closed = ap (after_visit configured 1 []) hung_up

pub one_request : client_handle configured (pos 9) (asks ∷ hangs_up ∷ []) ≡ some session
unfolding client_handle rounds_from
one_request = ap (give_up (pos 9)) (
    ap (after_visit configured 0 (hangs_up ∷ [])) answers_health
    ∙ ap (and_then answered) then_closed)

client_handle-GivenUp_example : GivenUp (pos 9) session
client_handle-GivenUp_example =
    client_handle-GivenUp configured (pos 9) (asks ∷ hangs_up ∷ []) session one_request

client_handle-Pieces_example : Pieces health_request (health_request ∷ [])
client_handle-Pieces_example =
    client_handle-Pieces configured (pos 9) (asks ∷ hangs_up ∷ []) session one_request

asking : ℕ → List Visit
asking zero = []
asking (suc n) = asks ∷ asking n

length-asking : (n : ℕ) → length (asking n) ≡ n
unfolding asking
length-asking zero = refl
length-asking (suc n) = ap suc (length-asking n)

client_handle_ends_example :
    ((s : Session) × (client_handle configured (pos 9) (asking 100) ≡ some s))
    ⊎ WaitsIn configured 0 http_reader_init (asking 100)
client_handle_ends_example = client_handle_ends configured (pos 9) (asking 100) (length-asking 100)

-- A client of HTTP/1.0 that asked for the connection to stay.
abbrev old_reply : Reply
old_reply = record {
  response = record healthy { suppress_auto_connection_close = false };
  version = some (codes "HTTP/1.0");
  omit_body = false;
  status = some 200;
  response_ready = true;
  keep_alive = true;
  force_close = false;
  events = request_received ∷ [];
  closed = [];
}

abbrev told_old : Response
told_old = record healthy {
  headers =
      record { name = codes "Content-Type"; value = codes "application/json" }
      ∷ record { name = codes "Connection"; value = codes "keep-alive" }
      ∷ [];
  suppress_auto_connection_close = false;
}

abbrev kept_old : Visited
kept_old = record answered {
  received = [];
  messages = [];
  reader = http_reader_init;
  answer = some told_old;
  out =
      codes "HTTP/1.1 200 OK\r\nContent-Type: application/json\r\nConnection: keep-alive\r\n"
      ++ codes "Server: CinderHTTP/1.0\r\nContent-Length: 15\r\n\r\n{\"status\":\"ok\"}";
}

keeps_old : send_one configured asks 0 http_reader_init old_reply ≡ some kept_old
unfolding send_one cinder_http.Client.Round.after_read cinder_http.Client.Round.close_if_required
    cinder_http.Client.Round.dispatch_request cinder_http.Response.build_with_type
    cinder_http.Response.http_response_set_body_text cinder_http.Response.http_response_add_header
    cinder_http.Client.Status.status_requires_close cinder_http.Response.Transmit.http_response_send
    cinder_http.Response.Serialize.http_response_serialize_headers
    cinder_http.Decimal.format_decimal cinder_http.Decimal.digits_onto
    cinder_http.Client.Round.with_policy
    cinder_http.Connection.http_response_apply_connection_policy
    cinder_http.Connection.http_request_wants_keep_alive
    cinder_http.Connection.http_header_value_has_token
    cinder_http.Response.http_response_remove_header cinder_http.Response.http_reason_phrase
    cinder_http.Response.Serialize.headers_text cinder_http.Response.remove_from
    cinder_http.Response.response_has_header cinder_http.Response.Serialize.headers_total
    cinder_http.Sending.send_all cinder_http.Response.Transmit.send_body cinder_http.Text.strcmp_eq
    cinder_http.Text.memchr cinder_http.Text.has_byte cinder_http.Text.dup_range
    cinder_http.Text.c_string cinder_http.Request.find_header cinder_http.Text.header_name_equal
    cinder_http.Text.ascii_tolower cinder_http.Router.path_has_api_prefix
    cinder_http.Router.path_equals cinder_http.Router.has_prefix
    cinder_http.Client.Pages.handle_static_get_head cinder_http.Response.http_response_set_header
    cinder_http.Connection.any_piece cinder_http.Connection.split_comma
    cinder_http.Response.last_first cinder_http.Response.Transmit.send_file_body
    cinder_http.Response.Transmit.sendfile_loop
keeps_old = refl

send_one-Told_example : Told asks false (some (codes "HTTP/1.0")) kept_old told_old
send_one-Told_example =
    send_one-Told configured asks 0 http_reader_init old_reply kept_old told_old keeps_old refl
