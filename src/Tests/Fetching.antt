-- ===== src/Tests/Fetching.antt =====
-- A round of src/client_handler.c that answers a request with a file.
use cinder_http.Prelude.{◌≡◌, refl, false, [], ◌∷◌, ◌++◌, none, some, ok, pos}
use cinder_http.Text.{Bytes, codes}
use cinder_http.Reader.{Reader, Turn, Recv, readable, end_of_stream, http_reader_init}
use cinder_http.Reader.Next.{Finished, http_reader_next_request}
use cinder_http.Request.{Request, get, http_request_init}
use cinder_http.Parser.Message.{http_parse_request}
use cinder_http.StaticFiles.Files.{static_files_serve}
use cinder_http.Response.{Response, memory}
use cinder_http.Response.Transmit.{Wire, file_sent}
use cinder_http.Sending.{Send, sent}
use cinder_http.Stats.{request_received, response_sent}
use cinder_http.Client.{Visit, Reply, Visited}
use cinder_http.Client.Round.{visit, left, send_one}
use cinder_http.Client.Descriptors.{opened_by_messages, visit-closes}
use cinder_http.Tests.Parsing.{granted_all}
use cinder_http.Tests.Reading.{send_up_to}
use cinder_http.Tests.Serving.{site, page}
use cinder_http.Tests.Visiting.{configured, turn_with, open_wire, visit_with}

abbrev file_request : Bytes
file_request = codes "GET /a.txt HTTP/1.0\r\n\r\n"

-- The kernel sends the file in two parts.
abbrev fetches : Visit
fetches = record (visit_with (turn_with (λ space. send_up_to space file_request))) {
  wire = record open_wire {
    file_answers = file_sent 3 ∷ file_sent 2 ∷ [];
    content = λ fd. codes "hello";
  };
}

abbrev file_headers : Bytes
file_headers =
    codes "HTTP/1.1 200 OK\r\nContent-Type: text/plain; charset=utf-8\r\n"
    ++ codes "Connection: close\r\nServer: CinderHTTP/1.0\r\nContent-Length: 5\r\n\r\n"

abbrev fetched : Visited
fetched = record {
  reader = record { data_bytes = []; capacity = 4096 };
  received = file_request;
  messages = file_request ∷ [];
  answer = some (record page {
    headers =
        record { name = codes "Content-Type"; value = codes "text/plain; charset=utf-8" }
        ∷ record { name = codes "Connection"; value = codes "close" }
        ∷ [];
  });
  out = file_headers ++ codes "hello";
  events = request_received ∷ response_sent 200 ∷ [];
  closed = pos 3 ∷ [];
  stays = false;
}

abbrev read_file : Finished
read_file = record {
  answer = ok file_request;
  reader = record { data_bytes = []; capacity = 4096 };
  delivered = file_request;
}

reads_file :
    http_reader_next_request granted_all http_reader_init 10 none fetches.turns ≡ some read_file
unfolding cinder_http.Reader.Next.http_reader_next_request cinder_http.Reader.Next.next_loop
    cinder_http.Reader.Next.before_wait cinder_http.Reader.Next.try_extract_length
    cinder_http.Reader.Next.needed_bytes cinder_http.Parser.Terminator.find_terminator
    cinder_http.Reader.Next.ensure_capacity cinder_http.Reader.grow_from
    cinder_http.Reader.Next.after_ready cinder_http.Reader.wait_readable
    cinder_http.Reader.Next.after_recv cinder_http.Reader.Next.total_length
    cinder_http.Parser.Framing.http_inspect_message_framing cinder_http.Text.strcmp_eq
    cinder_http.Parser.Framing.inspect_after_request_line cinder_http.Parser.Framing.split_lf
    cinder_http.Parser.Framing.strip_cr cinder_http.Parser.Framing.inspect_lines
    cinder_http.Reader.Next.take_message
reads_file = refl

abbrev parsed_file : Request
parsed_file = record http_request_init {
  method = get;
  target = some (codes "/a.txt");
  version = some (codes "HTTP/1.0");
}

parses_file : http_parse_request granted_all file_request ≡ ok parsed_file
unfolding cinder_http.Parser.Terminator.find_terminator
    cinder_http.Parser.Framing.http_inspect_message_framing cinder_http.Text.strcmp_eq
    cinder_http.Parser.Framing.inspect_after_request_line cinder_http.Parser.Framing.split_lf
    cinder_http.Parser.Framing.strip_cr cinder_http.Parser.Framing.inspect_lines
    cinder_http.Parser.Message.http_parse_request cinder_http.Parser.Message.parse_head
    cinder_http.Parser.RequestLine.parse_request_line cinder_http.Parser.RequestLine.request_fields
    cinder_http.Text.memchr cinder_http.Text.has_byte cinder_http.Text.dup_range
    cinder_http.Parser.Tokens.method_token_is_well_formed cinder_http.Text.c_string
    cinder_http.Parser.Tokens.is_token_char cinder_http.Parser.RequestLine.start_request
    cinder_http.Parser.RequestLine.check_method cinder_http.Parser.Tokens.is_supported_method_token
    cinder_http.Parser.RequestLine.check_version cinder_http.Parser.Message.parse_header_lines
    cinder_http.Parser.Message.finish_request cinder_http.Parser.Message.is_some
    cinder_http.Request.find_header cinder_http.Parser.Message.announced_length
    cinder_http.Request.http_method_from_string cinder_http.Text.header_name_equal
    cinder_http.Text.ascii_tolower
parses_file = refl

serves_file : static_files_serve granted_all site (codes "/srv") parsed_file ≡ (ok page, [])
unfolding cinder_http.StaticFiles.Files.static_files_serve
    cinder_http.StaticFiles.Resolve.resolve_target cinder_http.StaticFiles.Resolve.relative_path
    cinder_http.StaticFiles.Paths.static_files_extract_path
    cinder_http.StaticFiles.Paths.path_portion cinder_http.StaticFiles.Paths.static_files_url_decode
    cinder_http.StaticFiles.Paths.decode cinder_http.StaticFiles.Paths.until_query
    cinder_http.StaticFiles.Paths.static_files_normalize_path
    cinder_http.StaticFiles.Paths.add_segments cinder_http.StaticFiles.Paths.split_slash
    cinder_http.StaticFiles.Paths.add_segment cinder_http.StaticFiles.Paths.push_segment
    cinder_http.StaticFiles.FileSystem.canonical_directory
    cinder_http.StaticFiles.Resolve.resolve_relative
    cinder_http.StaticFiles.Resolve.resolve_under_root cinder_http.Text.ascii_tolower
    cinder_http.StaticFiles.Paths.hex_value cinder_http.StaticFiles.Paths.is_hex
    cinder_http.StaticFiles.Resolve.try_index cinder_http.Text.strcmp_eq
    cinder_http.StaticFiles.Within.join_root_relative cinder_http.StaticFiles.Within.print_path
    cinder_http.StaticFiles.Paths.join_slash cinder_http.StaticFiles.Paths.in_order
    cinder_http.StaticFiles.Within.path_is_within_root cinder_http.Text.starts_with
    cinder_http.StaticFiles.FileSystem.stat_resolved
    cinder_http.StaticFiles.Files.fill_file_response cinder_http.Response.http_response_add_header
    cinder_http.Response.http_response_set_file_body cinder_http.Response.http_reason_phrase
    cinder_http.Mime.mime_type_from_path cinder_http.Mime.last_dot cinder_http.Mime.basename_from
    cinder_http.Mime.lookup_type cinder_http.Text.header_name_equal
serves_file = refl

sends_file : visit configured fetches 0 http_reader_init ≡ some fetched
unfolding visit send_one cinder_http.Client.Round.after_read
    cinder_http.Client.Round.close_if_required cinder_http.Client.Round.dispatch_request
    cinder_http.Response.build_with_type cinder_http.Response.http_response_set_body_text
    cinder_http.Response.http_response_add_header cinder_http.Client.Status.status_requires_close
    cinder_http.Response.Transmit.http_response_send
    cinder_http.Response.Serialize.http_response_serialize_headers
    cinder_http.Decimal.format_decimal cinder_http.Decimal.digits_onto
    cinder_http.Client.Round.with_policy
    cinder_http.Connection.http_response_apply_connection_policy
    cinder_http.Connection.http_request_wants_keep_alive
    cinder_http.Connection.http_header_value_has_token
    cinder_http.Response.http_response_remove_header cinder_http.Response.http_reason_phrase
    cinder_http.Response.Serialize.headers_text cinder_http.Response.remove_from
    cinder_http.Response.response_has_header cinder_http.Response.Serialize.headers_total
    cinder_http.Sending.send_all cinder_http.Response.Transmit.send_body cinder_http.Text.strcmp_eq
    cinder_http.Text.memchr cinder_http.Text.has_byte cinder_http.Text.dup_range
    cinder_http.Text.c_string cinder_http.Request.find_header cinder_http.Text.header_name_equal
    cinder_http.Text.ascii_tolower cinder_http.Router.path_has_api_prefix
    cinder_http.Router.path_equals cinder_http.Router.has_prefix
    cinder_http.Client.Pages.handle_static_get_head cinder_http.Response.http_response_set_header
    cinder_http.Connection.any_piece cinder_http.Connection.split_comma
    cinder_http.Response.last_first cinder_http.Response.Transmit.send_file_body
    cinder_http.Response.Transmit.sendfile_loop
sends_file = rw (reads_file, parses_file, serves_file) refl

visit-closes_example : pos 3 ∷ [] ≡ opened_by_messages configured fetches (file_request ∷ [])
visit-closes_example = visit-closes configured fetches 0 http_reader_init fetched sends_file
