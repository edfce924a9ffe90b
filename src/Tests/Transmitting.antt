-- ===== src/Tests/Transmitting.antt =====
-- `send_all` of src/utils.c and `http_response_send` of src/http_response.c on a slow socket.
use cinder_http.Prelude.{
  ℕ, zero, suc, ◌≡◌, refl, ap, true, false, List, [], ◌∷◌, ◌++◌, some, pos, length, arith,
}
use cinder_http.Text.{Bytes, codes}
use cinder_http.Response.{Response, http_response_init, memory, file}
use cinder_http.Response.Serialize.{http_response_serialize_headers}
use cinder_http.Response.Transmit.{
  Wire, file_unsupported, chunk_read, read_failed, http_response_send,
}
use cinder_http.Response.Transmit.Exact.{IsSent, http_response_send-IsSent}
use cinder_http.Response.Transmit.Ends.{Answers, http_response_send-returns}
use cinder_http.Sending.{Send, sent, send_interrupted, Sent, NotInterrupted, send_all}
use cinder_http.Tests.Parsing.{granted_all}

sends_in_parts :
    send_all (codes "hello") (sent 2 ∷ send_interrupted ∷ sent 3 ∷ []) ≡ some (true, codes "hello")
unfolding send_all
sends_in_parts = refl

-- A file of which the header section announces five bytes.
abbrev greeting : Response
greeting = record http_response_init { body = file (pos 3); body_length = 5 }

abbrev greeting_headers : Bytes
greeting_headers =
    codes "HTTP/1.1 500 Internal Server Error\r\nServer: CinderHTTP/1.0\r\n"
    ++ codes "Connection: close\r\nContent-Length: 5\r\n\r\n"

serializes_greeting : http_response_serialize_headers granted_all greeting ≡ some greeting_headers
unfolding http_response_serialize_headers cinder_http.Decimal.format_decimal
    cinder_http.Decimal.digits_onto cinder_http.Response.http_reason_phrase
    cinder_http.Response.Serialize.headers_text cinder_http.Response.response_has_header
    cinder_http.Response.Serialize.headers_total
serializes_greeting = refl

-- `sendfile` is not there, and the portable copy reads and sends in parts.
abbrev without_sendfile : Wire
without_sendfile = record {
  head_answers = sent 1000 ∷ [];
  body_answers = [];
  file_answers = file_unsupported ∷ [];
  lseek_works = true;
  chunks = chunk_read 3 (sent 1 ∷ send_interrupted ∷ sent 2 ∷ []) ∷ chunk_read 9 (sent 9 ∷ []) ∷ [];
  content = λ fd. codes "hello, world";
}

sends_greeting :
    http_response_send granted_all without_sendfile greeting false
    ≡ some (true, greeting_headers ++ codes "hello")
unfolding http_response_send http_response_serialize_headers cinder_http.Decimal.format_decimal
    cinder_http.Decimal.digits_onto cinder_http.Response.http_reason_phrase
    cinder_http.Response.Serialize.headers_text cinder_http.Response.response_has_header
    cinder_http.Response.Serialize.headers_total send_all cinder_http.Response.Transmit.send_body
    cinder_http.Response.Transmit.send_file_body cinder_http.Response.Transmit.sendfile_loop
    cinder_http.Response.Transmit.copy_loop
sends_greeting = refl

http_response_send-IsSent_example :
    IsSent without_sendfile greeting false greeting_headers
      (true, greeting_headers ++ codes "hello")
http_response_send-IsSent_example =
    http_response_send-IsSent granted_all without_sendfile greeting false greeting_headers
      (true, greeting_headers ++ codes "hello") serializes_greeting sends_greeting

-- A socket that takes a byte at a time.
bytewise : ℕ → List Send
bytewise zero = []
bytewise (suc n) = sent 1 ∷ bytewise n

length-bytewise : (n : ℕ) → length (bytewise n) ≡ n
unfolding bytewise
length-bytewise zero = refl
length-bytewise (suc n) = ap suc (length-bytewise n)

bytewise-NotInterrupted : (n : ℕ) → NotInterrupted (bytewise n)
unfolding bytewise
bytewise-NotInterrupted zero = tt
bytewise-NotInterrupted (suc n) = (λ e. cc, bytewise-NotInterrupted n)

abbrev hi : Response
hi = record greeting { body = memory (some (codes "hi")); body_length = 2 }

abbrev hi_headers : Bytes
hi_headers =
    codes "HTTP/1.1 500 Internal Server Error\r\nServer: CinderHTTP/1.0\r\n"
    ++ codes "Connection: close\r\nContent-Length: 2\r\n\r\n"

serializes_hi : http_response_serialize_headers granted_all hi ≡ some hi_headers
unfolding http_response_serialize_headers cinder_http.Decimal.format_decimal
    cinder_http.Decimal.digits_onto cinder_http.Response.http_reason_phrase
    cinder_http.Response.Serialize.headers_text cinder_http.Response.response_has_header
    cinder_http.Response.Serialize.headers_total
serializes_hi = refl

abbrev slow_wire : Wire
slow_wire = record {
  head_answers = bytewise 200;
  body_answers = bytewise 2;
  file_answers = file_unsupported ∷ file_unsupported ∷ [];
  lseek_works = true;
  chunks = read_failed ∷ read_failed ∷ [];
  content = λ fd. [];
}

slow_wire-Answers : Answers slow_wire hi_headers 2
slow_wire-Answers = record {
  head_served = bytewise-NotInterrupted 200;
  head_enough = omega (arith, length-bytewise 200);
  body_served = bytewise-NotInterrupted 2;
  body_enough = omega (arith, length-bytewise 2);
  file_served = (λ e. cc, (λ e. cc, tt));
  file_enough = omega arith;
  chunks_served = tt;
  chunks_enough = omega arith;
}

http_response_send-returns_example :
    (s : Sent) × (http_response_send granted_all slow_wire hi false ≡ some s)
http_response_send-returns_example =
    http_response_send-returns granted_all slow_wire hi false hi_headers serializes_hi
      slow_wire-Answers
