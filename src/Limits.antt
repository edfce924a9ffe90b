-- ===== src/Limits.antt =====
-- include/http_limits.h: the bounds on request intake.
use cinder_http.Prelude.{ℕ}

abbrev pub http_max_request_line : ℕ
http_max_request_line = 8192

abbrev pub http_max_header_bytes : ℕ
http_max_header_bytes = 32768

abbrev pub http_max_headers : ℕ
http_max_headers = 100

abbrev pub http_max_body_size : ℕ
http_max_body_size = 1_048_576

-- http_max_header_bytes + http_max_body_size
abbrev pub http_max_message_bytes : ℕ
http_max_message_bytes = 1_081_344

abbrev pub http_max_requests_per_connection : ℕ
http_max_requests_per_connection = 100

abbrev pub http_max_static_file_size : ℕ
http_max_static_file_size = 67_108_864
