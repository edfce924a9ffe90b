-- ===== src/Config.antt =====
-- src/config.c and include/config.h: the configuration and the command line.
pub mod Numbers
pub mod Arguments
pub mod Valid
pub mod Printed
use cinder_http.Prelude.{ℕ, Bool}
use cinder_http.Text.{Bytes}

-- `server_config_t`. Its numbers are never negative; `document_root` is a C string in a buffer.
pub record Config : Type 0 where
  pub port : ℕ
  pub worker_count : ℕ
  pub queue_capacity : ℕ
  pub document_root : Bytes
  pub verbose : Bool
  pub keep_alive_timeout_sec : ℕ
  pub request_timeout_sec : ℕ

-- `PATH_MAX`, as Linux has it.
abbrev pub path_max : ℕ
path_max = 4096

-- The options that take a number.
pub data NumberOption : Type 0 where
  port workers queue_size keep_alive_timeout request_timeout : NumberOption

-- What an argument is compared with.
pub data Flag : Type 0 where
  help verbose root unrecognized : Flag
  number : NumberOption → Flag

-- `config_parse_result_t`.
pub data ParseResult : Type 0 where
  parse_ok parse_help parse_error : ParseResult
