-- ===== src/Config/Arguments.antt =====
-- `config_set_defaults` and `config_parse_args` of src/config.c. The arguments are those behind the
-- name of the program.
use cinder_http.Prelude.{
  ℕ, ◌-◌, Bool, true, false, ◌&&◌, List, [], ◌∷◌, leb, if◌then◌else◌, Option, none, some, ℤ, pos,
  negsuc, length, take,
}
use cinder_http.Text.{Bytes, codes, strcmp_eq}
use cinder_http.Config.{
  Config, path_max, NumberOption, port, workers, queue_size, keep_alive_timeout, request_timeout,
  Flag, help, verbose, root, unrecognized, number, ParseResult, parse_ok, parse_help, parse_error,
}
use cinder_http.Config.Numbers.{parse_long}

abbrev pub config_set_defaults : Config
config_set_defaults = record {
  port = 8080;
  worker_count = 4;
  queue_capacity = 64;
  document_root = codes "./public";
  verbose = false;
  keep_alive_timeout_sec = 5;
  request_timeout_sec = 10;
}

unfoldable pub flag_of : Bytes → Flag
flag_of arg =
    if strcmp_eq arg (codes "--help")
    then help
    else if strcmp_eq arg (codes "--verbose")
    then verbose
    else if strcmp_eq arg (codes "--port")
    then number port
    else if strcmp_eq arg (codes "--workers")
    then number workers
    else if strcmp_eq arg (codes "--queue-size")
    then number queue_size
    else if strcmp_eq arg (codes "--root")
    then root
    else if strcmp_eq arg (codes "--keep-alive-timeout")
    then number keep_alive_timeout
    else if strcmp_eq arg (codes "--request-timeout")
    then number request_timeout
    else unrecognized

-- The bounds `CONFIG_MIN_...` and `CONFIG_MAX_...`.
unfoldable pub min_of : NumberOption → ℕ
min_of port = 1
min_of workers = 1
min_of queue_size = 1
min_of keep_alive_timeout = 1
min_of request_timeout = 1

unfoldable pub max_of : NumberOption → ℕ
max_of port = 65535
max_of workers = 256
max_of queue_size = 4096
max_of keep_alive_timeout = 300
max_of request_timeout = 300

-- The test of the range; a negative value is below every minimum.
unfoldable pub in_range : NumberOption → Option ℤ → Option ℕ
in_range o none = none
in_range o (some (negsuc n)) = none
in_range o (some (pos n)) = if leb (min_of o) n && leb n (max_of o) then some n else none

unfoldable pub set_number : NumberOption → ℕ → Config → Config
set_number port n c = record c { port = n }
set_number workers n c = record c { worker_count = n }
set_number queue_size n c = record c { queue_capacity = n }
set_number keep_alive_timeout n c = record c { keep_alive_timeout_sec = n }
set_number request_timeout n c = record c { request_timeout_sec = n }

-- `snprintf` into `document_root`, cut to the size of the buffer.
abbrev pub set_root : Bytes → Config → Config
set_root path c = record c { document_root = take (path_max - 1) path }

abbrev pub fits_root : Bytes → Bool
fits_root path = leb (length path) (path_max - 1)

-- The last argument, behind which no value can stand.
abbrev pub last_argument : Config → Flag → ParseResult × Config
last_argument c help = (parse_help, c)
last_argument c verbose = (parse_ok, record c { verbose = true })
last_argument c root = (parse_error, c)
last_argument c (number o) = (parse_error, c)
last_argument c unrecognized = (parse_error, c)

-- The loop of `config_parse_args` over the arguments that are left.
unfoldable pub config_parse_args : Config → List Bytes → ParseResult × Config
config_parse_args c [] = (parse_ok, c)
config_parse_args c (arg ∷ []) = last_argument c (flag_of arg)
config_parse_args c (arg ∷ value ∷ more) = elim (flag_of arg) [
  | help ↦ (parse_help, c)
  | verbose ↦ config_parse_args (record c { verbose = true }) (value ∷ more)
  | root ↦ elim (fits_root value) [
    | true ↦ config_parse_args (set_root value c) more
    | false ↦ (parse_error, set_root value c)
  ]
  | number o ↦ elim (in_range o (parse_long value)) [
    | none ↦ (parse_error, c)
    | some n ↦ config_parse_args (set_number o n c) more
  ]
  | unrecognized ↦ (parse_error, c)
]
