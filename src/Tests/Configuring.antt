-- ===== src/Tests/Configuring.antt =====
-- src/config.c on concrete command lines.
use cinder_http.Prelude.{◌≡◌, refl, true, [], ◌∷◌, none, some, pos, negsuc, arith}
use cinder_http.Text.{codes}
use cinder_http.Config.{
  Config, NumberOption, port, workers, queue_size, keep_alive_timeout, request_timeout, ParseResult,
  parse_ok, parse_help,
}
use cinder_http.Config.Numbers.{parse_long}
use cinder_http.Config.Arguments.{config_set_defaults, config_parse_args}
use cinder_http.Config.Valid.{
  Range, value_of, IsValid, set_defaults-IsValid, config_parse_args-IsValid,
}
use cinder_http.Config.Printed.{print_arguments, config_parse_args-print_arguments}

reads_sign : parse_long (codes " \t+42") ≡ some (pos 42)
unfolding parse_long cinder_http.Config.Numbers.strtol cinder_http.Config.Numbers.take_digits
    cinder_http.Config.Numbers.skip_space cinder_http.Parser.ContentLength.decimal_from
reads_sign = refl

reads_negative : parse_long (codes "-1") ≡ some (negsuc 0)
unfolding parse_long cinder_http.Config.Numbers.strtol cinder_http.Config.Numbers.take_digits
    cinder_http.Config.Numbers.skip_space cinder_http.Parser.ContentLength.decimal_from
reads_negative = refl

refuses_trailing : parse_long (codes "9000x") ≡ none
unfolding parse_long cinder_http.Config.Numbers.strtol cinder_http.Config.Numbers.take_digits
    cinder_http.Config.Numbers.skip_space
refuses_trailing = refl

refuses_empty : parse_long (codes "") ≡ none
unfolding parse_long cinder_http.Config.Numbers.strtol cinder_http.Config.Numbers.take_digits
    cinder_http.Config.Numbers.skip_space
refuses_empty = refl

refuses_overflow : parse_long (codes "9223372036854775808") ≡ none
unfolding parse_long cinder_http.Config.Numbers.strtol cinder_http.Config.Numbers.take_digits
    cinder_http.Config.Numbers.skip_space cinder_http.Parser.ContentLength.decimal_from
refuses_overflow = refl

stops_at_help :
    config_parse_args config_set_defaults (codes "--verbose" ∷ codes "--help" ∷ codes "--oops" ∷ [])
    ≡ (parse_help, record config_set_defaults { verbose = true })
unfolding config_parse_args cinder_http.Config.Arguments.flag_of cinder_http.Text.strcmp_eq
stops_at_help = refl

-- A value beyond the maximum is refused, and the option before it has taken effect.
config_parse_args-IsValid_example :
    IsValid
      (config_parse_args config_set_defaults
        (codes "--port" ∷ codes "9000" ∷ codes "--workers" ∷ codes "257" ∷ [])).1
config_parse_args-IsValid_example =
    config_parse_args-IsValid (codes "--port" ∷ codes "9000" ∷ codes "--workers" ∷ codes "257" ∷ [])
      config_set_defaults set_defaults-IsValid

abbrev chosen : Config
chosen = record {
  port = 65535;
  worker_count = 8;
  queue_capacity = 128;
  document_root = codes "/srv";
  verbose = true;
  keep_alive_timeout_sec = 300;
  request_timeout_sec = 1;
}

chosen-IsValid : IsValid chosen
chosen-IsValid = record { ranges = λ o. range o; root_fits = omega arith }
  where
    range : (o : NumberOption) → Range o (value_of o chosen)
    range port = (omega arith, omega arith)
    range workers = (omega arith, omega arith)
    range queue_size = (omega arith, omega arith)
    range keep_alive_timeout = (omega arith, omega arith)
    range request_timeout = (omega arith, omega arith)

config_parse_args-print_arguments_example :
    config_parse_args config_set_defaults (print_arguments chosen) ≡ (parse_ok, chosen)
config_parse_args-print_arguments_example =
    config_parse_args-print_arguments chosen config_set_defaults chosen-IsValid refl
