-- ===== src/Config/Printed.antt =====
-- A configuration written as a command line, and read back by src/config.c.
use cinder_http.Prelude.{
  ℕ, zero, suc, ◌-◌, ◌≤◌, ◌≡◌, refl, sym, ap, ◌∙◌, Bool, true, false, List, [], ◌∷◌, ◌==◌, leb,
  if◌then◌else◌, some, pos, length, take, all, is_empty, arith,
}
use cinder_http.Text.{Bytes, codes, strcmp_eq}
use cinder_http.Decimal.{format_decimal}
use cinder_http.Decimal.RoundTrip.{format_decimal-digits, decimal-format}
use cinder_http.Parser.Tokens.{is_digit}
use cinder_http.Parser.ContentLength.{decimal}
use cinder_http.Config.{
  Config, path_max, NumberOption, port, workers, queue_size, keep_alive_timeout, request_timeout,
  number, parse_ok,
}
use cinder_http.Config.Numbers.{is_space, skip_space, take_digits, long_max, strtol, parse_long}
use cinder_http.Config.Arguments.{
  flag_of, min_of, max_of, in_range, set_number, fits_root, config_parse_args,
}
use cinder_http.Config.Valid.{Range, value_of, IsValid}

take_digits-digits : (s : Bytes) → all is_digit s ≡ true → take_digits s ≡ (s, [])
unfolding take_digits
take_digits-digits [] d = refl
take_digits-digits (c ∷ cs) d =
    let (first, others) : (is_digit c ≡ true) × (all is_digit cs ≡ true) =
      (ground arith, ground arith) in
    rw (first, take_digits-digits cs others) refl

-- A text of digits is read to its end.
parse_long-digits :
    (s : Bytes)
    → all is_digit s ≡ true
    → is_empty s ≡ false
    → decimal s ≤ long_max
    → parse_long s ≡ some (pos (decimal s))
unfolding parse_long strtol skip_space
parse_long-digits [] d e fits = absurd (cc)
parse_long-digits (c ∷ cs) d e fits =
    let no_space : is_space c ≡ false = ground arith in
    let no_minus : c == b'-' ≡ false = ground arith in
    let no_plus : c == b'+' ≡ false = ground arith in
    let small : leb (decimal (c ∷ cs)) long_max ≡ true = ground arith in
    rw (no_space, no_minus, no_plus, take_digits-digits (c ∷ cs) d, small) (ground arith)

parse_long-format : (n : ℕ) → n ≤ long_max → parse_long (format_decimal n) ≡ some (pos n)
parse_long-format n fits =
    let (digits, some_digits) = format_decimal-digits n in
    let value = decimal-format n in
    parse_long-digits (format_decimal n) digits some_digits (omega (arith, value))
    ∙ ap (λ k. some (pos k)) value

-- The options as they are written.
unfoldable pub name_of : NumberOption → Bytes
name_of port = codes "--port"
name_of workers = codes "--workers"
name_of queue_size = codes "--queue-size"
name_of keep_alive_timeout = codes "--keep-alive-timeout"
name_of request_timeout = codes "--request-timeout"

flag_of-name_of : (o : NumberOption) → flag_of (name_of o) ≡ number o
unfolding flag_of name_of strcmp_eq
flag_of-name_of port = refl
flag_of-name_of workers = refl
flag_of-name_of queue_size = refl
flag_of-name_of keep_alive_timeout = refl
flag_of-name_of request_timeout = refl

Range-fits : (o : NumberOption) (n : ℕ) → Range o n → n ≤ long_max
Range-fits port n r = omega (arith, r.1)
Range-fits workers n r = omega (arith, r.1)
Range-fits queue_size n r = omega (arith, r.1)
Range-fits keep_alive_timeout n r = omega (arith, r.1)
Range-fits request_timeout n r = omega (arith, r.1)

in_range-some : (o : NumberOption) (n : ℕ) → Range o n → in_range o (some (pos n)) ≡ some n
unfolding in_range min_of max_of
in_range-some port n (low, high) = ground arith
in_range-some workers n (low, high) = ground arith
in_range-some queue_size n (low, high) = ground arith
in_range-some keep_alive_timeout n (low, high) = ground arith
in_range-some request_timeout n (low, high) = ground arith

take_all : (n : ℕ) (xs : Bytes) → length xs ≤ n → take n xs ≡ xs
take_all zero [] le = refl
take_all zero (x ∷ xs) le = absurd (omega arith)
take_all (suc n) [] le = refl
take_all (suc n) (x ∷ xs) le = ap (◌∷◌ x) (take_all n xs (omega arith))

-- An option with its number, a root and a flag, each taken by one round of the loop.
takes_number :
    (o : NumberOption) (n : ℕ) (c : Config) (arg value : Bytes) (more : List Bytes)
    → flag_of arg ≡ number o
    → in_range o (parse_long value) ≡ some n
    → config_parse_args c (arg ∷ value ∷ more) ≡ config_parse_args (set_number o n c) more
unfolding config_parse_args
takes_number o n c arg value more named ranged = rw (named, ranged, config_parse_args) refl

reads_number :
    (o : NumberOption) (n : ℕ) (c : Config) (more : List Bytes)
    → Range o n
    → config_parse_args c (name_of o ∷ format_decimal n ∷ more)
      ≡ config_parse_args (set_number o n c) more
reads_number o n c more r =
    takes_number o n c (name_of o) (format_decimal n) more (flag_of-name_of o)
      (ap (in_range o) (parse_long-format n (Range-fits o n r)) ∙ in_range-some o n r)

reads_root :
    (path : Bytes) (c : Config) (more : List Bytes)
    → length path ≤ 4095
    → config_parse_args c (codes "--root" ∷ path ∷ more)
      ≡ config_parse_args (record c { document_root = path }) more
unfolding config_parse_args flag_of strcmp_eq
reads_root path c more fits =
    let room : fits_root path ≡ true = ground arith in
    rw (room, config_parse_args)
      (ap (λ p. config_parse_args (record c { document_root = p }) more)
        (take_all (path_max - 1) path fits))

reads_verbose :
    (c : Config) (arg : Bytes) (more : List Bytes)
    → config_parse_args c (codes "--verbose" ∷ arg ∷ more)
      ≡ config_parse_args (record c { verbose = true }) (arg ∷ more)
unfolding config_parse_args flag_of strcmp_eq
reads_verbose c arg more = refl

abbrev number_arguments : NumberOption → Config → List Bytes → List Bytes
number_arguments o c more = name_of o ∷ format_decimal (value_of o c) ∷ more

-- All options of a configuration, each with its value.
abbrev pub print_options : Config → List Bytes
print_options c = number_arguments port c (
    number_arguments workers c (
      number_arguments queue_size c (
        codes "--root"
        ∷ c.document_root
        ∷ number_arguments keep_alive_timeout c (number_arguments request_timeout c []))))

abbrev pub print_arguments : Config → List Bytes
print_arguments c = if c.verbose then codes "--verbose" ∷ print_options c else print_options c

parse-print_options :
    (c d : Config)
    → IsValid c
    → config_parse_args d (print_options c) ≡ (parse_ok, record c { verbose = d.verbose })
unfolding set_number config_parse_args
parse-print_options c d v =
    let m5 : List Bytes = number_arguments request_timeout c [] in
    let m4 : List Bytes = number_arguments keep_alive_timeout c m5 in
    let m3 : List Bytes = codes "--root" ∷ c.document_root ∷ m4 in
    let m2 : List Bytes = number_arguments queue_size c m3 in
    let m1 : List Bytes = number_arguments workers c m2 in
    let d1 : Config = set_number port c.port d in
    let d2 : Config = set_number workers c.worker_count d1 in
    let d3 : Config = set_number queue_size c.queue_capacity d2 in
    let d4 : Config = record d3 { document_root = c.document_root } in
    let d5 : Config = set_number keep_alive_timeout c.keep_alive_timeout_sec d4 in
    reads_number port c.port d m1 (v.ranges port)
    ∙ reads_number workers c.worker_count d1 m2 (v.ranges workers)
    ∙ reads_number queue_size c.queue_capacity d2 m3 (v.ranges queue_size)
    ∙ reads_root c.document_root d3 m4 v.root_fits
    ∙ reads_number keep_alive_timeout c.keep_alive_timeout_sec d4 m5 (v.ranges keep_alive_timeout)
    ∙ reads_number request_timeout c.request_timeout_sec d5 [] (v.ranges request_timeout)

-- A valid configuration, written as options in decimal, is read back exactly, from whatever
-- configuration that is not verbose the parse starts: every valid configuration can be given on the
-- command line, and an option wins over the value before it.
pub config_parse_args-print_arguments :
    (c d : Config)
    → IsValid c
    → d.verbose ≡ false
    → config_parse_args d (print_arguments c) ≡ (parse_ok, c)
config_parse_args-print_arguments c d v quiet = go c.verbose refl
  where
    go :
        (b : Bool)
        → c.verbose ≡ b
        → config_parse_args d (if b then codes "--verbose" ∷ print_options c else print_options c)
          ≡ (parse_ok, c)
    go true e =
        reads_verbose d _ _
        ∙ parse-print_options c (record d { verbose = true }) v
        ∙ ap (λ b. (parse_ok, record c { verbose = b })) (sym e)
    go false e =
        parse-print_options c d v ∙ ap (λ b. (parse_ok, record c { verbose = b })) (quiet ∙ sym e)
