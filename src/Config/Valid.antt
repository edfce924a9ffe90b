-- ===== src/Config/Valid.antt =====
-- What src/config.c guarantees of a configuration.
use cinder_http.Prelude.{
  ℕ, ◌≤◌, ◌≡◌, refl, Bool, true, false, List, [], ◌∷◌, Option, none, some, ℤ, pos, negsuc, length,
  length-take, arith,
}
use cinder_http.Text.{Bytes}
use cinder_http.Config.{
  Config, NumberOption, port, workers, queue_size, keep_alive_timeout, request_timeout, Flag, help,
  verbose, root, unrecognized, number, ParseResult, parse_help, parse_error,
}
use cinder_http.Config.Numbers.{parse_long}
use cinder_http.Config.Arguments.{
  config_set_defaults, flag_of, min_of, max_of, in_range, set_number, set_root, fits_root,
  last_argument, config_parse_args,
}

-- What the rest of the program relies on: a port for `htons`, at least one worker and one place in
-- the queue, and times that end.
abbrev pub Range : NumberOption → ℕ → Type 0
Range port n = (1 ≤ n) × (n ≤ 65535)
Range workers n = (1 ≤ n) × (n ≤ 256)
Range queue_size n = (1 ≤ n) × (n ≤ 4096)
Range keep_alive_timeout n = (1 ≤ n) × (n ≤ 300)
Range request_timeout n = (1 ≤ n) × (n ≤ 300)

abbrev pub value_of : NumberOption → Config → ℕ
value_of port c = c.port
value_of workers c = c.worker_count
value_of queue_size c = c.queue_capacity
value_of keep_alive_timeout c = c.keep_alive_timeout_sec
value_of request_timeout c = c.request_timeout_sec

-- The document root fits its buffer with its NUL.
pub record IsValid (c : Config) : Type 0 where
  pub ranges : (o : NumberOption) → Range o (value_of o c)
  pub root_fits : length c.document_root ≤ 4095

in_range-Range : (o : NumberOption) (m : Option ℤ) (n : ℕ) → in_range o m ≡ some n → Range o n
unfolding in_range min_of max_of
in_range-Range o none n h = absurd (cc)
in_range-Range o (some (negsuc k)) n h = absurd (cc)
in_range-Range port (some (pos k)) n h = ground arith
in_range-Range workers (some (pos k)) n h = ground arith
in_range-Range queue_size (some (pos k)) n h = ground arith
in_range-Range keep_alive_timeout (some (pos k)) n h = ground arith
in_range-Range request_timeout (some (pos k)) n h = ground arith

-- One number is set, and the others stay.
set_number-Range :
    (o p : NumberOption) (n : ℕ) (c : Config)
    → ((q : NumberOption) → Range q (value_of q c))
    → Range o n
    → Range p (value_of p (set_number o n c))
unfolding set_number
set_number-Range port port n c v r = r
set_number-Range port workers n c v r = v workers
set_number-Range port queue_size n c v r = v queue_size
set_number-Range port keep_alive_timeout n c v r = v keep_alive_timeout
set_number-Range port request_timeout n c v r = v request_timeout
set_number-Range workers port n c v r = v port
set_number-Range workers workers n c v r = r
set_number-Range workers queue_size n c v r = v queue_size
set_number-Range workers keep_alive_timeout n c v r = v keep_alive_timeout
set_number-Range workers request_timeout n c v r = v request_timeout
set_number-Range queue_size port n c v r = v port
set_number-Range queue_size workers n c v r = v workers
set_number-Range queue_size queue_size n c v r = r
set_number-Range queue_size keep_alive_timeout n c v r = v keep_alive_timeout
set_number-Range queue_size request_timeout n c v r = v request_timeout
set_number-Range keep_alive_timeout port n c v r = v port
set_number-Range keep_alive_timeout workers n c v r = v workers
set_number-Range keep_alive_timeout queue_size n c v r = v queue_size
set_number-Range keep_alive_timeout keep_alive_timeout n c v r = r
set_number-Range keep_alive_timeout request_timeout n c v r = v request_timeout
set_number-Range request_timeout port n c v r = v port
set_number-Range request_timeout workers n c v r = v workers
set_number-Range request_timeout queue_size n c v r = v queue_size
set_number-Range request_timeout keep_alive_timeout n c v r = v keep_alive_timeout
set_number-Range request_timeout request_timeout n c v r = r

set_number-root :
    (o : NumberOption) (n : ℕ) (c : Config) → (set_number o n c).document_root ≡ c.document_root
unfolding set_number
set_number-root port n c = refl
set_number-root workers n c = refl
set_number-root queue_size n c = refl
set_number-root keep_alive_timeout n c = refl
set_number-root request_timeout n c = refl

set_number-IsValid :
    (o : NumberOption) (n : ℕ) (c : Config) → Range o n → IsValid c → IsValid (set_number o n c)
set_number-IsValid o n c r v = record {
  ranges = λ p. set_number-Range o p n c v.ranges r;
  root_fits = rw (set_number-root o n c) v.root_fits;
}

set_root-IsValid : (path : Bytes) (c : Config) → IsValid c → IsValid (set_root path c)
set_root-IsValid path c v = record {
  ranges = λ p. other p;
  root_fits = omega (arith, length-take 4095 path);
}
  where
    other : (p : NumberOption) → Range p (value_of p (set_root path c))
    other port = v.ranges port
    other workers = v.ranges workers
    other queue_size = v.ranges queue_size
    other keep_alive_timeout = v.ranges keep_alive_timeout
    other request_timeout = v.ranges request_timeout

verbose-IsValid : (c : Config) → IsValid c → IsValid (record c { verbose = true })
verbose-IsValid c v = record { ranges = λ p. other p; root_fits = v.root_fits }
  where
    other : (p : NumberOption) → Range p (value_of p (record c { verbose = true }))
    other port = v.ranges port
    other workers = v.ranges workers
    other queue_size = v.ranges queue_size
    other keep_alive_timeout = v.ranges keep_alive_timeout
    other request_timeout = v.ranges request_timeout

pub set_defaults-IsValid : IsValid config_set_defaults
set_defaults-IsValid = record { ranges = λ p. default p; root_fits = omega arith }
  where
    default : (p : NumberOption) → Range p (value_of p config_set_defaults)
    default port = (omega arith, omega arith)
    default workers = (omega arith, omega arith)
    default queue_size = (omega arith, omega arith)
    default keep_alive_timeout = (omega arith, omega arith)
    default request_timeout = (omega arith, omega arith)

last_argument-IsValid : (c : Config) (f : Flag) → IsValid c → IsValid (last_argument c f).1
last_argument-IsValid c help v = v
last_argument-IsValid c verbose v = verbose-IsValid c v
last_argument-IsValid c root v = v
last_argument-IsValid c (number o) v = v
last_argument-IsValid c unrecognized v = v

-- Whatever the arguments are, and whether they are accepted or not, a valid configuration is left
-- valid: every number stays within the bounds that the server relies on, for all that `strtol` makes
-- of the texts, and the document root fits its buffer.
pub config_parse_args-IsValid :
    (args : List Bytes) (c : Config) → IsValid c → IsValid (config_parse_args c args).1
unfolding config_parse_args
config_parse_args-IsValid [] c v = v
config_parse_args-IsValid (arg ∷ []) c v = last_argument-IsValid c (flag_of arg) v
config_parse_args-IsValid (arg ∷ value ∷ more) c v =
    go (flag_of arg)
      (config_parse_args-IsValid (value ∷ more) (record c { verbose = true }) (verbose-IsValid c v))
      (config_parse_args-IsValid more (set_root value c) (set_root-IsValid value c v))
      (λ o n r. config_parse_args-IsValid more (set_number o n c) (set_number-IsValid o n c r v))
  where
    go :
        (f : Flag)
        → IsValid (config_parse_args (record c { verbose = true }) (value ∷ more)).1
        → IsValid (config_parse_args (set_root value c) more).1
        → ((o : NumberOption) (n : ℕ)
            → Range o n
            → IsValid (config_parse_args (set_number o n c) more).1)
        → let p : ParseResult × Config = elim f [
          | help ↦ (parse_help, c)
          | verbose ↦ config_parse_args (record c { verbose = true }) (value ∷ more)
          | root ↦ elim (fits_root value) [
            | true ↦ config_parse_args (set_root value c) more
            | false ↦ (parse_error, set_root value c)
          ]
          | number o ↦ elim (in_range o (parse_long value)) [
            | none ↦ (parse_error, c)
            | some n ↦ config_parse_args (set_number o n c) more
          ]
          | unrecognized ↦ (parse_error, c)
        ] in
          IsValid p.1
    go help by_verbose by_root by_number = v
    go verbose by_verbose by_root by_number = by_verbose
    go root by_verbose by_root by_number = rooted (fits_root value)
      where
        rooted :
            (b : Bool)
            → let p : ParseResult × Config = elim b [
              | true ↦ config_parse_args (set_root value c) more
              | false ↦ (parse_error, set_root value c)
            ] in
              IsValid p.1
        rooted true = by_root
        rooted false = set_root-IsValid value c v
    go (number o) by_verbose by_root by_number = taken (in_range o (parse_long value)) refl
      where
        taken :
            (m : Option ℕ)
            → in_range o (parse_long value) ≡ m
            → let p : ParseResult × Config = elim m [
              | none ↦ (parse_error, c)
              | some n ↦ config_parse_args (set_number o n c) more
            ] in
              IsValid p.1
        taken none e = v
        taken (some n) e = by_number o n (in_range-Range o (parse_long value) n e)
    go unrecognized by_verbose by_root by_number = v
