-- ===== src/Clock.antt =====
-- `struct timespec` and the arithmetic on it in src/connection_queue.c and src/http_reader.c. Both
-- clocks count up from a non-negative origin.
pub mod Laws
use cinder_http.Prelude.{
  ℕ, ◌+◌, ◌-◌, ◌*◌, ◌/◌, ◌%◌, Bool, true, false, not, ◌==◌, ltb, leb, if◌then◌else◌, Option, none,
  some,
}

pub record Timespec : Type 0 where
  pub tv_sec : ℕ
  pub tv_nsec : ℕ

abbrev pub nsec_per_sec : ℕ
nsec_per_sec = 1_000_000_000

unfoldable pub timespec_add_ms : Timespec → ℕ → Timespec
timespec_add_ms ts ms =
    let sec = ts.tv_sec + ms / 1000 in
    let nsec = ts.tv_nsec + ms % 1000 * 1_000_000 in
    if leb nsec_per_sec nsec
    then record { tv_sec = sec + 1; tv_nsec = nsec - nsec_per_sec }
    else record { tv_sec = sec; tv_nsec = nsec }

unfoldable pub timespec_before : Timespec → Timespec → Bool
timespec_before a b =
    if not (a.tv_sec == b.tv_sec) then ltb a.tv_sec b.tv_sec else ltb a.tv_nsec b.tv_nsec

-- The milliseconds of the difference: the borrow of a second, the clamps, and the division that
-- drops what is below a millisecond. The source's differences are signed; here `now` is before
-- `deadline`, so the seconds do not go below 0, and the borrow is taken before the subtraction.
unfoldable pub remaining_ms : Timespec → Timespec → ℕ
remaining_ms now deadline =
    let borrow = ltb deadline.tv_nsec now.tv_nsec in
    let sec = if borrow then deadline.tv_sec - now.tv_sec - 1 else deadline.tv_sec - now.tv_sec in
    let nsec =
      if borrow
      then deadline.tv_nsec + nsec_per_sec - now.tv_nsec
      else deadline.tv_nsec - now.tv_nsec in
    if ltb 1000 sec then 1_000_000 else sec * 1000 + nsec / 1_000_000

-- `remaining_timeout_ms`; `none` is a failure of `clock_gettime`. Its last clamp, at 2147483647,
-- is out of reach behind the one at 1000 seconds.
unfoldable pub remaining_timeout_ms : Timespec → Option Timespec → ℕ
remaining_timeout_ms deadline none = 1000
remaining_timeout_ms deadline (some now) =
    if not (timespec_before now deadline) then 0 else remaining_ms now deadline
