-- ===== src/Clock/Laws.antt =====
-- What the clock arithmetic means in nanoseconds.
use cinder_http.Prelude.{ℕ, ◌+◌, ◌*◌, ◌≤◌, ◌<◌, ◌≡◌, true, some, arith, ◌↔◌, ◌⊎◌}
use cinder_http.Clock.{
  Timespec, nsec_per_sec, timespec_add_ms, timespec_before, remaining_ms, remaining_timeout_ms,
}

abbrev pub IsNormal : Timespec → Type 0
IsNormal ts = ts.tv_nsec < nsec_per_sec

abbrev pub nanoseconds : Timespec → ℕ
nanoseconds ts = ts.tv_sec * 1_000_000_000 + ts.tv_nsec

-- Adding milliseconds to a normal time gives a normal time, later by exactly so many.
pub timespec_add_ms_exact :
    (ts : Timespec) (ms : ℕ)
    → IsNormal ts
    → IsNormal (timespec_add_ms ts ms)
      × (nanoseconds (timespec_add_ms ts ms) ≡ nanoseconds ts + ms * 1_000_000)
unfolding timespec_add_ms
timespec_add_ms_exact ts ms h = ground arith

-- The comparison of normal times is that of the nanoseconds.
pub timespec_before_iff :
    (a b : Timespec)
    → IsNormal a
    → IsNormal b
    → (timespec_before a b ≡ true) ↔ (nanoseconds a < nanoseconds b)
unfolding timespec_before
timespec_before_iff a b ha hb = (λ h. ground arith, λ h. ground arith)

-- The wait that is left, with a clock that reads `now` and both times normal: none exactly when the
-- deadline is reached or less than a millisecond away; before the deadline never longer than the
-- time that is left, and short of it by less than a millisecond unless more than 1000 seconds are
-- left; never above 1000 seconds and a fraction.
pub remaining_timeout_ms_bounds :
    (deadline now : Timespec)
    → IsNormal deadline
    → IsNormal now
    → let ms = remaining_timeout_ms deadline (some now) in
      (ms < 1_001_000)
      × ((nanoseconds deadline ≤ nanoseconds now) × (ms ≡ 0)
          ⊎ (nanoseconds now < nanoseconds deadline)
            × (nanoseconds now + ms * 1_000_000 ≤ nanoseconds deadline)
            × ((nanoseconds deadline < nanoseconds now + (ms + 1) * 1_000_000)
                ⊎ (nanoseconds now + 1_000_000_000_000 < nanoseconds deadline)))
unfolding remaining_timeout_ms remaining_ms timespec_before
remaining_timeout_ms_bounds deadline now hd hn = (ground arith, ground arith)
