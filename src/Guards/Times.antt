-- ===== src/Guards/Times.antt =====
-- Time values.
use kclpp.Prelude.{ℕ, ◌+◌, ◌*◌, ◌≡◌, ◌<◌, arith}
use kclpp.Guards.{to_time_val}

-- A time value has less than a second of microseconds, and is the interval that it was made of.
pub to_time_val-exact :
    (msec : ℕ)
    → ((to_time_val msec).tv_usec < 1000 * 1000)
      × ((to_time_val msec).tv_sec * 1000 * 1000 + (to_time_val msec).tv_usec ≡ msec * 1000)
unfolding to_time_val
to_time_val-exact msec = (omega arith, omega arith)
