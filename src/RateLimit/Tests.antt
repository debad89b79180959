-- ===== src/RateLimit/Tests.antt =====
-- Runs of the window, and instances of its theorems.
use rule_kiln.Prelude.{◌≡◌, ◌≤◌, refl, [], ◌∷◌, count_if, arith}
use rule_kiln.RateLimit.Window.{
  RpmWindow, fresh, drop_old, seconds_until_allowed, must_wait, try_acquire,
}
use rule_kiln.RateLimit.Bound.{is_recent, Run, here, attempt, rate_is_bounded}

-- With a limit of one, a second request a microsecond later waits for the rest of the minute.
wait_run : (try_acquire 6 (try_acquire 5 (fresh 1)).0).1 ≡ must_wait 59_999_999
unfolding try_acquire seconds_until_allowed drop_old
wait_run = refl

two_attempts : Run 1 (5 ∷ []) 6 (try_acquire 6 (try_acquire 5 (fresh 1)).0).0
unfolding try_acquire seconds_until_allowed drop_old
two_attempts = attempt 6 (attempt 5 here (omega arith) tt) (omega arith) (omega arith, tt)

rate_is_bounded_example : count_if (is_recent 7) (5 ∷ []) ≤ 1
rate_is_bounded_example = rate_is_bounded 7 two_attempts (omega arith)

abbrev full : RpmWindow
full = record { rpm = 2; timestamps = 10 ∷ 20 ∷ 30 ∷ [] }
