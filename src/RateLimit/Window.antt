-- ===== src/RateLimit/Window.antt =====
-- `_RpmWindow` and the loop of `_LimiterState.acquire` around it. Times are whole microseconds; a
-- test against `now - 60.0` is written with a sum.
use rule_kiln.Prelude.{
  ℕ, zero, suc, ◌+◌, ◌-◌, Option, none, some, List, [], ◌∷◌, ◌++◌, length, ltb, if◌then◌else◌,
}

-- 60 s
abbrev pub minute : ℕ
minute = 60_000_000

pub record RpmWindow : Type 0 where
  pub rpm : ℕ
  pub timestamps : List ℕ

abbrev pub fresh : ℕ → RpmWindow
fresh n = record { rpm = n; timestamps = [] }

-- Drop timestamps outside the rolling window, from the front.
unfoldable pub drop_old : ℕ → List ℕ → List ℕ
drop_old now [] = []
drop_old now (t ∷ ts) = let rest = drop_old now ts in if ltb (t + minute) now then rest else t ∷ ts

-- The wait for the oldest request; none is the IndexError of an empty queue.
abbrev pub wait_for_oldest : ℕ → List ℕ → Option ℕ
wait_for_oldest now [] = none
wait_for_oldest now (t ∷ ts) = some (t + minute - now)

unfoldable pub seconds_until_allowed : ℕ → RpmWindow → RpmWindow × Option ℕ
seconds_until_allowed now w =
    let ts = drop_old now w.timestamps in
    (record w { timestamps = ts }, if ltb (length ts) w.rpm then some 0 else wait_for_oldest now ts)

abbrev pub append_now : ℕ → RpmWindow → RpmWindow
append_now now w = record w { timestamps = w.timestamps ++ now ∷ [] }

pub data Attempt : Type 0 where
  admitted : Attempt
  must_wait : ℕ → Attempt
  index_error : Attempt

abbrev pub settled : ℕ → RpmWindow → Option ℕ → RpmWindow × Attempt
settled now w none = (w, index_error)
settled now w (some zero) = (append_now now w, admitted)
settled now w (some (suc n)) = (w, must_wait (suc n))

-- One pass of the loop under the lock.
unfoldable pub try_acquire : ℕ → RpmWindow → RpmWindow × Attempt
try_acquire now w = let asked = seconds_until_allowed now w in settled now asked.0 asked.1
