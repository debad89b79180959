-- ===== src/RateLimit/Bound.antt =====
-- How many requests the window admits in a minute.
use rule_kiln.Prelude.{
  ℕ, suc, ◌+◌, ◌-◌, ◌≡◌, ◌≢◌, ◌≤◌, ◌<◌, refl, Bool, false, Option, some, List, [], ◌∷◌, ◌++◌,
  length, count_if, All, ltb, if_elim, arith, Bool-cases, inl, inr,
}
use rule_kiln.RateLimit.Window.{
  minute, RpmWindow, fresh, drop_old, wait_for_oldest, seconds_until_allowed, append_now, Attempt,
  admitted, must_wait, index_error, settled, try_acquire,
}

-- A time less than a minute before `now`.
abbrev pub is_recent : ℕ → ℕ → Bool
is_recent now t = ltb now (t + minute)

-- The admitted requests, the newest first.
abbrev pub logged : List ℕ → ℕ → Attempt → List ℕ
logged history now admitted = now ∷ history
logged history now (must_wait n) = history
logged history now index_error = history

-- Attempts at times that do not go back, none of them exactly a minute after a recorded one.
pub data Run (n : ℕ) : List ℕ → ℕ → RpmWindow → Type 0 where
  here : Run n [] 0 (fresh n)
  attempt :
      {history : List ℕ} {last : ℕ} {w : RpmWindow} (now : ℕ)
      → Run n history last w
      → last ≤ now
      → All (λ t. t + minute ≢ now) w.timestamps
      → Run n (logged history now (try_acquire now w).1) now (try_acquire now w).0

count-drop_old :
    (now later : ℕ) (ts : List ℕ)
    → now ≤ later
    → count_if (is_recent later) ts ≤ count_if (is_recent later) (drop_old now ts)
unfolding drop_old
count-drop_old now later [] h = omega arith
count-drop_old now later (t ∷ ts) h = ground (arith, count-drop_old now later ts h)

count-le-length : (p : ℕ → Bool) (ts : List ℕ) → count_if p ts ≤ length ts
count-le-length p [] = omega arith
count-le-length p (t ∷ ts) = ground (arith, count-le-length p ts)

count-append :
    (p : ℕ → Bool) (ts us : List ℕ) → count_if p (ts ++ us) ≡ count_if p ts + count_if p us
count-append p [] us = omega arith
count-append p (t ∷ ts) us = ground (arith, count-append p ts us)

-- The queue holds every request that is still recent, no more requests than the limit are, and the
-- limit is that of the run.
abbrev Bounded : ℕ → List ℕ → ℕ → RpmWindow → Type 0
Bounded n history last w =
    (w.rpm ≡ n)
    × ((later : ℕ)
        → last ≤ later
        → count_if (is_recent later) history ≤ count_if (is_recent later) w.timestamps)
    × ((later : ℕ) → last ≤ later → count_if (is_recent later) history ≤ n)

drop_old-head :
    (now : ℕ) (ts us : List ℕ) (t : ℕ)
    → All (λ s. s + minute ≢ now) ts
    → drop_old now ts ≡ t ∷ us
    → now < t + minute
unfolding drop_old
drop_old-head now [] us t off e = ground arith
drop_old-head now (s ∷ ts) us t off e = elim (Bool-cases (ltb (s + minute) now)) [
  | inl old ↦ drop_old-head now ts us t off.1 (ground arith)
  | inr young ↦
      let same : s ≡ t = ground arith in
      let fresh_enough : now < s + minute = ground (arith, off.0) in omega arith
]

-- Behind a full queue, whose oldest request is less than a minute old, nothing is recorded.
settled-waits :
    (now : ℕ) (history : List ℕ) (w : RpmWindow) (ts : List ℕ)
    → ((t : ℕ) (us : List ℕ) → ts ≡ t ∷ us → now < t + minute)
    → let o = settled now w (wait_for_oldest now ts) in
      (logged history now o.1 ≡ history) × (o.0 ≡ w)
settled-waits now history w [] h = (refl, refl)
settled-waits now history w (t ∷ ts) h =
    let young = h t ts refl in
    let some_left : t + minute - now ≡ suc (t + minute - now - 1) = omega arith in
    rw some_left (refl, refl)

Bounded-try_acquire :
    (n : ℕ) (history : List ℕ) (last : ℕ) (w : RpmWindow) (now : ℕ)
    → Bounded n history last w
    → last ≤ now
    → All (λ t. t + minute ≢ now) w.timestamps
    → Bounded n (logged history now (try_acquire now w).1) now (try_acquire now w).0
unfolding try_acquire seconds_until_allowed
Bounded-try_acquire n history last w now h ordered off =
    let ts = drop_old now w.timestamps in
    let held : (later : ℕ)
        → now ≤ later
        → count_if (is_recent later) history ≤ count_if (is_recent later) ts =
      λ later after.
        omega (arith, h.1 later (omega arith), count-drop_old now later w.timestamps after) in
    let kept = record w { timestamps = ts } in
    if_elim {A = Option ℕ}
      (λ o. Bounded n (logged history now (settled now kept o).1) now (settled now kept o).0)
      (ltb (length ts) w.rpm)
      (λ room. (
        h.0,
        λ later after.
            ground (arith, held later after, count-append (is_recent later) ts (now ∷ [])),
        λ later after. ground (arith, held later after, count-le-length (is_recent later) ts, h.0),
      ))
      (λ full.
        let waits =
          settled-waits now history kept ts (λ t us e. drop_old-head now w.timestamps us t off e) in
        rw (waits.0, waits.1) (h.0, held, λ later after. h.2 later (omega arith)))

Run-Bounded :
    {n : ℕ} {history : List ℕ} {last : ℕ} {w : RpmWindow}
    → Run n history last w
    → Bounded n history last w
Run-Bounded here = (refl, λ later after. omega arith, λ later after. omega arith)
Run-Bounded (attempt {history} {last} {w} now run ordered off) =
    Bounded-try_acquire _ history last w now (Run-Bounded run) ordered off

-- If the clock does not go back and no attempt falls exactly a minute after a recorded request, then
-- at every time from the last attempt on, at most `rpm` of all the requests that were admitted are
-- less than a minute old.
pub rate_is_bounded :
    {n : ℕ} {history : List ℕ} {last : ℕ} {w : RpmWindow} (later : ℕ)
    → Run n history last w
    → last ≤ later
    → count_if (is_recent later) history ≤ n
rate_is_bounded later run after = (Run-Bounded run).2 later after

-- A queue whose oldest request is exactly a minute old admits a request however full it is, and
-- stays as it is but for the request, so that it admits any number of them at that time.
pub try_acquire_at_boundary :
    (limit t : ℕ) (ts : List ℕ)
    → let w : RpmWindow = record { rpm = limit; timestamps = t ∷ ts } in
      try_acquire (t + minute) w ≡ (append_now (t + minute) w, admitted)
unfolding try_acquire seconds_until_allowed drop_old
try_acquire_at_boundary limit t ts =
    let w : RpmWindow = record { rpm = limit; timestamps = t ∷ ts } in
    let young : ltb (t + minute) (t + minute) ≡ false = ground arith in
    let no_wait : t + minute - (t + minute) ≡ 0 = omega arith in
    rw (young, no_wait)
      (if_elim {A = Option ℕ}
        (λ o. settled (t + minute) w o ≡ (append_now (t + minute) w, admitted))
        (ltb (length (t ∷ ts)) limit) {x = some 0} {y = some 0} (λ _. refl) (λ _. refl))
