-- ===== src/Schedule.antt =====
-- internal/schedule/schedule.go: the time until the next run. A time is a number of nanoseconds
-- since a midnight in UTC; a day of UTC as Go counts it has 24 hours.
pub mod Daily
use chzzk_djclass_chat.Base.{ℕ, ◌+◌, ◌-◌, ◌*◌, ◌/◌, ◌%◌, ◌≤◌, ◌<◌, ◌≡◌, ltb, arith, if◌then◌else◌}

abbrev pub hour : ℕ
hour = 3600000000000

abbrev pub day : ℕ
day = 24 * hour

-- `time.Date(now.Year(), now.Month(), now.Day(), hourUTC, 0, 0, 0, time.UTC)`
unfoldable pub at_hour : ℕ → ℕ → ℕ
at_hour hour_utc now = now / day * day + hour_utc * hour

-- `if !next.After(now) { next = next.AddDate(0, 0, 1) }`
unfoldable pub next_run : ℕ → ℕ → ℕ
unfolding at_hour
next_run hour_utc now = let next = at_hour hour_utc now in if ltb now next then next else next + day

unfoldable pub until : ℕ → ℕ → ℕ
unfolding next_run
until hour_utc now = next_run hour_utc now - now

until_next :
    (hour_utc now : ℕ)
    → hour_utc < 24
    → (0 < until hour_utc now)
      × (until hour_utc now ≤ day)
      × ((now + until hour_utc now) % day ≡ hour_utc * hour)
unfolding until
until_next hour_utc now h = ground arith

-- For an hour of the day, the wait until the next run is positive and a day at most, it ends at
-- that hour, and any positive wait that ends at that hour is at least as long: no run is skipped.
pub until_lem :
    (hour_utc now : ℕ)
    → hour_utc < 24
    → (0 < until hour_utc now)
      × (until hour_utc now ≤ day)
      × ((now + until hour_utc now) % day ≡ hour_utc * hour)
      × ((wait : ℕ) → 0 < wait → (now + wait) % day ≡ hour_utc * hour → until hour_utc now ≤ wait)
unfolding until
until_lem hour_utc now h =
    let (positive, within_a_day, ends) = until_next hour_utc now h in
    (positive, within_a_day, ends, λ wait p q. ground arith)
