-- ===== src/Schedule/Daily.antt =====
-- The loop `Daily` of internal/schedule/schedule.go, over what happens at each of its timers.
use chzzk_djclass_chat.Base.{ℕ, ◌+◌, ◌-◌, ◌*◌, ◌%◌, ◌≤◌, ◌<◌, ◌≡◌, ap, ◌∙◌, List, [], ◌∷◌, arith}
use chzzk_djclass_chat.Schedule.{hour, day, until, until_lem}

-- The timer fires, so late, and the job takes so long; or the context is done.
pub data Lap : Type 0 where
  fired : ℕ → ℕ → Lap
  done : Lap

-- A run of the job: when it was due, and when it started and ended.
pub record JobRun : Type 0 where
  pub due : ℕ
  pub start : ℕ
  pub end : ℕ

-- `Daily`
unfoldable pub daily : ℕ → ℕ → List Lap → List JobRun
unfolding until
daily hour_utc now [] = []
daily hour_utc now (done ∷ ls) = []
daily hour_utc now (fired late took ∷ ls) =
    let due = now + until hour_utc now in
    record { due = due; start = due + late; end = due + late + took }
    ∷ daily hour_utc (due + late + took) ls

-- The run is the first that could be due after a time, at the hour.
pub record IsNext (hour_utc now : ℕ) (r : JobRun) : Type 0 where
  pub later : now < r.due
  pub at_hour : r.due % day ≡ hour_utc * hour
  pub first : (t : ℕ) → now < t → t % day ≡ hour_utc * hour → r.due ≤ t
  pub in_order : (r.due ≤ r.start) × (r.start ≤ r.end)

-- Each run is the next after the end of the one before.
abbrev pub AreNext : ℕ → ℕ → List JobRun → Type 0
AreNext hour_utc now [] = Unit
AreNext hour_utc now (r ∷ rs) = IsNext hour_utc now r × AreNext hour_utc r.end rs

-- A run that ends within a day of its hour is followed by the run of the next day.
abbrev pub AreDaily : List JobRun → Type 0
AreDaily [] = Unit
AreDaily (r ∷ []) = Unit
AreDaily (r ∷ s ∷ rs) = (r.end < r.due + day → s.due ≡ r.due + day) × AreDaily (s ∷ rs)

first_after :
    (hour_utc now t : ℕ)
    → hour_utc < 24
    → now < t
    → t % day ≡ hour_utc * hour
    → now + until hour_utc now ≤ t
first_after hour_utc now t h l e =
    let (_, _, _, least) = until_lem hour_utc now h in
    let m : until hour_utc now ≤ t - now =
      least (t - now) (omega arith) (ap (λ n. n % day) (back now t l) ∙ e) in
    omega (arith, m)
  where
    back : (a b : ℕ) → a < b → a + (b - a) ≡ b
    back a b k = omega arith

daily-AreNext :
    (hour_utc now : ℕ) (ls : List Lap)
    → hour_utc < 24
    → AreNext hour_utc now (daily hour_utc now ls)
unfolding daily
daily-AreNext hour_utc now [] h = tt
daily-AreNext hour_utc now (done ∷ ls) h = tt
daily-AreNext hour_utc now (fired late took ∷ ls) h =
    let (positive, _, ends, _) = until_lem hour_utc now h in
    (
      record {
        later = omega (arith, positive);
        at_hour = ends;
        first = λ t l e. first_after hour_utc now t h l e;
        in_order = (omega arith, omega arith);
      },
      daily-AreNext hour_utc (now + until hour_utc now + late + took) ls h,
    )

next_day :
    (hour_utc : ℕ) (r s : JobRun)
    → s.due % day ≡ hour_utc * hour
    → r.due % day ≡ hour_utc * hour
    → r.due ≤ r.end
    → r.end < s.due
    → s.due ≤ r.due + day
    → s.due ≡ r.due + day
next_day hour_utc r s a b c d e = omega arith

AreNext-AreDaily : (hour_utc now : ℕ) (rs : List JobRun) → AreNext hour_utc now rs → AreDaily rs
AreNext-AreDaily hour_utc now [] h = tt
AreNext-AreDaily hour_utc now (r ∷ []) h = tt
AreNext-AreDaily hour_utc now (r ∷ s ∷ rs) (n, (m, k)) = (
  (λ l.
      next_day hour_utc r s m.at_hour n.at_hour (omega (arith, n.in_order.0, n.in_order.1)) m.later
        (m.first (r.due + day) l (day_after r.due hour_utc n.at_hour))),
  AreNext-AreDaily hour_utc r.end (s ∷ rs) (m, k),
)
  where
    day_after : (a b : ℕ) → a % day ≡ b * hour → (a + day) % day ≡ b * hour
    day_after a b e = omega (arith, e)

-- For an hour of the day, whenever the loop starts, however late its timers are and however long the
-- job takes: no two runs overlap, each is due at the hour, and at the first time after the one before
-- has ended at which it is that hour; so a run that ends within a day of its hour is followed by
-- the run of the next day.
pub daily-IsDaily :
    (hour_utc now : ℕ) (ls : List Lap)
    → hour_utc < 24
    → AreNext hour_utc now (daily hour_utc now ls) × AreDaily (daily hour_utc now ls)
daily-IsDaily hour_utc now ls h =
    let n = daily-AreNext hour_utc now ls h in (n, AreNext-AreDaily hour_utc now _ n)
