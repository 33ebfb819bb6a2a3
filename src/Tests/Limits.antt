-- ===== src/Tests/Limits.antt =====
-- Runs of internal/ratelimit and internal/schedule.
use chzzk_djclass_chat.Base.{ℕ, ◌-◌, ◌≡◌, refl, some, List, [], ◌∷◌, min, All, arith, map, ◌*◌, ◌+◌}
use chzzk_djclass_chat.Base.Text.{Text, text, text_eq}
use chzzk_djclass_chat.Ratelimit.{Key, Bucket, Buckets, find_bucket}
use chzzk_djclass_chat.Ratelimit.Windows.{Call, asked, admitted, Inside, admitted-min}
use chzzk_djclass_chat.Schedule.{hour}
use chzzk_djclass_chat.Schedule.Daily.{Lap, fired, done, daily, AreNext, AreDaily, daily-IsDaily}

abbrev client : Text → Key
client ip = record { scope = text "auth"; ip = ip }

abbrev one : Bucket
one = record { start = 0; count = 1; window = 60 }

abbrev buckets : Buckets
buckets = (client (text "a"), one) ∷ []

abbrev call : ℕ → Text → Call
call t ip = record { time = t; key = client ip; limit = 2; window = 60 }

abbrev calls : List Call
calls = call 5 (text "a") ∷ call 6 (text "b") ∷ call 7 (text "a") ∷ []

found : find_bucket (client (text "a")) buckets ≡ some one
unfolding find_bucket text_eq
found = refl

inside : All (Inside (client (text "a")) 2 60 0) calls
inside = (
  (λ e. (refl, refl, omega arith)),
  ((λ e. (refl, refl, omega arith)), ((λ e. (refl, refl, omega arith)), tt)),
)

admitted-min_example :
    admitted (client (text "a")) buckets calls ≡ min (2 - 1) (asked (client (text "a")) calls)
admitted-min_example =
    admitted-min (client (text "a")) 2 60 0 one buckets calls found refl inside (omega arith)

-- The second run takes more than a day.
abbrev laps : List Lap
laps = fired 5 hour ∷ fired 0 (30 * hour) ∷ fired 0 0 ∷ done ∷ []

starts :
    map (λ r. r.start) (daily 18 (17 * hour) laps)
    ≡ (18 * hour + 5) ∷ (42 * hour) ∷ (90 * hour) ∷ []
unfolding daily
starts = refl

daily-IsDaily_example :
    AreNext 18 (17 * hour) (daily 18 (17 * hour) laps) × AreDaily (daily 18 (17 * hour) laps)
daily-IsDaily_example = daily-IsDaily 18 (17 * hour) laps (omega arith)
