-- ===== src/Ratelimit.antt =====
-- internal/ratelimit/ratelimit.go: the fixed-window limiter. The map of buckets is the list of its
-- entries, one for each key; a time and a window are numbers of nanoseconds.
pub mod Clients
pub mod Buckets
pub mod Windows
use chzzk_djclass_chat.Base.{
  ℕ, suc, ◌+◌, Bool, true, false, not, ◌&&◌, Option, none, some, List, [], ◌∷◌, length, ltb, leb,
  if◌then◌else◌,
}
use chzzk_djclass_chat.Base.Text.{Text, text_eq}
use Clients.{Request, client_ip}

abbrev pub max_keys : ℕ
max_keys = 10000

pub record Key : Type 0 where
  pub scope : Text
  pub ip : Text

pub record Bucket : Type 0 where
  pub start : ℕ
  pub count : ℕ
  pub window : ℕ

abbrev pub Buckets : Type 0
Buckets = List (Key × Bucket)

unfoldable pub key_eq : Key → Key → Bool
key_eq j k = text_eq j.scope k.scope && text_eq j.ip k.ip

unfoldable pub find_bucket : Key → Buckets → Option Bucket
unfolding key_eq
find_bucket k [] = none
find_bucket k ((j, b) ∷ m) = if key_eq j k then some b else find_bucket k m

-- `m[k] = b`
unfoldable pub put_bucket : Key → Bucket → Buckets → Buckets
unfolding key_eq
put_bucket k b [] = (k, b) ∷ []
put_bucket k b ((j, a) ∷ m) = if key_eq j k then (k, b) ∷ m else (j, a) ∷ put_bucket k b m

-- `t.Sub(b.start) >= b.window`, with no difference to stop at 0.
abbrev pub is_over : ℕ → ℕ → Bucket → Bool
is_over t window b = leb (b.start + window) t

-- The loop that deletes every finished window.
unfoldable pub evict_finished : ℕ → Buckets → Buckets
evict_finished t [] = []
evict_finished t ((k, b) ∷ m) =
    if is_over t b.window b then evict_finished t m else (k, b) ∷ evict_finished t m

unfoldable pub make_room : ℕ → Buckets → Buckets
unfolding evict_finished
make_room t m =
    if ltb max_keys (length m)
    then (let kept = evict_finished t m in if ltb max_keys (length kept) then [] else kept)
    else m

-- `&bucket{start: t, count: 1, window: window}`
abbrev pub first_bucket : ℕ → ℕ → Bucket
first_bucket t window = record { start = t; count = 1; window = window }

-- The request's own bucket: the map after it, and the answer.
unfoldable pub count_request : Buckets → ℕ → Key → ℕ → ℕ → Buckets × Bool
unfolding find_bucket put_bucket
count_request m t k limit window = elim (find_bucket k m) [
  | none ↦ (put_bucket k (first_bucket t window) m, true)
  | some b ↦
      if is_over t window b
      then (put_bucket k (first_bucket t window) m, true)
      else if leb limit b.count
      then (m, false)
      else (put_bucket k (record b { count = suc b.count }) m, true)
]

unfoldable pub allow_key : Buckets → ℕ → Key → ℕ → ℕ → Buckets × Bool
unfolding make_room count_request
allow_key m t k limit window = count_request (make_room t m) t k limit window

unfoldable pub allow : Buckets → ℕ → Request → Text → ℕ → ℕ → Buckets × Bool
unfolding allow_key client_ip
allow m t r scope limit window =
    allow_key m t (record { scope = scope; ip = client_ip r }) limit window
