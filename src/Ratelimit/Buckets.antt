-- ===== src/Ratelimit/Buckets.antt =====
-- The map of buckets of internal/ratelimit/ratelimit.go stays bounded.
use chzzk_djclass_chat.Base.{
  ℕ, suc, ◌+◌, ◌≤◌, ◌≡◌, ◌≢◌, true, some, [], ◌∷◌, length, arith, inl, inr, Option-cases,
}
use chzzk_djclass_chat.Base.Text.{text_eq_iff, text_eq_refl}
use chzzk_djclass_chat.Ratelimit.{
  Key, Bucket, Buckets, first_bucket, max_keys, key_eq, find_bucket, put_bucket, make_room,
  count_request, allow_key,
}

pub key_eq_refl : (k : Key) → key_eq k k ≡ true
unfolding key_eq
key_eq_refl k = ground (arith, text_eq_refl k.scope, text_eq_refl k.ip)

pub key_eq→eq : (j k : Key) → key_eq j k ≡ true → j ≡ k
unfolding key_eq
key_eq→eq j k h = ground (arith, text_eq_iff j.scope k.scope, text_eq_iff j.ip k.ip)

pub find-put_self : (k : Key) (b : Bucket) (m : Buckets) → find_bucket k (put_bucket k b m) ≡ some b
unfolding find_bucket put_bucket
find-put_self k b [] = ground (arith, key_eq_refl k)
find-put_self k b ((j, a) ∷ m) = ground (arith, key_eq_refl k, find-put_self k b m)

pub find-put_other :
    (k q : Key) (b : Bucket) (m : Buckets)
    → k ≢ q
    → find_bucket q (put_bucket k b m) ≡ find_bucket q m
unfolding find_bucket put_bucket
find-put_other k q b [] h = ground (arith, key_eq→eq k q)
find-put_other k q b ((j, a) ∷ m) h =
    ground (arith, key_eq→eq k q, key_eq→eq j q, key_eq→eq j k, find-put_other k q b m)

length-put-le : (k : Key) (b : Bucket) (m : Buckets) → length (put_bucket k b m) ≤ suc (length m)
unfolding put_bucket
length-put-le k b [] = omega arith
length-put-le k b ((j, a) ∷ m) = ground (arith, length-put-le k b m)

pub length-put_present :
    (k : Key) (b c : Bucket) (m : Buckets)
    → find_bucket k m ≡ some c
    → length (put_bucket k b m) ≡ length m
unfolding put_bucket find_bucket
length-put_present k b c [] h = cc
length-put_present k b c ((j, a) ∷ m) h = ground (arith, length-put_present k b c m)

length-make_room-le : (t : ℕ) (m : Buckets) → length (make_room t m) ≤ max_keys
unfolding make_room
length-make_room-le t m = ground arith

pub length-count_request-le :
    (m : Buckets) (t : ℕ) (k : Key) (limit window : ℕ)
    → length (count_request m t k limit window).0 ≤ suc (length m)
unfolding count_request
length-count_request-le m t k limit window = elim (Option-cases (find_bucket k m)) [
  | inl new ↦ ground (arith, length-put-le k (first_bucket t window) m)
  | inr (b, old) ↦ ground (
    arith,
    length-put-le k (first_bucket t window) m,
    length-put-le k (record b { count = suc b.count }) m,
  )
]

-- After any call, whatever the map before it, the map of buckets holds at most one bucket over its
-- limit of keys.
length-allow_key-le :
    (m : Buckets) (t : ℕ) (k : Key) (limit window : ℕ)
    → length (allow_key m t k limit window).0 ≤ max_keys + 1
unfolding allow_key
length-allow_key-le m t k limit window =
    omega (arith, length-count_request-le (make_room t m) t k limit window, length-make_room-le t m)

-- Below the limit of keys nothing is evicted.
pub make_room_small : (t : ℕ) (m : Buckets) → length m ≤ max_keys → make_room t m ≡ m
unfolding make_room
make_room_small t m h = ground arith
