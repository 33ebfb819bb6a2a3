-- ===== src/Ratelimit/Windows.antt =====
-- How many requests of one client internal/ratelimit/ratelimit.go admits in a window.
use chzzk_djclass_chat.Base.{
  ℕ, suc, ◌+◌, ◌-◌, ◌≤◌, ◌<◌, ◌≡◌, ◌≢◌, sym, ap, ◌∙◌, ◌⊎◌, Bool, true, false, some, List, [], ◌∷◌,
  length, min, All, arith, leb, leb→le, inl, inr, Bool-cases, Option-cases, if◌then◌else◌,
}
use chzzk_djclass_chat.Ratelimit.{
  Key, Bucket, Buckets, first_bucket, max_keys, key_eq, find_bucket, count_request, allow_key,
}
use chzzk_djclass_chat.Ratelimit.Buckets.{
  key_eq_refl, key_eq→eq, find-put_self, find-put_other, length-count_request-le, make_room_small,
}

-- A call of `Allow`, its client known.
pub record Call : Type 0 where
  pub time : ℕ
  pub key : Key
  pub limit : ℕ
  pub window : ℕ

-- The calls of one client, and those of them that are admitted, in a sequence of calls by all.
unfoldable pub asked : Key → List Call → ℕ
asked k [] = 0
asked k (c ∷ cs) = if key_eq c.key k then suc (asked k cs) else asked k cs

unfoldable pub admitted : Key → Buckets → List Call → ℕ
admitted k m [] = 0
admitted k m (c ∷ cs) =
    let after = allow_key m c.time c.key c.limit c.window in
    let rest = admitted k after.0 cs in
    if key_eq c.key k then (if after.1 then suc rest else rest) else rest

-- Another client's call leaves the bucket alone.
other_call :
    (m : Buckets) (t : ℕ) (k q : Key) (limit window : ℕ)
    → k ≢ q
    → find_bucket q (count_request m t k limit window).0 ≡ find_bucket q m
unfolding count_request
other_call m t k q limit window h = elim (Option-cases (find_bucket k m)) [
  | inl new ↦ ground (arith, find-put_other k q (first_bucket t window) m h)
  | inr (b, old) ↦ ground (
    arith,
    find-put_other k q (first_bucket t window) m h,
    find-put_other k q (record b { count = suc b.count }) m h,
  )
]

-- A call inside the window is refused at the limit, and is counted and admitted below it.
own_call :
    (m : Buckets) (t : ℕ) (k : Key) (limit window : ℕ) (b : Bucket)
    → find_bucket k m ≡ some b
    → t < b.start + window
    → ((limit ≤ b.count) × (count_request m t k limit window ≡ (m, false)))
      ⊎ ((b.count < limit)
          × ((count_request m t k limit window).1 ≡ true)
          × (find_bucket k (count_request m t k limit window).0
              ≡ some (record b { count = suc b.count })))
unfolding count_request
own_call m t k limit window b h inside = elim (Bool-cases (leb limit b.count)) [
  | inl full ↦ inl (leb→le _ _ full, ground arith)
  | inr below ↦ inr (
    ground arith,
    ground arith,
    ground (arith, find-put_self k (record b { count = suc b.count }) m),
  )
]

module _ (k : Key) (limit window start : ℕ) where
  -- A client's calls all have the same limit and window, and come before the window ends.
  abbrev pub Inside : Call → Type 0
  Inside c =
      key_eq c.key k ≡ true → (c.limit ≡ limit) × (c.window ≡ window) × (c.time < start + window)

  -- What is to be shown of the calls that follow.
  abbrev AdmitsRest : List Call → Type 0
  AdmitsRest cs =
      (b : Bucket) (m : Buckets)
      → find_bucket k m ≡ some b
      → b.start ≡ start
      → length m + length cs ≤ max_keys + 1
      → admitted k m cs ≡ min (limit - b.count) (asked k cs)

  own_step :
      (b : Bucket) (m : Buckets) (c : Call) (cs : List Call)
      → find_bucket k m ≡ some b
      → b.start ≡ start
      → (c.limit ≡ limit) × (c.window ≡ window) × (c.time < start + window)
      → c.key ≡ k
      → length m + length cs ≤ max_keys
      → AdmitsRest cs
      → (let after = count_request m c.time c.key c.limit c.window in
          if after.1 then suc (admitted k after.0 cs) else admitted k after.0 cs)
        ≡ min (limit - b.count) (suc (asked k cs))
  own_step b m c cs h s (l, w, t) e small rest =
      elim (own_call m c.time c.key c.limit c.window b (rw e h) (omega arith)) [
        | inl (full, refused) ↦ rw refused (let ih = rest b m h s (omega arith) in omega arith)
        | inr (below, allowed, counted) ↦ rw allowed (
            let ih =
              rest (record b { count = suc b.count }) after.0
                (ap (λ q. find_bucket q after.0) (sym e) ∙ counted) s
                (omega (arith, length-count_request-le m c.time c.key c.limit c.window)) in
            omega (arith, ih))
      ]
    where
      after : Buckets × Bool
      after = count_request m c.time c.key c.limit c.window

  -- In any sequence of calls, by any clients and fewer than would overflow the map, a client
  -- who has a bucket, and whose calls have one limit and window and come before that window
  -- ends, gets exactly as many requests admitted as the limit still allows.
  pub admitted-min :
      (b : Bucket) (m : Buckets) (cs : List Call)
      → find_bucket k m ≡ some b
      → b.start ≡ start
      → All Inside cs
      → length m + length cs ≤ max_keys + 1
      → admitted k m cs ≡ min (limit - b.count) (asked k cs)
  unfolding admitted asked allow_key
  admitted-min b m [] h s inside small = omega arith
  admitted-min b m (c ∷ cs) h s inside small = elim (Bool-cases (key_eq c.key k)) [
    | inr other ↦
        rw (make_room_small c.time m (omega arith), other)
          (admitted-min b (count_request m c.time c.key c.limit c.window).0 cs
            (other_call m c.time c.key k c.limit c.window (differs other) ∙ h) s inside.1
            (omega (arith, length-count_request-le m c.time c.key c.limit c.window)))
    | inl own ↦
        rw (make_room_small c.time m (omega arith), own)
          (own_step b m c cs h s (inside.0 own) (key_eq→eq c.key k own) (omega arith)
            (λ b' m' h' s' small'. admitted-min b' m' cs h' s' inside.1 small'))
  ]
    where
      differs : key_eq c.key k ≡ false → c.key ≢ k
      differs other e = ground (arith, key_eq_refl k, ap (λ q. key_eq q k) e)
