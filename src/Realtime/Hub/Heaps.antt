-- ===== src/Realtime/Hub/Heaps.antt =====
-- The heap of channel objects of internal/realtime/hub.go: reads after writes, and the number of
-- subscriptions.
use chzzk_djclass_chat.Base.{
  ℕ, zero, suc, ◌+◌, ◌≡◌, ◌≢◌, refl, ap, ◌⊎◌, inl, inr, some, List, [], ◌∷◌, ◌++◌, length,
  get_elem?, set, arith,
}
use chzzk_djclass_chat.Realtime.Hub.{Channel}

module _ {ℓ} {A : Type ℓ} where
  -- What is read after a write was written, or was there.
  pub set-cases :
      (xs : List A) (i j : ℕ) (v c : A)
      → get_elem? (set xs i v) j ≡ some c
      → ((i ≡ j) × (c ≡ v)) ⊎ ((i ≢ j) × (get_elem? xs j ≡ some c))
  set-cases [] i j v c h = cc
  set-cases (x ∷ xs) zero zero v c h = inl (refl, ground arith)
  set-cases (x ∷ xs) zero (suc j) v c h = inr (omega arith, h)
  set-cases (x ∷ xs) (suc i) zero v c h = inr (omega arith, h)
  set-cases (x ∷ xs) (suc i) (suc j) v c h = elim (set-cases xs i j v c h) [
    | inl (e, k) ↦ inl (ap suc e, k)
    | inr (e, k) ↦ inr (omega arith, k)
  ]

  pub append-cases :
      (xs : List A) (j : ℕ) (v c : A)
      → get_elem? (xs ++ v ∷ []) j ≡ some c
      → ((j ≡ length xs) × (c ≡ v)) ⊎ (get_elem? xs j ≡ some c)
  append-cases [] zero v c h = inl (refl, ground arith)
  append-cases [] (suc j) v c h = cc
  append-cases (x ∷ xs) zero v c h = inr h
  append-cases (x ∷ xs) (suc j) v c h = elim (append-cases xs j v c h) [
    | inl (e, k) ↦ inl (ap suc e, k)
    | inr k ↦ inr k
  ]

  pub get-append_old :
      (xs : List A) (j : ℕ) (v c : A)
      → get_elem? xs j ≡ some c
      → get_elem? (xs ++ v ∷ []) j ≡ some c
  get-append_old [] j v c h = cc
  get-append_old (x ∷ xs) zero v c h = h
  get-append_old (x ∷ xs) (suc j) v c h = get-append_old xs j v c h

  pub get-append_new : (xs : List A) (v : A) → get_elem? (xs ++ v ∷ []) (length xs) ≡ some v
  get-append_new [] v = refl
  get-append_new (x ∷ xs) v = get-append_new xs v

-- The subscriptions of all channel objects.
unfoldable pub subs_total : List Channel → ℕ
subs_total [] = 0
subs_total (ch ∷ heap) = length ch.subs + subs_total heap

pub total-set :
    (heap : List Channel) (i : ℕ) (v c : Channel)
    → get_elem? heap i ≡ some c
    → subs_total (set heap i v) + length c.subs ≡ subs_total heap + length v.subs
unfolding subs_total
total-set [] i v c h = cc
total-set (x ∷ heap) zero v c h =
    let e : length x.subs ≡ length c.subs = ap length (same h) in omega arith
  where
    same : some x ≡ some c → x.subs ≡ c.subs
    same p = cc
total-set (x ∷ heap) (suc i) v c h = omega (arith, total-set heap i v c h)

pub total-append :
    (heap : List Channel) (v : Channel)
    → subs_total (heap ++ v ∷ []) ≡ subs_total heap + length v.subs
unfolding subs_total
total-append [] v = omega arith
total-append (x ∷ heap) v = omega (arith, total-append heap v)

-- If no object has a subscription there is none.
pub total-zero :
    (heap : List Channel)
    → ((i : ℕ) (c : Channel) → get_elem? heap i ≡ some c → c.subs ≡ [])
    → subs_total heap ≡ 0
unfolding subs_total
total-zero [] h = refl
total-zero (x ∷ heap) h =
    omega (arith, ap length (h 0 x refl), total-zero heap (λ i c k. h (suc i) c k))
