-- ===== src/Realtime/Hub/Rooms.antt =====
-- When `Subscribe` of internal/realtime/hub.go refuses.
use chzzk_djclass_chat.Base.{
  ℕ, ◌≡◌, ◌≤◌, ◌<◌, refl, ◌⊎◌, inl, inr, Bool, true, false, Option, none, some, length, leb,
  if◌then◌else◌, get_elem?, arith, Bool-cases, Option-cases,
}
use chzzk_djclass_chat.Base.Maps.{lookup}
use chzzk_djclass_chat.Base.Text.{Text}
use chzzk_djclass_chat.Effects.{Result, hub_closed, too_many_subscribers, ok, err}
use chzzk_djclass_chat.Realtime.Hub.{
  Hub, Channel, Handle, subscribe, subscribe_in, subscribe_new, subscribe_at,
}

-- The hub has no room at all, or the channel object of the id has no room.
abbrev pub IsFull : Hub → Text → Type 0
IsFull h id =
    (h.max_total ≤ h.total)
    ⊎ ((ref : ℕ) × (lookup id h.channels ≡ some ref)
        × ((c : Channel) → get_elem? h.heap ref ≡ some c → h.max_per_channel ≤ length c.subs))

-- A subscription fails where the hub is closed or has no room, and for no other reason.
unfoldable pub Gives : Hub → Text → Result (Handle × Hub) → Type 0
Gives h id (ok r) = (h.closed ≡ false) × (h.total < h.max_total)
Gives h id (err hub_closed) = h.closed ≡ true
Gives h id (err too_many_subscribers) = (h.closed ≡ false) × IsFull h id
Gives h id (err e) = ⊥

module _ (h : Hub) (id : Text) (open' : h.closed ≡ false) where
  new-Gives : Gives h id (subscribe_new h id)
  unfolding subscribe_new Gives
  new-Gives = elim (Bool-cases (leb h.max_total h.total)) [
    | inl f ↦ rw (f, subscribe_new, Gives) (open', inl (ground (arith, f)))
    | inr f ↦ rw (f, subscribe_new, Gives) (open', ground (arith, f))
  ]

  at-Gives :
      (ref : ℕ) (c : Channel)
      → lookup id h.channels ≡ some ref
      → get_elem? h.heap ref ≡ some c
      → Gives h id (subscribe_at h ref c)
  unfolding subscribe_at Gives
  at-Gives ref c e g = elim (Bool-cases (leb h.max_total h.total)) [
    | inl f ↦ rw (f, subscribe_at, Gives) (open', inl (ground (arith, f)))
    | inr f ↦ elim (Bool-cases (leb h.max_per_channel (length c.subs))) [
      | inl k ↦
          rw (f, k, subscribe_at, Gives) (open', inr (ref, e, (λ d s. ground (arith, k, g, s))))
      | inr k ↦ rw (f, k, subscribe_at, Gives) (open', ground (arith, f))
    ]
  ]

  in-Gives : (o : Option ℕ) → lookup id h.channels ≡ o → Gives h id (subscribe_in h id o)
  unfolding subscribe_in Gives
  in-Gives none e = new-Gives
  in-Gives (some ref) e = elim (Option-cases (get_elem? h.heap ref)) [
    | inl n ↦ rw (n, subscribe_in, Gives) (open', inr (ref, e, (λ d s. ground (arith, n, s))))
    | inr (c, n) ↦ rw (n, subscribe_in) (at-Gives ref c e n)
  ]

by_closed :
    (h : Hub) (id : Text) (shut : Bool)
    → h.closed ≡ shut
    → Gives h id (if shut then err hub_closed else subscribe_in h id (lookup id h.channels))
unfolding Gives
by_closed h id true e = e
by_closed h id false e = in-Gives h id e (lookup id h.channels) refl

pub subscribe-Gives : (h : Hub) (id : Text) → Gives h id (subscribe h id)
unfolding subscribe
subscribe-Gives h id = by_closed h id h.closed refl
