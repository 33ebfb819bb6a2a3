-- ===== src/Realtime/Hub/Inv.antt =====
-- What holds of the hub of internal/realtime/hub.go between any two of its steps.
use chzzk_djclass_chat.Base.{
  ℕ, ◌≤◌, ◌<◌, ◌≡◌, ◌≢◌, ◌⊎◌, inl, inr, true, false, some, [], length, get_elem?, set, arith,
  get_elem?-set_self, get_elem?-lt, get_elem?-set_ne, ◌==◌, ==_iff, Bool-cases, ap, sym, ◌∙◌,
}
use mathlib.Core.Option.{some-injective}
use mathlib.Core.Path.{subst₂}
use chzzk_djclass_chat.Base.Maps.{lookup, KeysApart}
use chzzk_djclass_chat.Base.Text.{Text}
use chzzk_djclass_chat.Realtime.Hub.{Channel, Hub}
use chzzk_djclass_chat.Realtime.Hub.Heaps.{subs_total, set-cases}

-- Of a channel object: not too many widgets, the map knows it while it has a widget or a running
-- worker, and while the map knows it its worker runs and, if it has no widget, its timer is armed.
pub record Sound (h : Hub) (i : ℕ) (c : Channel) : Type 0 where
  pub few : length c.subs ≤ h.max_per_channel
  pub known : (c.subs ≢ []) ⊎ (c.cancelled ≡ false) → lookup c.id h.channels ≡ some i
  pub runs : lookup c.id h.channels ≡ some i → c.cancelled ≡ false
  pub armed : lookup c.id h.channels ≡ some i → c.subs ≡ [] → c.teardown ≡ true

-- All that holds of the hub, but for the soundness of its channel objects.
pub record Frame (h : Hub) : Type 0 where
  pub points :
      (id : Text) (i : ℕ)
      → lookup id h.channels ≡ some i
      → (c : Channel) × (get_elem? h.heap i ≡ some c) × (c.id ≡ id)
  pub distinct : KeysApart h.channels
  pub counted : h.total ≡ subs_total h.heap
  pub few_total : h.total ≤ h.max_total
  pub when_closed : h.closed ≡ true → h.channels ≡ []
  pub room : 0 < h.max_per_channel

pub record Inv (h : Hub) : Type 0 where
  pub sound : (i : ℕ) (c : Channel) → get_elem? h.heap i ≡ some c → Sound h i c
  pub frame : Frame h

module _ (h : Hub) (i : ℕ) (c d : Channel) (here : get_elem? h.heap i ≡ some c) where
  -- After a write to one object every object is sound if the new one is and the others stay so.
  pub set-Sound :
      (g : Hub)
      → g.heap ≡ set h.heap i d
      → ((j : ℕ) (x : Channel) → i ≢ j → get_elem? h.heap j ≡ some x → Sound g j x)
      → Sound g i d
      → (j : ℕ) (x : Channel) → get_elem? g.heap j ≡ some x
      → Sound g j x
  set-Sound g e others mine j x k =
      elim (set-cases h.heap i j d x (ap (λ l. get_elem? l j) (sym e) ∙ k)) [
        | inl (same, y) ↦ subst₂ (λ a b. Sound g a b) same (sym y) mine
        | inr (other, old) ↦ others j x other old
      ]

  -- A write that keeps the key keeps what the map points at.
  pub set-points :
      d.id ≡ c.id
      → (id : Text) (j : ℕ) → (x : Channel) × (get_elem? h.heap j ≡ some x) × (x.id ≡ id)
      → (x : Channel) × (get_elem? (set h.heap i d) j ≡ some x) × (x.id ≡ id)
  set-points same id j (x, at_j, named) = elim (Bool-cases (i == j)) [
    | inl e ↦
        let p = (==_iff i j).0 e in
        (
          d,
          ap (get_elem? (set h.heap i d)) (sym p)
              ∙ get_elem?-set_self h.heap i d (get_elem?-lt h.heap i c here),
          same
              ∙ ap (λ y. y.id) (some-injective c x (sym here ∙ ap (get_elem? h.heap) p ∙ at_j))
              ∙ named,
        )
    | inr e ↦ (x, get_elem?-set_ne h.heap i j d (ground arith) ∙ at_j, named)
  ]
