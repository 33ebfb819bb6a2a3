-- ===== src/Realtime/Hub/Closes.antt =====
-- `Hub.Close` of internal/realtime/hub.go keeps the hub's invariant.
use chzzk_djclass_chat.Base.{
  ℕ, suc, zero, ◌≡◌, ◌≢◌, refl, sym, ap, ◌∙◌, ◌⊎◌, inl, inr, true, some, List, [], ◌∷◌, length,
  get_elem?, set, arith, Bool-cases, Option-cases,
}
use mathlib.Core.Option.{some-injective}
use chzzk_djclass_chat.Base.Maps.{lookup}
use chzzk_djclass_chat.Base.Text.{Text, text_eq}
use chzzk_djclass_chat.Realtime.Hub.{Channel, Hub, Sub, clear_subs, cancel_all, close}
use chzzk_djclass_chat.Realtime.Hub.Heaps.{total-zero, set-cases}
use chzzk_djclass_chat.Realtime.Hub.Inv.{Inv}

-- An object after the loop: it has no subscription, or it is as before and not in the map.
abbrev Cleared : List (Text × ℕ) → List Channel → ℕ → Channel → Type 0
Cleared m heap j c =
    (c.subs ≡ []) ⊎ ((get_elem? heap j ≡ some c) × ((k : Text) → lookup k m ≢ some j))

cons-misses :
    (id : Text) (i j : ℕ) (m : List (Text × ℕ))
    → i ≢ j
    → ((k : Text) → lookup k m ≢ some j)
    → (k : Text) → lookup k ((id, i) ∷ m) ≢ some j
unfolding lookup
cons-misses id i j m o f k e = elim (Bool-cases (text_eq id k)) [
  | inl t ↦ o (some-injective i j (ground (arith, e, t)))
  | inr t ↦ f k (ground (arith, e, t))
]

clear_subs-cases :
    (m : List (Text × ℕ)) (heap : List Channel) (j : ℕ) (c : Channel)
    → get_elem? (clear_subs m heap) j ≡ some c
    → Cleared m heap j c
unfolding clear_subs lookup
clear_subs-cases [] heap j c h = inr (h, λ k e. ground (arith, e))
clear_subs-cases ((id, i) ∷ m) heap j c h = elim (Option-cases (get_elem? heap i)) [
  | inl e ↦ elim (clear_subs-cases m heap j c (ground (arith, h, e))) [
    | inl z ↦ inl z
    | inr (k, f) ↦
        inr (k, cons-misses id i j m (λ s. ground (arith, ap (get_elem? heap) s, e, k)) f)
  ]
  | inr (d, e) ↦
      let d' : Channel = record d { subs = [] } in
      elim (clear_subs-cases m (set heap i d') j c (ground (arith, h, e))) [
        | inl z ↦ inl z
        | inr (k, f) ↦ elim (set-cases heap i j d' c k) [
          | inl (_, z) ↦ inl (ap (λ x. x.subs) z)
          | inr (o, old) ↦ inr (old, cons-misses id i j m o f)
        ]
      ]
]

cancel_all-cases :
    (heap : List Channel) (j : ℕ) (c : Channel)
    → get_elem? (cancel_all heap) j ≡ some c
    → (x : Channel) × (get_elem? heap j ≡ some x) × (c.subs ≡ x.subs) × (c.cancelled ≡ true)
unfolding cancel_all
cancel_all-cases [] j c h = cc
cancel_all-cases (x ∷ heap) zero c h =
    let e = some-injective _ _ h in
    (x, refl, ap (λ y. y.subs) (sym e), ap (λ y. y.cancelled) (sym e))
cancel_all-cases (x ∷ heap) (suc j) c h = cancel_all-cases heap j c h

all-idle :
    (h : Hub)
    → Inv h
    → (j : ℕ) (c : Channel) → get_elem? (cancel_all (clear_subs h.channels h.heap)) j ≡ some c
    → (c.subs ≡ []) × (c.cancelled ≡ true)
all-idle h v j c k =
    let (x, at_j, same, gone) = cancel_all-cases (clear_subs h.channels h.heap) j c k in
    (
      same ∙ elim (clear_subs-cases h.channels h.heap j x at_j) [
        | inl z ↦ z
        | inr (old, f) ↦ none-left x.subs (λ n. f x.id ((v.sound j x old).known (inl n)))
      ],
      gone,
    )
  where
    none-left : (xs : List Sub) → ¬ (xs ≢ []) → xs ≡ []
    none-left [] f = refl
    none-left (x ∷ xs) f = absurd (f (λ e. ground (arith, e)))

pub close-Inv : (h : Hub) → Inv h → Inv (close h)
unfolding close lookup
close-Inv h v = elim (Bool-cases h.closed) [
  | inl shut ↦ simp (shut, close) v
  | inr open' ↦
      simp (open', close)
        (record {
          sound = λ j c k.
              let (idle, gone) = all-idle h v j c k in
              record {
                few = omega (arith, ap length idle);
                known = λ e. absurd (ground (arith, e, idle, gone));
                runs = λ e. absurd (ground (arith, e));
                armed = λ e n. absurd (ground (arith, e));
              };
          frame = record {
            points = λ id i k. absurd (ground (arith, k));
            distinct = tt;
            counted = sym (total-zero _ (λ j c k. (all-idle h v j c k).0));
            few_total = omega arith;
            when_closed = λ e. refl;
            room = v.frame.room;
          };
        })
]
