-- ===== src/Realtime/Hub/Opens.antt =====
-- `Hub.Subscribe` of internal/realtime/hub.go keeps the hub's invariant.
use chzzk_djclass_chat.Base.{
  ℕ, ◌≡◌, ◌≢◌, refl, sym, ap, ◌∙◌, ◌⊎◌, inl, inr, false, ◌||◌, Option, none, some, [], ◌∷◌, ◌++◌,
  length, get_elem?, arith, Bool-cases, Option-cases, leb,
}
use mathlib.Core.Option.{some-injective}
use chzzk_djclass_chat.Base.Maps.{lookup, KeysApart-append, lookup-append_new, lookup-append_other}
use chzzk_djclass_chat.Base.Text.{Text, text_eq, text_eq_iff}
use chzzk_djclass_chat.Realtime.Hub.{
  Channel, Hub, new_channel, start_channel, subscribe_new, subscribe_at, subscribe_in, subscribe,
  after,
}
use chzzk_djclass_chat.Realtime.Hub.Heaps.{
  total-append, append-cases, get-append_old, get-append_new,
}
use chzzk_djclass_chat.Realtime.Hub.Inv.{Sound, Frame, Inv}
use chzzk_djclass_chat.Realtime.Hub.Keeps.{add_sub-Inv}

none-clash {ℓ} : {A : Type ℓ} {o : Option A} {x : A} → o ≡ none → o ≢ some x
none-clash p q = cc

module _ (h : Hub) (id : Text) (v : Inv h) (free : lookup id h.channels ≡ none) where
  abbrev started : Hub
  started = record h {
    channels = h.channels ++ (id, length h.heap) ∷ [];
    heap = h.heap ++ new_channel id ∷ [];
  }

  -- An entry that was there stays.
  old_entry : (q : Text) (i : ℕ) → lookup q h.channels ≡ some i → lookup q started.channels ≡ some i
  old_entry q i k =
      lookup-append_other id q (length h.heap) h.channels
        (λ same. none-clash free (ap (λ x. lookup x h.channels) same ∙ k))
      ∙ k

  -- An entry for another object was there.
  entry_was :
      (q : Text) (i : ℕ)
      → lookup q started.channels ≡ some i
      → ((q ≡ id) × (i ≡ length h.heap)) ⊎ (lookup q h.channels ≡ some i)
  entry_was q i k = elim (Bool-cases (text_eq id q)) [
    | inl e ↦
        let same = (text_eq_iff id q).0 e in
        inl (
          sym same,
          some-injective i (length h.heap) (
              sym k
              ∙ ap (λ x. lookup x started.channels) (sym same)
              ∙ lookup-append_new id (length h.heap) h.channels free),
        )
    | inr e ↦ inr (
        sym (
          lookup-append_other id q (length h.heap) h.channels
            (λ s. ground (arith, text_eq_iff id q)))
        ∙ k)
  ]

  started-others :
      (j : ℕ) (x : Channel)
      → length h.heap ≢ j
      → get_elem? started.heap j ≡ some x
      → Sound started j x
  started-others j x o k = elim (append-cases h.heap j (new_channel id) x k) [
    | inl (e, _) ↦ absurd (o (sym e))
    | inr old ↦
        let s = v.sound j x old in
        record {
          few = s.few;
          known = λ e. old_entry x.id j (s.known e);
          runs = λ e. s.runs (was x e);
          armed = λ e n. s.armed (was x e) n;
        }
  ]
    where
      was : (x : Channel) → lookup x.id started.channels ≡ some j → lookup x.id h.channels ≡ some j
      was x e = elim (entry_was x.id j e) [ inl (_, n) ↦ absurd (o (sym n)) | inr w ↦ w ]

  started-Frame : h.closed ≡ false → Frame started
  started-Frame open' = record {
    points = λ q i k. elim (entry_was q i k) [
      | inl (same, n) ↦ (
        new_channel id,
        ap (get_elem? started.heap) n ∙ get-append_new h.heap (new_channel id),
        sym same,
      )
      | inr w ↦
          let (c, at_i, named) = v.frame.points q i w in
          (c, get-append_old h.heap i (new_channel id) c at_i, named)
    ];
    distinct = KeysApart-append id (length h.heap) h.channels free v.frame.distinct;
    counted = omega (arith, v.frame.counted, total-append h.heap (new_channel id));
    few_total = v.frame.few_total;
    when_closed = λ shut. ground (arith, shut, open');
    room = v.frame.room;
  }

  subscribe_new-Inv : h.closed ≡ false → Inv (after h (subscribe_new h id))
  unfolding subscribe_new start_channel
  subscribe_new-Inv open' = elim (Bool-cases (leb h.max_total h.total)) [
    | inl full ↦ rw full v
    | inr fits ↦ rw fits (
        add_sub-Inv started (length h.heap) (new_channel id) (started-Frame open') started-others
          (get-append_new h.heap (new_channel id))
          (lookup-append_new id (length h.heap) h.channels free) refl v.frame.room
          (ground (arith, fits)))
  ]

subscribe_at-Inv :
    (h : Hub) (i : ℕ) (c : Channel)
    → Inv h
    → get_elem? h.heap i ≡ some c
    → lookup c.id h.channels ≡ some i
    → Inv (after h (subscribe_at h i c))
unfolding subscribe_at
subscribe_at-Inv h i c v here mapped =
    elim (Bool-cases (leb h.max_total h.total || leb h.max_per_channel (length c.subs))) [
      | inl full ↦ rw full v
      | inr fits ↦ rw fits (
          add_sub-Inv h i c v.frame (λ j x o k. v.sound j x k) here mapped
            ((v.sound i c here).runs mapped) (ground (arith, fits)) (ground (arith, fits)))
    ]

pub subscribe-Inv : (h : Hub) (id : Text) → Inv h → Inv (after h (subscribe h id))
unfolding subscribe
subscribe-Inv h id v = elim (Bool-cases h.closed) [
  | inl shut ↦ simp (shut, subscribe) v
  | inr open' ↦
      simp (open', subscribe)
        (elim (Option-cases (lookup id h.channels)) [
          | inl free ↦ rw (free, subscribe_in) (subscribe_new-Inv h id v free open')
          | inr (i, mapped) ↦
              let (c, here, named) = v.frame.points id i mapped in
              rw (mapped, subscribe_in, here)
                (subscribe_at-Inv h i c v here (ap (λ x. lookup x h.channels) named ∙ mapped))
        ])
]
