-- ===== src/Realtime/Hub/Keeps.antt =====
-- The steps of internal/realtime/hub.go keep the hub's invariant.
use chzzk_djclass_chat.Base.{
  ℕ, suc, ◌+◌, ◌<◌, ◌≡◌, ◌≢◌, refl, ap, inl, inr, Bool, true, false, not, ◌&&◌, ◌||◌, some, List,
  [], ◌∷◌, ◌++◌, length, get_elem?, set, arith, length-append, Bool-cases, Option-cases,
}
use chzzk_djclass_chat.Base.Maps.{lookup}
use chzzk_djclass_chat.Realtime.Hub.{
  Channel, Hub, Sub, add_sub, remove_sub, has_sub, is_nil, leave, Handle, unsubscribe,
}
use chzzk_djclass_chat.Realtime.Hub.Heaps.{total-set}
use chzzk_djclass_chat.Realtime.Hub.Inv.{Sound, Frame, Inv, set-Sound, set-points}

append-ne-nil {ℓ} : {A : Type ℓ} (xs : List A) (x : A) → xs ++ x ∷ [] ≢ []
append-ne-nil [] x h = cc
append-ne-nil (y ∷ xs) x h = cc

-- A subscription to an object that the map knows and whose worker runs; nothing is asked of its
-- timer, which is stopped.
pub add_sub-Inv :
    (h : Hub) (i : ℕ) (c : Channel)
    → Frame h
    → ((j : ℕ) (x : Channel) → i ≢ j → get_elem? h.heap j ≡ some x → Sound h j x)
    → get_elem? h.heap i ≡ some c
    → lookup c.id h.channels ≡ some i
    → c.cancelled ≡ false
    → length c.subs < h.max_per_channel
    → h.total < h.max_total
    → Inv (add_sub h i c)
unfolding add_sub
add_sub-Inv h i c v others here known runs few room = record {
  sound =
      set-Sound h i c d here g refl
        (λ j x o k.
          let s = others j x o k in
          record { few = s.few; known = s.known; runs = s.runs; armed = s.armed })
        (record {
          few = omega (arith, length-append c.subs (s ∷ []));
          known = λ e. known;
          runs = λ e. runs;
          armed = λ e n. absurd (append-ne-nil c.subs s n);
        });
  frame = record {
    points = λ id j k. set-points h i c d here refl id j (v.points id j k);
    distinct = v.distinct;
    counted = omega (arith, v.counted, total-set h.heap i d c here, length-append c.subs (s ∷ []));
    few_total = room;
    when_closed = v.when_closed;
    room = v.room;
  };
}
  where
    s : Sub
    s = record { sid = h.next_sid; queue = [] }

    d : Channel
    d = record c { teardown = false; subs = c.subs ++ s ∷ [] }

    g : Hub
    g = record h { heap = set h.heap i d; total = suc h.total; next_sid = suc h.next_sid }

length-remove :
    (sid : ℕ) (subs : List Sub)
    → has_sub sid subs ≡ true
    → length (remove_sub sid subs) + 1 ≡ length subs
unfolding remove_sub
length-remove sid [] h = cc
length-remove sid (s ∷ subs) h = ground (arith, length-remove sid subs)

-- The last subscription arms the timer: the map has no channel that nobody will tear down.
pub leave-Inv :
    (h : Hub) (sid i : ℕ) (c : Channel)
    → Inv h
    → get_elem? h.heap i ≡ some c
    → has_sub sid c.subs ≡ true
    → Inv (leave h sid i c)
unfolding leave lookup
leave-Inv h sid i c v here member = record {
  sound =
      set-Sound h i c d here (leave h sid i c) refl
        (λ j x o k.
          let s = v.sound j x k in
          record { few = s.few; known = s.known; runs = s.runs; armed = s.armed })
        (record {
          few = omega (arith, mine.few, shorter);
          known = λ e. mine.known (inl has);
          runs = mine.runs;
          armed = λ e n. elim (Bool-cases h.closed) [
            | inl shut ↦ absurd (ground (arith, ap (lookup c.id) (v.frame.when_closed shut)))
            | inr open' ↦ rw (n, open') refl
          ];
        });
  frame = record {
    points = λ id j k. set-points h i c d here refl id j (v.frame.points id j k);
    distinct = v.frame.distinct;
    counted = omega (arith, v.frame.counted, total-set h.heap i d c here, shorter);
    few_total = omega (arith, v.frame.few_total);
    when_closed = v.frame.when_closed;
    room = v.frame.room;
  };
}
  where
    subs : List Sub
    subs = remove_sub sid c.subs

    last : Bool
    last = is_nil subs && not h.closed

    d : Channel
    d = record c { subs = subs; teardown = last || c.teardown; armed_once = last || c.armed_once }

    mine : Sound h i c
    mine = v.sound i c here

    shorter : length subs + 1 ≡ length c.subs
    shorter = length-remove sid c.subs member

    has : c.subs ≢ []
    has n = ground (arith, ap length n, shorter)

pub unsubscribe-Inv : (h : Hub) (s : Handle) → Inv h → Inv (unsubscribe h s)
unfolding unsubscribe
unsubscribe-Inv h (sid, i) v = elim (Option-cases (get_elem? h.heap i)) [
  | inl e ↦ rw (e, unsubscribe) v
  | inr (c, e) ↦
      rw (e, unsubscribe)
        (elim (Bool-cases (has_sub sid c.subs)) [
          | inl m ↦ rw m (leave-Inv h sid i c v e m)
          | inr m ↦ rw m v
        ])
]
