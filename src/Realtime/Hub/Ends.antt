-- ===== src/Realtime/Hub/Ends.antt =====
-- The teardown of a channel, the close of the hub and the buffers of internal/realtime/hub.go keep
-- the hub's invariant.
use chzzk_djclass_chat.Base.{
  ℕ, suc, ◌≡◌, ◌≢◌, refl, sym, ap, ◌∙◌, inl, inr, true, ◌&&◌, Option, none, some, List, [], ◌∷◌,
  ◌++◌, length, get_elem?, set, arith, Bool-cases, Option-cases, ==_iff,
}
use mathlib.Core.Option.{some-injective}
use chzzk_djclass_chat.Base.Maps.{
  lookup, delete_key, lookup-delete_other, lookup-delete_self, KeysApart-delete,
}
use chzzk_djclass_chat.Base.Text.{Text, text_eq, text_eq_iff}
use chzzk_djclass_chat.Realtime.Hub.{
  Channel, Hub, Sub, is_nil, same_ref, tear_down, fire, push, inject, deliver, flush_once,
}
use chzzk_djclass_chat.Realtime.Batch.{Resolver, ChatMessage, BatchMessage, build_batch}
use chzzk_djclass_chat.Realtime.Hub.Heaps.{total-set}
use chzzk_djclass_chat.Realtime.Hub.Inv.{Sound, Inv, set-Sound, set-points}

none-clash {ℓ} : {A : Type ℓ} {o : Option A} {x : A} → o ≡ none → o ≢ some x
none-clash p q = cc

-- A channel that the map no longer has, after its entry is deleted.
deleted_other :
    (k q : Text) (m : List (Text × ℕ)) (i : ℕ)
    → lookup k (delete_key k m) ≡ none
    → lookup q (delete_key k m) ≡ some i
    → lookup q m ≡ some i
deleted_other k q m i gone h = elim (Bool-cases (text_eq k q)) [
  | inl e ↦
      absurd (
        ground
          (arith, text_eq_iff k q, ap (λ x. lookup x (delete_key k m)) ((text_eq_iff k q).0 e)))
  | inr e ↦ sym (lookup-delete_other k q m (λ s. ground (arith, text_eq_iff k q))) ∙ h
]

-- An idle channel leaves the map and its worker is cancelled.
remove_idle-Inv :
    (h : Hub) (i : ℕ) (c : Channel)
    → Inv h
    → get_elem? h.heap i ≡ some c
    → c.subs ≡ []
    → lookup c.id h.channels ≡ some i
    → Inv (record h {
      channels = delete_key c.id h.channels;
      heap = set h.heap i (record c { cancelled = true });
    })
remove_idle-Inv h i c v here idle mapped = record {
  sound = set-Sound h i c d here g refl other (record {
    few = omega (arith, ap length idle);
    known = λ e. ground (arith, e);
    runs = λ e. absurd (none-clash gone e);
    armed = λ e n. absurd (none-clash gone e);
  });
  frame = record {
    points = λ id j k.
        set-points h i c d here refl id j
          (v.frame.points id j (deleted_other c.id id h.channels j gone k));
    distinct = KeysApart-delete c.id h.channels v.frame.distinct;
    counted = omega (arith, v.frame.counted, total-set h.heap i d c here);
    few_total = v.frame.few_total;
    when_closed = λ shut. rw (v.frame.when_closed shut) (unfold delete_key in refl);
    room = v.frame.room;
  };
}
  where
    d : Channel
    d = record c { cancelled = true }

    g : Hub
    g = record h { channels = delete_key c.id h.channels; heap = set h.heap i d }

    gone : lookup c.id (delete_key c.id h.channels) ≡ none
    gone = lookup-delete_self c.id h.channels v.frame.distinct

    other : (j : ℕ) (x : Channel) → i ≢ j → get_elem? h.heap j ≡ some x → Sound g j x
    other j x o k =
        let s = v.sound j x k in
        record {
          few = s.few;
          known = λ e.
              lookup-delete_other c.id x.id h.channels (λ same.
                o (
                  some-injective i j (sym mapped ∙ ap (λ z. lookup z h.channels) same ∙ s.known e)))
              ∙ s.known e;
          runs = λ e. s.runs (deleted_other c.id x.id h.channels j gone e);
          armed = λ e n. s.armed (deleted_other c.id x.id h.channels j gone e) n;
        }

is_nil-eq {ℓ} : {A : Type ℓ} (xs : List A) → is_nil xs ≡ true → xs ≡ []
is_nil-eq [] h = refl
is_nil-eq (x ∷ xs) h = cc

same_ref-eq : (o : Option ℕ) (i : ℕ) → same_ref o i ≡ true → o ≡ some i
same_ref-eq none i h = cc
same_ref-eq (some r) i h = ap some ((==_iff r i).0 h)

tear_down-Inv :
    (h : Hub) (i : ℕ) (c : Channel) → Inv h → get_elem? h.heap i ≡ some c → Inv (tear_down h i c)
unfolding tear_down
tear_down-Inv h i c v here =
    elim (Bool-cases (is_nil c.subs && same_ref (lookup c.id h.channels) i)) [
      | inl e ↦ rw e (
          remove_idle-Inv h i c v here (is_nil-eq c.subs (ground (arith, e)))
            (same_ref-eq (lookup c.id h.channels) i (ground (arith, e))))
      | inr e ↦ rw e v
    ]

pub fire-Inv : (h : Hub) (i : ℕ) → Inv h → Inv (fire h i)
unfolding fire
fire-Inv h i v = elim (Option-cases (get_elem? h.heap i)) [
  | inl e ↦ rw (e, fire) v
  | inr (c, e) ↦ rw (e, fire) (tear_down-Inv h i c v e)
]

empty-of {ℓ} : {A : Type ℓ} (xs : List A) → length xs ≡ 0 → xs ≡ []
empty-of [] h = refl
empty-of (x ∷ xs) h = absurd (omega (arith, h))

-- A write that changes the buffers alone: those of the channel, and those of its subscriptions.
touch-Inv :
    (h : Hub) (i : ℕ) (c : Channel) (b : List ChatMessage) (subs : List Sub) (n : ℕ)
    → Inv h
    → get_elem? h.heap i ≡ some c
    → length subs ≡ length c.subs
    → Inv (record h { heap = set h.heap i (record c { buffer = b; subs = subs }); next_id = n })
touch-Inv h i c b subs n v here same = record {
  sound =
      set-Sound h i c d here g refl
        (λ j x o k.
          let s = v.sound j x k in
          record { few = s.few; known = s.known; runs = s.runs; armed = s.armed })
        (record {
          few = omega (arith, mine.few, same);
          known = elim [
            | inl e ↦ mine.known (inl (λ z. e (empty-of subs (same ∙ ap length z))))
            | inr e ↦ mine.known (inr e)
          ];
          runs = mine.runs;
          armed = λ e z. mine.armed e (empty-of c.subs (sym same ∙ ap length z));
        });
  frame = record {
    points = λ id j k. set-points h i c d here refl id j (v.frame.points id j k);
    distinct = v.frame.distinct;
    counted = omega (arith, v.frame.counted, total-set h.heap i d c here, same);
    few_total = v.frame.few_total;
    when_closed = v.frame.when_closed;
    room = v.frame.room;
  };
}
  where
    d : Channel
    d = record c { buffer = b; subs = subs }

    g : Hub
    g = record h { heap = set h.heap i d; next_id = n }

    mine : Sound h i c
    mine = v.sound i c here

pub push-Inv : (h : Hub) (i : ℕ) (m : ChatMessage) → Inv h → Inv (push h i m)
unfolding push
push-Inv h i m v = elim (Option-cases (get_elem? h.heap i)) [
  | inl e ↦ rw (e, push) v
  | inr (c, e) ↦ rw (e, push) (touch-Inv h i c (c.buffer ++ m ∷ []) c.subs h.next_id v e refl)
]

pub inject-Inv : (h : Hub) (id : Text) (m : ChatMessage) → Inv h → Inv (inject h id m).0
unfolding inject
inject-Inv h id m v = elim (Option-cases (lookup id h.channels)) [
  | inl e ↦ rw (e, inject) v
  | inr (i, e) ↦ rw (e, inject) (push-Inv h i m v)
]

length-deliver : (b : List BatchMessage) (subs : List Sub) → length (deliver b subs) ≡ length subs
unfolding deliver
length-deliver b [] = refl
length-deliver b (s ∷ subs) = ap suc (length-deliver b subs)

pub flush_once-Inv : (r : Resolver) (h : Hub) (i : ℕ) → Inv h → Inv (flush_once r h i)
unfolding flush_once
flush_once-Inv r h i v = elim (Option-cases (get_elem? h.heap i)) [
  | inl e ↦ rw (e, flush_once) v
  | inr (c, e) ↦
      rw (e, flush_once)
        (elim (Bool-cases (is_nil c.buffer)) [
          | inl b ↦ rw b v
          | inr b ↦ rw b (elim (Bool-cases (is_nil c.subs)) [
            | inl s ↦ rw s (touch-Inv h i c [] c.subs h.next_id v e refl)
            | inr s ↦ rw s (
                let p = build_batch r h.next_id c.buffer in
                touch-Inv h i c [] (deliver p.0 c.subs) p.1 v e (length-deliver p.0 c.subs))
          ])
        ])
]
