-- ===== src/TtlCache/Keeps.antt =====
-- The steps of internal/ttlcache/ttlcache.go keep the invariant, and act on the entries.
use chzzk_djclass_chat.Base.{
  ℕ, suc, ◌<◌, ◌≡◌, ◌≢◌, refl, sym, ap, subst, ◌∙◌, true, false, some, List, [], ◌∷◌, length, All,
  All-map, All-append, arith, if◌then◌else◌, leb, length-append, inl, inr, Bool-cases, ==_refl,
}
use chzzk_djclass_chat.Base.Text.{Text, text_eq_refl}
use chzzk_djclass_chat.TtlCache.{
  Entry, Cache, deref, unlink_el, assign, remove, make_room, push_back,
}
use chzzk_djclass_chat.TtlCache.Views.{entries, drop_oldest}
use chzzk_djclass_chat.TtlCache.Inv.{Inv, Located, Located-here}
use chzzk_djclass_chat.TtlCache.Elements.{
  All-unlink, Apart-unlink, length-unlink-le, All-assign, Apart-assign, index-assign, length-assign,
  Apart-append, index-append, length-index,
}

module _ {ℓ} {V : Type ℓ} where
  pub remove-Inv :
      (c : Cache V) (key : Text) (id : ℕ) (e : Entry V)
      → Inv c
      → Located key c.order id e
      → Inv (remove c id e)
  unfolding remove
  remove-Inv c key id e v d = record {
    synced = rw (v.synced, d.has_key) d.removed;
    apart = Apart-unlink id c.order v.apart;
    fresh = All-unlink (λ p. p.0 < c.next_id) id c.order v.fresh;
    bounded = omega (arith, length-unlink-le id c.order, v.bounded);
    positive = v.positive;
  }

  pub assign-Inv :
      (c : Cache V) (id : ℕ) (e b : Entry V)
      → Inv c
      → deref id c.order ≡ some e
      → b.key ≡ e.key
      → Inv (record c { order = assign id b c.order })
  assign-Inv c id e b v d k = record {
    synced = v.synced ∙ sym (index-assign id e b k c.order d);
    apart = Apart-assign id e b k c.order d v.apart;
    fresh = All-assign (λ p. p.0 < c.next_id) id b c.order e d (λ p. p) v.fresh;
    bounded = omega (arith, length-assign id b c.order, v.bounded);
    positive = v.positive;
  }

  -- A cache with a place left for one more entry.
  pub push_back-Inv :
      (c : Cache V) (key : Text) (value : V) (expires : ℕ)
      → Inv c
      → length c.order < c.max
      → All (λ p. p.1.key ≢ key) c.order
      → Inv (push_back c key value expires)
  unfolding push_back
  push_back-Inv c key value expires v room new_key = record {
    synced = rw (v.synced) (sym (index-append c.next_id e c.order));
    apart = Apart-append c.next_id e c.order v.apart v.fresh new_key;
    fresh =
        All-append (λ p. p.0 < suc c.next_id) c.order ((c.next_id, e) ∷ [])
          (All-map (λ p. p.0 < c.next_id) (λ p. p.0 < suc c.next_id) c.order (λ p h. omega arith)
            v.fresh)
          (omega arith, tt);
    bounded = omega (arith, length-append c.order ((c.next_id, e) ∷ []));
    positive = v.positive;
  }
    where
      e : Entry V
      e = record { key = key; value = value; expires = expires }

  -- The cache that `make_room` leaves: with a place, and without the oldest entry if it was full.
  pub record MadeRoom (c d : Cache V) : Type ℓ where
    pub valid : Inv d
    pub left :
        entries d.order
        ≡ (if leb c.max (length c.order) then drop_oldest (entries c.order) else entries c.order)
    pub room : length d.order < d.max
    pub same_max : d.max ≡ c.max
    pub no_key : (key : Text) → All (λ p. p.1.key ≢ key) c.order → All (λ p. p.1.key ≢ key) d.order

  unlink_head : (id : ℕ) (e : Entry V) (l : List (ℕ × Entry V)) → unlink_el id ((id, e) ∷ l) ≡ l
  unfolding unlink_el
  unlink_head id e l = ground (arith, ==_refl id)

  drop_oldest-MadeRoom :
      (c : Cache V) (id : ℕ) (e : Entry V) (l : List (ℕ × Entry V))
      → Inv c
      → c.order ≡ (id, e) ∷ l
      → leb c.max (length c.order) ≡ true
      → MadeRoom c (remove c id e)
  unfolding remove
  drop_oldest-MadeRoom c id e l v o full = record {
    valid =
        unfold remove in
        remove-Inv c e.key id e v (
          subst (λ k. Located e.key k id e) (sym o)
            (Located-here e.key id e l (text_eq_refl e.key)));
    left = rw full (rw (o, unlink_head) refl);
    room = rw (o, unlink_head) (let b = v.bounded in omega (arith, ap length o));
    same_max = refl;
    no_key = λ key h. All-unlink (λ p. p.1.key ≢ key) id c.order h;
  }

  keep-MadeRoom : (c : Cache V) → Inv c → leb c.max (length c.order) ≡ false → MadeRoom c c
  keep-MadeRoom c v spare = record {
    valid = v;
    left = rw spare;
    room = ground arith;
    same_max = refl;
    no_key = λ key h. h;
  }

  -- `make_room` never panics.
  pub make_room_lem :
      (c : Cache V) → Inv c → (d : Cache V) × (make_room c c.order ≡ some d) × MadeRoom c d
  unfolding make_room
  make_room_lem c v = elim (Bool-cases (leb c.max (length c.order))) [
    | inl full ↦ when_full c.order refl full
    | inr spare ↦ (c, when_spare c.order refl spare, keep-MadeRoom c v spare)
  ]
    where
      counted : length c.items ≡ length c.order
      counted = ap length v.synced ∙ length-index c.order

      when_full :
          (l : List (ℕ × Entry V))
          → c.order ≡ l
          → leb c.max (length c.order) ≡ true
          → (d : Cache V) × (make_room c l ≡ some d) × MadeRoom c d
      when_full [] o full = absurd (ground (arith, v.positive, ap length o))
      when_full ((id, e) ∷ l) o full =
          (remove c id e, rw (counted, full) refl, drop_oldest-MadeRoom c id e l v o full)

      when_spare :
          (l : List (ℕ × Entry V))
          → c.order ≡ l
          → leb c.max (length c.order) ≡ false
          → make_room c l ≡ some c
      when_spare [] o spare = rw (counted, spare) refl
      when_spare ((id, e) ∷ l) o spare = rw (counted, spare) refl
