-- ===== src/TtlCache/Refines.antt =====
-- The operations of internal/ttlcache/ttlcache.go against the dictionary of TtlCache.Views, and
-- what can be read after a call.
use chzzk_djclass_chat.Base.{
  ℕ, ◌+◌, ◌<◌, ◌≡◌, refl, sym, ap, ◌∙◌, none, some, List, [], ◌∷◌, ◌++◌, arith, ltb, inl, inr,
  Bool-cases, Option-cases,
}
use chzzk_djclass_chat.Base.Text.{Text}
use chzzk_djclass_chat.Base.Maps.{lookup}
use chzzk_djclass_chat.TtlCache.{Entry, Cache, new, assign, remove, push_back, get, set, delete}
use chzzk_djclass_chat.TtlCache.Views.{
  entries, index, find_entry, erase_entry, read_entries, write_entries,
}
use chzzk_djclass_chat.TtlCache.Inv.{Inv, Located, locate, absent}
use chzzk_djclass_chat.TtlCache.Elements.{entries-assign, entries-append, length-entries}
use chzzk_djclass_chat.TtlCache.Keeps.{
  MadeRoom, remove-Inv, assign-Inv, push_back-Inv, make_room_lem,
}

module _ {ℓ} {V : Type ℓ} where
  pub new-Inv : (n : ℕ) → 0 < n → Inv (new {V = V} n)
  unfolding new
  new-Inv n h = record {
    synced = refl;
    apart = tt;
    fresh = tt;
    bounded = omega arith;
    positive = h;
  }

  map_lookup : (c : Cache V) (key : Text) → Inv c → lookup key c.items ≡ lookup key (index c.order)
  map_lookup c key v = ap (lookup key) v.synced

  -- What `get` leaves and returns.
  abbrev pub GetRefines : Cache V → ℕ → Text → Type ℓ
  GetRefines c now key =
      (d : Cache V) × (get c now key ≡ some (d, (read_entries now key (entries c.order)).1))
      × (entries d.order ≡ (read_entries now key (entries c.order)).0)
      × Inv d
      × (d.max ≡ c.max)

  removed_entries :
      {key : Text} (c : Cache V) (id : ℕ) (e : Entry V)
      → Located key c.order id e
      → entries (remove c id e).order ≡ erase_entry key (entries c.order)
  unfolding remove
  removed_entries c id e d = d.erased

  same_max : (c : Cache V) (id : ℕ) (e : Entry V) → (remove c id e).max ≡ c.max
  unfolding remove
  same_max c id e = refl

  get_hit :
      (c : Cache V) (now : ℕ) (key : Text) (id : ℕ) (e : Entry V)
      → Inv c
      → lookup key c.items ≡ some id
      → Located key c.order id e
      → GetRefines c now key
  unfolding get read_entries
  get_hit c now key id e v m d = elim (Bool-cases (ltb now e.expires)) [
    | inl live ↦ (c, ground arith, ground arith, v, refl)
    | inr dead ↦ (
      remove c id e,
      ground arith,
      rw (d.found, read_entries) (rw dead (removed_entries c id e d)),
      remove-Inv c key id e v d,
      same_max c id e,
    )
  ]

  -- `Get` on a sound cache never panics. It returns the value of a live entry, removes a dead
  -- one, changes nothing else, and leaves a sound cache.
  pub get-read_entries : (c : Cache V) (now : ℕ) (key : Text) → Inv c → GetRefines c now key
  unfolding get read_entries
  get-read_entries c now key v = elim (Option-cases (lookup key (index c.order))) [
    | inl miss ↦
        let m = map_lookup c key v ∙ miss in
        let (gone, _) = absent key c.order miss in (c, ground arith, ground arith, v, refl)
    | inr (id, hit) ↦
        let (e, d) = locate key c.order id v.apart hit in
        get_hit c now key id e v (map_lookup c key v ∙ hit) d
  ]

  -- `Set` on a sound cache never panics. It writes the entry in its place, or appends it after
  -- the oldest has left a full cache, and leaves a sound cache, which holds no more than its
  -- maximum.
  pub set-write_entries :
      (c : Cache V) (now : ℕ) (key : Text) (value : V) (ttl : ℕ)
      → Inv c
      → (d : Cache V) × (set c now key value ttl ≡ some d)
        × (entries d.order
            ≡ write_entries c.max
                (record { key = key; value = value; expires = now + ttl })
                (entries c.order))
        × Inv d
        × (d.max ≡ c.max)
  unfolding set write_entries
  set-write_entries c now key value ttl v = elim (Option-cases (lookup key (index c.order))) [
    | inl miss ↦
        let m = map_lookup c key v ∙ miss in
        let (gone, no_key) = absent key c.order miss in
        let (d, made, ok) = make_room_lem c v in
        (
          push_back d key value (now + ttl),
          ground arith,
          pushed d gone ok,
          push_back-Inv d key value (now + ttl) ok.valid ok.room (ok.no_key key no_key),
          ok.same_max,
        )
    | inr (id, hit) ↦
        let m = map_lookup c key v ∙ hit in
        let (e, d) = locate key c.order id v.apart hit in
        (
          record c { order = assign id (record e { value = value; expires = now + ttl }) c.order },
          ground (arith, d.at_id),
          written e id d hit,
          assign-Inv c id e _ v d.at_id refl,
          refl,
        )
  ]
    where
      new_entry : Entry V
      new_entry = record { key = key; value = value; expires = now + ttl }

      pushed :
          (d : Cache V)
          → find_entry key (entries c.order) ≡ none
          → MadeRoom c d
          → entries (push_back d key value (now + ttl)).order
            ≡ write_entries c.max new_entry (entries c.order)
      pushed d gone ok =
          rw (gone, write_entries)
            (rw (length-entries c.order)
              (entries-append d.next_id new_entry d.order ∙ ap (λ l. l ++ new_entry ∷ []) ok.left))

      written :
          (e : Entry V) (id : ℕ)
          → Located key c.order id e
          → lookup key (index c.order) ≡ some id
          → entries (assign id (record e { value = value; expires = now + ttl }) c.order)
            ≡ write_entries c.max new_entry (entries c.order)
      written e id d hit =
          rw (d.found, write_entries) (rw d.has_key (entries-assign key _ c.order id v.apart hit))

  erase_entry_absent :
      (key : Text) (es : List (Entry V)) → find_entry key es ≡ none → erase_entry key es ≡ es
  unfolding find_entry erase_entry
  erase_entry_absent key [] h = refl
  erase_entry_absent key (e ∷ es) h = ground (arith, erase_entry_absent key es)

  -- `Delete` on a sound cache never panics, removes the entry with the key if there is one, and
  -- leaves a sound cache.
  pub delete-erase_entry :
      (c : Cache V) (key : Text)
      → Inv c
      → (d : Cache V) × (delete c key ≡ some d)
        × (entries d.order ≡ erase_entry key (entries c.order))
        × Inv d
        × (d.max ≡ c.max)
  unfolding delete
  delete-erase_entry c key v = elim (Option-cases (lookup key (index c.order))) [
    | inl miss ↦
        let m = map_lookup c key v ∙ miss in
        (
          c,
          ground arith,
          sym (erase_entry_absent key (entries c.order) (absent key c.order miss).0),
          v,
          refl,
        )
    | inr (id, hit) ↦
        let m = map_lookup c key v ∙ hit in
        let (e, d) = locate key c.order id v.apart hit in
        (
          remove c id e,
          ground (arith, d.at_id),
          removed_entries c id e d,
          remove-Inv c key id e v d,
          same_max c id e,
        )
  ]
