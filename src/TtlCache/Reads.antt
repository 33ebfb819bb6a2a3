-- ===== src/TtlCache/Reads.antt =====
-- What `Get` returns after a `Set` (internal/ttlcache/ttlcache.go).
use chzzk_djclass_chat.Base.{
  ℕ, ◌+◌, ◌≡◌, ◌≢◌, refl, sym, ap, subst, ◌∙◌, Option, none, some, List, [], ◌∷◌, ◌++◌, length,
  arith, ltb, leb, inl, inr, Option-cases, if◌then◌else◌,
}
use mathlib.Core.List.{head?}
use mathlib.Core.Option
use mathlib.Core.Option.{some-injective}
use chzzk_djclass_chat.Base.Text.{Text, text_eq_iff, text_eq_refl}
use chzzk_djclass_chat.TtlCache.{Entry, Cache, get, set}
use chzzk_djclass_chat.TtlCache.Views.{
  entries, find_entry, replace_entry, drop_oldest, read_entries, write_entries,
}
use chzzk_djclass_chat.TtlCache.Inv.{Inv}
use chzzk_djclass_chat.TtlCache.Refines.{get-read_entries, set-write_entries}

module _ {ℓ} {V : Type ℓ} where
  find-append_absent :
      (es : List (Entry V)) (b : Entry V)
      → find_entry b.key es ≡ none
      → find_entry b.key (es ++ b ∷ []) ≡ some b
  unfolding find_entry
  find-append_absent [] b h = ground (arith, text_eq_refl b.key)
  find-append_absent (e ∷ es) b h = ground (arith, find-append_absent es b)

  find-drop_oldest :
      (key : Text) (es : List (Entry V))
      → find_entry key es ≡ none
      → find_entry key (drop_oldest es) ≡ none
  unfolding find_entry
  find-drop_oldest key [] h = refl
  find-drop_oldest key (e ∷ es) h = ground arith

  find-replace :
      (es : List (Entry V)) (b e : Entry V)
      → find_entry b.key es ≡ some e
      → find_entry b.key (replace_entry b.key b es) ≡ some b
  unfolding find_entry replace_entry
  find-replace [] b e h = cc
  find-replace (a ∷ es) b e h = ground (arith, text_eq_refl b.key, find-replace es b e)

  find-write_self :
      (max : ℕ) (b : Entry V) (es : List (Entry V))
      → find_entry b.key (write_entries max b es) ≡ some b
  unfolding write_entries
  find-write_self max b es = elim (Option-cases (find_entry b.key es)) [
    | inl gone ↦ ground (
      arith,
      gone,
      find-append_absent es b,
      find-append_absent (drop_oldest es) b,
      find-drop_oldest b.key es,
    )
    | inr (e, here) ↦ ground (arith, here, find-replace es b e)
  ]

  -- What a `Set` leaves, in terms of the entries.
  after_set :
      (c d : Cache V) (now : ℕ) (key : Text) (value : V) (ttl : ℕ)
      → Inv c
      → set c now key value ttl ≡ some d
      → Inv d
        × (entries d.order
            ≡ write_entries c.max
                (record { key = key; value = value; expires = now + ttl })
                (entries c.order))
  after_set c d now key value ttl v h =
      let (d', e, es, v', _) = set-write_entries c now key value ttl v in
      let same : d' ≡ d = some-injective d' d (sym e ∙ h) in
      (subst Inv same v', sym (ap (λ x. entries x.order) same) ∙ es)

  value_read :
      (now : ℕ) (key : Text) (es : List (Entry V)) (e : Entry V)
      → find_entry key es ≡ some e
      → (read_entries now key es).1 ≡ (if ltb now e.expires then some e.value else none)
  unfolding read_entries
  value_read now key es e h = ground arith

  -- From a sound cache, a `Get` after a `Set` of the key returns the value exactly until the
  -- time to live is over.
  get-set :
      (c d : Cache V) (now later : ℕ) (key : Text) (value : V) (ttl : ℕ)
      → Inv c
      → set c now key value ttl ≡ some d
      → Option.map (λ r. r.1) (get d later key)
        ≡ some (if ltb later (now + ttl) then some value else none)
  get-set c d now later key value ttl v h =
      let (v', es) = after_set c d now key value ttl v h in
      let (c2, g, _, _, _) = get-read_entries d later key v' in
      let b : Entry V = record { key = key; value = value; expires = now + ttl } in
      rw g (
        ap some (
          value_read later key (entries d.order) b
            (rw es (find-write_self c.max b (entries c.order)))))

  -- The key that a `Set` makes leave: the oldest, if the key is new and the cache is full.
  unfoldable victim : Cache V → Text → Option Text
  victim c key = elim (find_entry key (entries c.order)) [
    | some _ ↦ none
    | none ↦
        if leb c.max (length (entries c.order))
        then Option.map (λ e. e.key) (head? (entries c.order))
        else none
  ]

  find-append_other :
      (q : Text) (es : List (Entry V)) (b : Entry V)
      → b.key ≢ q
      → find_entry q (es ++ b ∷ []) ≡ find_entry q es
  unfolding find_entry
  find-append_other q [] b h = ground (arith, text_eq_iff b.key q)
  find-append_other q (e ∷ es) b h = ground (arith, find-append_other q es b)

  find-replace_other :
      (q : Text) (es : List (Entry V)) (b : Entry V)
      → b.key ≢ q
      → find_entry q (replace_entry b.key b es) ≡ find_entry q es
  unfolding find_entry replace_entry
  find-replace_other q [] b h = refl
  find-replace_other q (e ∷ es) b h = ground (
    arith,
    text_eq_iff b.key q,
    text_eq_iff e.key q,
    text_eq_iff e.key b.key,
    find-replace_other q es b,
  )

  find-drop_other :
      (q : Text) (es : List (Entry V))
      → Option.map (λ e. e.key) (head? es) ≢ some q
      → find_entry q (drop_oldest es) ≡ find_entry q es
  unfolding find_entry
  find-drop_other q [] h = refl
  find-drop_other q (e ∷ es) h = ground (arith, text_eq_iff e.key q)

  -- From a sound cache, a `Set` keeps the entry of every other key, except the one that it
  -- makes leave.
  set_keeps_others :
      (c d : Cache V) (now : ℕ) (key q : Text) (value : V) (ttl : ℕ)
      → Inv c
      → set c now key value ttl ≡ some d
      → key ≢ q
      → victim c key ≢ some q
      → find_entry q (entries d.order) ≡ find_entry q (entries c.order)
  unfolding victim write_entries
  set_keeps_others c d now key q value ttl v h other kept =
      let (v', es) = after_set c d now key value ttl v h in
      let b : Entry V = record { key = key; value = value; expires = now + ttl } in
      ground (
        arith,
        es,
        find-replace_other q (entries c.order) b other,
        find-append_other q (entries c.order) b other,
        find-append_other q (drop_oldest (entries c.order)) b other,
        find-drop_other q (entries c.order),
      )
