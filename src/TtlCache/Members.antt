-- ===== src/TtlCache/Members.antt =====
-- What holds of every entry of a cache (internal/ttlcache/ttlcache.go) after a call.
use chzzk_djclass_chat.Base.{
  ℕ, ◌≡◌, ◌≢◌, inl, inr, some, List, [], ◌∷◌, length, All, All-append, arith, ltb, leb, Bool-cases,
  Option-cases,
}
use chzzk_djclass_chat.Base.Text.{Text, text_eq, text_eq_iff}
use chzzk_djclass_chat.TtlCache.{Entry}
use chzzk_djclass_chat.TtlCache.Inv.{Differ, Apart}
use chzzk_djclass_chat.TtlCache.Views.{
  entries, find_entry, erase_entry, replace_entry, drop_oldest, read_entries, write_entries,
}

module _ {ℓ κ} {V : Type ℓ} (P : Entry V → Type κ) where
  pub All-erase : (key : Text) (es : List (Entry V)) → All P es → All P (erase_entry key es)
  unfolding erase_entry
  All-erase key [] h = tt
  All-erase key (e ∷ es) h = elim (Bool-cases (text_eq e.key key)) [
    | inl k ↦ rw k h.1
    | inr k ↦ rw k (h.0, All-erase key es h.1)
  ]

  pub All-read :
      (now : ℕ) (key : Text) (es : List (Entry V)) → All P es → All P (read_entries now key es).0
  unfolding read_entries
  All-read now key es h = elim (Option-cases (find_entry key es)) [
    | inl gone ↦ rw (gone, read_entries) h
    | inr (e, here) ↦ elim (Bool-cases (ltb now e.expires)) [
      | inl live ↦ rw (here, read_entries) (rw live h)
      | inr dead ↦ rw (here, read_entries) (rw dead (All-erase key es h))
    ]
  ]

  All-replace :
      (key : Text) (b : Entry V) (es : List (Entry V))
      → P b
      → All P es
      → All P (replace_entry key b es)
  unfolding replace_entry
  All-replace key b [] p h = tt
  All-replace key b (e ∷ es) p h = elim (Bool-cases (text_eq e.key key)) [
    | inl k ↦ rw k (p, h.1)
    | inr k ↦ rw k (h.0, All-replace key b es p h.1)
  ]

  All-drop : (es : List (Entry V)) → All P es → All P (drop_oldest es)
  All-drop [] h = tt
  All-drop (e ∷ es) h = h.1

  pub All-write :
      (max : ℕ) (b : Entry V) (es : List (Entry V))
      → P b
      → All P es
      → All P (write_entries max b es)
  unfolding write_entries
  All-write max b es p h = elim (Option-cases (find_entry b.key es)) [
    | inr (e, here) ↦ rw (here, write_entries) (All-replace b.key b es p h)
    | inl gone ↦
        rw (gone, write_entries)
          (elim (Bool-cases (leb max (length es))) [
            | inl full ↦ rw full (All-append P (drop_oldest es) (b ∷ []) (All-drop es h) (p, tt))
            | inr spare ↦ rw spare (All-append P es (b ∷ []) h (p, tt))
          ])
  ]

  pub find-All :
      (key : Text) (es : List (Entry V)) (e : Entry V)
      → find_entry key es ≡ some e
      → All P es
      → P e × (e.key ≡ key)
  unfolding find_entry
  find-All key [] e h a = cc
  find-All key (x ∷ es) e h a = elim (Bool-cases (text_eq x.key key)) [
    | inl k ↦ (ground arith, ground (arith, text_eq_iff x.key key))
    | inr k ↦ find-All key es e (ground arith) a.1
  ]

module _ {ℓ} {V : Type ℓ} where
  entries-Differ :
      (i : ℕ) (a : Entry V) (l : List (ℕ × Entry V))
      → All (Differ (i, a)) l
      → All (λ e. e.key ≢ a.key) (entries l)
  entries-Differ i a [] h = tt
  entries-Differ i a (p ∷ l) h = (h.0.1, entries-Differ i a l h.1)

  -- Keys are distinct, so erasing one leaves no entry with it.
  pub erase_no_key :
      (key : Text) (l : List (ℕ × Entry V))
      → Apart l
      → All (λ e. e.key ≢ key) (erase_entry key (entries l))
  unfolding erase_entry
  erase_no_key key [] d = tt
  erase_no_key key ((i, a) ∷ l) d = elim (Bool-cases (text_eq a.key key)) [
    | inl k ↦ rw k (rw (← (text_eq_iff a.key key).0 k) (entries-Differ i a l d.0))
    | inr k ↦ rw k ((λ e. ground (arith, text_eq_iff a.key key)), erase_no_key key l d.1)
  ]
