-- ===== src/TtlCache/Inv.antt =====
-- What holds between the map and the list of internal/ttlcache/ttlcache.go, and how to find an
-- element of the one through the other.
use chzzk_djclass_chat.Base.{
  ℕ, ◌≤◌, ◌<◌, ◌≡◌, ◌≢◌, refl, subst, inl, inr, true, false, none, some, List, [], ◌∷◌, length, All,
  arith, Bool-cases, ==_iff,
}
use chzzk_djclass_chat.Base.Text.{Text, text_eq, text_eq_iff}
use chzzk_djclass_chat.Base.Maps.{lookup, delete_key}
use chzzk_djclass_chat.TtlCache.{Entry, Cache, deref, unlink_el}
use chzzk_djclass_chat.TtlCache.Views.{entries, index, find_entry, erase_entry}

module _ {ℓ} {V : Type ℓ} where
  -- Two elements differ, and so do their keys.
  abbrev pub Differ : ℕ × Entry V → ℕ × Entry V → Type 0
  Differ p q = (q.0 ≢ p.0) × (q.1.key ≢ p.1.key)

  abbrev pub Apart : List (ℕ × Entry V) → Type 0
  Apart [] = Unit
  Apart (p ∷ l) = All (Differ p) l × Apart l

  pub record Inv (c : Cache V) : Type ℓ where
    pub synced : c.items ≡ index c.order
    pub apart : Apart c.order
    pub fresh : All (λ p. p.0 < c.next_id) c.order
    pub bounded : length c.order ≤ c.max
    pub positive : 0 < c.max

  -- The element that the map gives for a key, seen from both structures.
  pub record Located (key : Text) (l : List (ℕ × Entry V)) (id : ℕ) (e : Entry V) : Type ℓ where
    pub at_id : deref id l ≡ some e
    pub has_key : e.key ≡ key
    pub found : find_entry key (entries l) ≡ some e
    pub removed : delete_key key (index l) ≡ index (unlink_el id l)
    pub erased : entries (unlink_el id l) ≡ erase_entry key (entries l)

  Located-step :
      (key : Text) (i : ℕ) (a : Entry V) (l : List (ℕ × Entry V)) (id : ℕ) (e : Entry V)
      → i ≢ id
      → text_eq a.key key ≡ false
      → Located key l id e
      → Located key ((i, a) ∷ l) id e
  unfolding deref find_entry delete_key unlink_el erase_entry
  Located-step key i a l id e h k d = ground (arith, ==_iff i id)

  pub Located-here :
      (key : Text) (i : ℕ) (a : Entry V) (l : List (ℕ × Entry V))
      → text_eq a.key key ≡ true
      → Located key ((i, a) ∷ l) i a
  unfolding deref find_entry delete_key unlink_el erase_entry
  Located-here key i a l k = ground (arith, ==_iff i i, text_eq_iff a.key key)

  pub id_in_index :
      (i : ℕ) (key : Text) (l : List (ℕ × Entry V)) (id : ℕ) (a : Entry V)
      → lookup key (index l) ≡ some id
      → All (Differ (i, a)) l
      → i ≢ id
  unfolding lookup
  id_in_index i key [] id a h d = cc
  id_in_index i key ((j, b) ∷ l) id a h d = elim (Bool-cases (text_eq b.key key)) [
    | inl e ↦ ground arith
    | inr e ↦ id_in_index i key l id a (ground arith) d.1
  ]

  -- A key that the map holds leads to the entry with that key.
  pub locate :
      (key : Text) (l : List (ℕ × Entry V)) (id : ℕ)
      → Apart l
      → lookup key (index l) ≡ some id
      → (e : Entry V) × Located key l id e
  unfolding lookup
  locate key [] id d h = cc
  locate key ((i, a) ∷ l) id d h = elim (Bool-cases (text_eq a.key key)) [
    | inl e ↦ (a, subst (λ k. Located key ((i, a) ∷ l) k a) (same e) (Located-here key i a l e))
    | inr e ↦
        let tail : lookup key (index l) ≡ some id = ground arith in
        let (b, found) = locate key l id d.1 tail in
        (b, Located-step key i a l id b (id_in_index i key l id a tail d.0) e found)
  ]
    where
      same : text_eq a.key key ≡ true → i ≡ id
      same e = ground arith

  pub absent :
      (key : Text) (l : List (ℕ × Entry V))
      → lookup key (index l) ≡ none
      → (find_entry key (entries l) ≡ none) × All (λ p. p.1.key ≢ key) l
  unfolding lookup find_entry
  absent key [] h = (refl, tt)
  absent key ((i, a) ∷ l) h = elim (Bool-cases (text_eq a.key key)) [
    | inl e ↦ absurd (ground arith)
    | inr e ↦
        let ih = absent key l (ground arith) in
        (ground (arith, ih), (ground (arith, text_eq_iff a.key key), ih.1))
  ]
