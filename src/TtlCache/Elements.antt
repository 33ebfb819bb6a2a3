-- ===== src/TtlCache/Elements.antt =====
-- Removing, writing and adding an element of the list of internal/ttlcache/ttlcache.go.
use chzzk_djclass_chat.Base.{
  ℕ, suc, ◌+◌, ◌≤◌, ◌<◌, ◌≡◌, ◌≢◌, refl, sym, ap, subst, inl, inr, true, some, List, [], ◌∷◌, ◌++◌,
  length, All, All-append, arith, Bool-cases, ==_iff, ◌==◌,
}
use mathlib.Core.Path.{subst₂}
use chzzk_djclass_chat.Base.Text.{Text, text_eq}
use chzzk_djclass_chat.Base.Maps.{lookup}
use chzzk_djclass_chat.TtlCache.{Entry, deref, unlink_el, assign}
use chzzk_djclass_chat.TtlCache.Views.{entries, index, replace_entry}
use chzzk_djclass_chat.TtlCache.Inv.{Differ, Apart, id_in_index}

module _ {ℓ} {V : Type ℓ} where
  pub All-unlink {κ} :
      (P : ℕ × Entry V → Type κ) (id : ℕ) (l : List (ℕ × Entry V))
      → All P l
      → All P (unlink_el id l)
  unfolding unlink_el
  All-unlink P id [] h = tt
  All-unlink P id ((i, a) ∷ l) h = elim (Bool-cases (i == id)) [
    | inl e ↦ rw e h.1
    | inr e ↦ rw e (h.0, All-unlink P id l h.1)
  ]

  pub Apart-unlink : (id : ℕ) (l : List (ℕ × Entry V)) → Apart l → Apart (unlink_el id l)
  unfolding unlink_el
  Apart-unlink id [] h = tt
  Apart-unlink id ((i, a) ∷ l) h = elim (Bool-cases (i == id)) [
    | inl e ↦ rw e h.1
    | inr e ↦ rw e (All-unlink (Differ (i, a)) id l h.0, Apart-unlink id l h.1)
  ]

  pub length-unlink-le : (id : ℕ) (l : List (ℕ × Entry V)) → length (unlink_el id l) ≤ length l
  unfolding unlink_el
  length-unlink-le id [] = omega arith
  length-unlink-le id ((i, a) ∷ l) = ground (arith, length-unlink-le id l)

  pub length-unlink :
      (id : ℕ) (l : List (ℕ × Entry V)) (e : Entry V)
      → deref id l ≡ some e
      → length (unlink_el id l) + 1 ≡ length l
  unfolding unlink_el deref
  length-unlink id [] e h = cc
  length-unlink id ((i, a) ∷ l) e h = ground (arith, length-unlink id l e)

  -- A write that keeps the key keeps what is said of identities and keys.
  pub All-assign {κ} :
      (P : ℕ × Entry V → Type κ) (id : ℕ) (b : Entry V) (l : List (ℕ × Entry V)) (e : Entry V)
      → deref id l ≡ some e
      → (P (id, e) → P (id, b))
      → All P l
      → All P (assign id b l)
  unfolding assign deref
  All-assign P id b [] e d f h = tt
  All-assign P id b ((i, a) ∷ l) e d f h = elim (Bool-cases (i == id)) [
    | inl k ↦ rw k (moved k, h.1)
    | inr k ↦ rw k (h.0, All-assign P id b l e (ground arith) f h.1)
  ]
    where
      hit : i == id ≡ true → (i ≡ id) × (a ≡ e)
      hit k = ground (arith, ==_iff i id)

      moved : i == id ≡ true → P (i, b)
      moved k =
          subst (λ j. P (j, b)) (sym (hit k).0)
            (f (subst₂ (λ j x. P (j, x)) (hit k).0 (hit k).1 h.0))

  module _ (id : ℕ) (e b : Entry V) (same_key : b.key ≡ e.key) where
    pub Apart-assign :
        (l : List (ℕ × Entry V)) → deref id l ≡ some e → Apart l → Apart (assign id b l)
    unfolding assign deref
    Apart-assign [] d h = tt
    Apart-assign ((i, a) ∷ l) d h = elim (Bool-cases (i == id)) [
      | inl k ↦ rw k (subst (λ t. All (λ q. (q.0 ≢ i) × (q.1.key ≢ t)) l) (kept k) h.0, h.1)
      | inr k ↦ rw k (
        All-assign (Differ (i, a)) id b l e (ground arith) (λ p. (p.0, rw same_key p.1)) h.0,
        Apart-assign l (ground arith) h.1,
      )
    ]
      where
        kept : i == id ≡ true → a.key ≡ b.key
        kept k = ground (arith, ==_iff i id)

    pub index-assign :
        (l : List (ℕ × Entry V)) → deref id l ≡ some e → index (assign id b l) ≡ index l
    unfolding assign deref
    index-assign [] d = refl
    index-assign ((i, a) ∷ l) d = ground (arith, index-assign l)

  pub length-assign :
      (id : ℕ) (b : Entry V) (l : List (ℕ × Entry V)) → length (assign id b l) ≡ length l
  unfolding assign
  length-assign id b [] = refl
  length-assign id b ((i, a) ∷ l) = ground (arith, length-assign id b l)

  -- A write through the element of a key is a write at the key.
  pub entries-assign :
      (key : Text) (b : Entry V) (l : List (ℕ × Entry V)) (id : ℕ)
      → Apart l
      → lookup key (index l) ≡ some id
      → entries (assign id b l) ≡ replace_entry key b (entries l)
  unfolding assign lookup replace_entry
  entries-assign key b [] id d h = cc
  entries-assign key b ((i, a) ∷ l) id d h = elim (Bool-cases (text_eq a.key key)) [
    | inl e ↦ ground (arith, ==_iff i id)
    | inr e ↦
        let tail : lookup key (index l) ≡ some id = ground arith in
        let other = id_in_index i key l id a tail d.0 in
        ground (arith, ==_iff i id, entries-assign key b l id d.1 tail)
  ]

  module _ (id : ℕ) (e : Entry V) where
    pub Apart-append :
        (l : List (ℕ × Entry V))
        → Apart l
        → All (λ p. p.0 < id) l
        → All (λ p. p.1.key ≢ e.key) l
        → Apart (l ++ (id, e) ∷ [])
    Apart-append [] d h k = (tt, tt)
    Apart-append ((i, a) ∷ l) d h k = (
      All-append (Differ (i, a)) l ((id, e) ∷ []) d.0 ((ground arith, λ p. k.0 (sym p)), tt),
      Apart-append l d.1 h.1 k.1,
    )

    pub index-append :
        (l : List (ℕ × Entry V)) → index (l ++ (id, e) ∷ []) ≡ index l ++ (e.key, id) ∷ []
    index-append [] = refl
    index-append ((i, a) ∷ l) = ap (◌∷◌ (a.key, i)) (index-append l)

    pub entries-append :
        (l : List (ℕ × Entry V)) → entries (l ++ (id, e) ∷ []) ≡ entries l ++ e ∷ []
    entries-append [] = refl
    entries-append ((i, a) ∷ l) = ap (◌∷◌ a) (entries-append l)

  pub length-entries : (l : List (ℕ × Entry V)) → length (entries l) ≡ length l
  length-entries [] = refl
  length-entries ((i, a) ∷ l) = ap suc (length-entries l)

  pub length-index : (l : List (ℕ × Entry V)) → length (index l) ≡ length l
  length-index [] = refl
  length-index ((i, a) ∷ l) = ap suc (length-index l)
