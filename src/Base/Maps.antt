-- ===== src/Base/Maps.antt =====
-- A Go map with string keys as the list of its entries.
use mathlib.Core.Path.{◌≡◌, refl, ◌∙◌}
use mathlib.Core.Logic.{◌≢◌, inl, inr}
use mathlib.Core.List.{List, [], ◌∷◌, ◌++◌}
use mathlib.Core.Option.{Option, none, some}
use native.Mathlib.Omega.{arith}
use chzzk_djclass_chat.Base.Tests.{Bool-cases, if◌then◌else◌}
use chzzk_djclass_chat.Base.Text.{Text, text_eq, text_eq_iff, text_eq_refl}

module _ {ℓ} {A : Type ℓ} where
  -- A map read at a key.
  unfoldable pub lookup : Text → List (Text × A) → Option A
  lookup k [] = none
  lookup k ((j, a) ∷ m) = if text_eq j k then some a else lookup k m

  -- `delete(m, k)`
  unfoldable pub delete_key : Text → List (Text × A) → List (Text × A)
  delete_key k [] = []
  delete_key k ((j, a) ∷ m) = if text_eq j k then m else (j, a) ∷ delete_key k m

  pub lookup-delete_other :
      (k q : Text) (m : List (Text × A)) → k ≢ q → lookup q (delete_key k m) ≡ lookup q m
  unfolding lookup delete_key
  lookup-delete_other k q [] h = refl
  lookup-delete_other k q ((j, a) ∷ m) h =
      ground (arith, text_eq_iff j k, text_eq_iff j q, lookup-delete_other k q m h)

  pub lookup-append_other :
      (k q : Text) (a : A) (m : List (Text × A)) → k ≢ q → lookup q (m ++ (k, a) ∷ []) ≡ lookup q m
  unfolding lookup
  lookup-append_other k q a [] h = ground (arith, text_eq_iff k q)
  lookup-append_other k q a ((j, b) ∷ m) h = ground (arith, lookup-append_other k q a m h)

  pub lookup-append_new :
      (k : Text) (a : A) (m : List (Text × A))
      → lookup k m ≡ none
      → lookup k (m ++ (k, a) ∷ []) ≡ some a
  unfolding lookup
  lookup-append_new k a [] h = ground (arith, text_eq_refl k)
  lookup-append_new k a ((j, b) ∷ m) h = ground (arith, lookup-append_new k a m)

  -- No key stands twice.
  abbrev pub KeysApart : List (Text × A) → Type ℓ
  KeysApart [] = Unit
  KeysApart ((k, a) ∷ m) = (lookup k m ≡ none) × KeysApart m

  pub lookup-delete_self :
      (k : Text) (m : List (Text × A)) → KeysApart m → lookup k (delete_key k m) ≡ none
  unfolding lookup delete_key
  lookup-delete_self k [] d = refl
  lookup-delete_self k ((j, a) ∷ m) d = ground (arith, text_eq_iff j k, lookup-delete_self k m d.1)

  lookup-delete-none :
      (k q : Text) (m : List (Text × A)) → lookup q m ≡ none → lookup q (delete_key k m) ≡ none
  unfolding lookup delete_key
  lookup-delete-none k q [] h = refl
  lookup-delete-none k q ((j, a) ∷ m) h = ground (arith, lookup-delete-none k q m)

  pub KeysApart-delete : (k : Text) (m : List (Text × A)) → KeysApart m → KeysApart (delete_key k m)
  unfolding delete_key
  KeysApart-delete k [] d = tt
  KeysApart-delete k ((j, a) ∷ m) d = elim (Bool-cases (text_eq j k)) [
    | inl e ↦ rw e d.1
    | inr e ↦ rw e (lookup-delete-none k j m d.0, KeysApart-delete k m d.1)
  ]

  pub KeysApart-append :
      (k : Text) (a : A) (m : List (Text × A))
      → lookup k m ≡ none
      → KeysApart m
      → KeysApart (m ++ (k, a) ∷ [])
  unfolding lookup
  KeysApart-append k a [] h d = (refl, tt)
  KeysApart-append k a ((j, b) ∷ m) h d = elim (Bool-cases (text_eq j k)) [
    | inl e ↦ absurd (ground arith)
    | inr e ↦ (
      lookup-append_other k j a m (λ s. ground (arith, text_eq_iff j k)) ∙ d.0,
      KeysApart-append k a m (ground arith) d.1,
    )
  ]
