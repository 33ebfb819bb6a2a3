-- ===== src/TtlCache.antt =====
-- internal/ttlcache/ttlcache.go: the map and the insertion order, as two structures that share
-- their elements. An element of `order` has an identity, and `items` maps a key to one. Time is a
-- number of nanoseconds, and an argument of each call in place of `now`. `none` is a panic.
pub mod Views
pub mod Inv
pub mod Elements
pub mod Keeps
pub mod Refines
pub mod Reads
pub mod Members
use chzzk_djclass_chat.Base.{
  ℕ, suc, ◌+◌, Bool, true, false, Option, none, some, List, [], ◌∷◌, ◌++◌, length, ltb, leb, ◌==◌,
  if◌then◌else◌,
}
use chzzk_djclass_chat.Base.Maps.{lookup, delete_key}
use chzzk_djclass_chat.Base.Text.{Text, text_eq}

pub record Entry {ℓ} (V : Type ℓ) : Type ℓ where
  pub key : Text
  pub value : V
  pub expires : ℕ

pub record Cache {ℓ} (V : Type ℓ) : Type ℓ where
  pub max : ℕ
  pub items : List (Text × ℕ)
  pub order : List (ℕ × Entry V)
  pub next_id : ℕ

module _ {ℓ} {A : Type ℓ} where
  -- The value of an element.
  unfoldable pub deref : ℕ → List (ℕ × A) → Option A
  deref id [] = none
  deref id ((i, a) ∷ l) = if i == id then some a else deref id l

  -- `order.Remove(el)`
  unfoldable pub unlink_el : ℕ → List (ℕ × A) → List (ℕ × A)
  unlink_el id [] = []
  unlink_el id ((i, a) ∷ l) = if i == id then l else (i, a) ∷ unlink_el id l

  -- Writes through an element.
  unfoldable pub assign : ℕ → A → List (ℕ × A) → List (ℕ × A)
  assign id b [] = []
  assign id b ((i, a) ∷ l) = if i == id then (i, b) ∷ l else (i, a) ∷ assign id b l

module _ {ℓ} {V : Type ℓ} where
  unfoldable pub new : ℕ → Cache V
  new max_entries = record { max = max_entries; items = []; order = []; next_id = 0 }

  unfoldable pub len : Cache V → ℕ
  len c = length c.items

  -- `c.remove(el)`
  unfoldable pub remove : Cache V → ℕ → Entry V → Cache V
  unfolding delete_key unlink_el
  remove c id e = record c { items = delete_key e.key c.items; order = unlink_el id c.order }

  unfoldable pub get : Cache V → ℕ → Text → Option (Cache V × Option V)
  unfolding lookup deref remove
  get c now key = elim (lookup key c.items) [
    | none ↦ some (c, none)
    | some id ↦ elim (deref id c.order) [
      | none ↦ none
      | some e ↦ if ltb now e.expires then some (c, some e.value) else some (remove c id e, none)
    ]
  ]

  -- `if len(c.items) >= c.max { c.remove(c.order.Front()) }`; the front of an empty list is nil.
  unfoldable pub make_room : Cache V → List (ℕ × Entry V) → Option (Cache V)
  unfolding remove
  make_room c [] = if leb c.max (length c.items) then none else some c
  make_room c ((id, e) ∷ l) = some (if leb c.max (length c.items) then remove c id e else c)

  -- `c.items[key] = c.order.PushBack(...)`
  unfoldable pub push_back : Cache V → Text → V → ℕ → Cache V
  push_back c key value expires = record c {
    items = c.items ++ (key, c.next_id) ∷ [];
    order = c.order ++ (c.next_id, record { key = key; value = value; expires = expires }) ∷ [];
    next_id = suc c.next_id;
  }

  unfoldable pub set : Cache V → ℕ → Text → V → ℕ → Option (Cache V)
  unfolding lookup deref assign make_room push_back
  set c now key value ttl = elim (lookup key c.items) [
    | some id ↦ elim (deref id c.order) [
      | none ↦ none
      | some e ↦
          some (record c {
            order = assign id (record e { value = value; expires = now + ttl }) c.order;
          })
    ]
    | none ↦ elim (make_room c c.order) [
      | none ↦ none
      | some room ↦ some (push_back room key value (now + ttl))
    ]
  ]

  unfoldable pub delete : Cache V → Text → Option (Cache V)
  unfolding lookup deref remove
  delete c key = elim (lookup key c.items) [
    | none ↦ some c
    | some id ↦ elim (deref id c.order) [ none ↦ none | some e ↦ some (remove c id e) ]
  ]
