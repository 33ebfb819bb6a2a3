-- ===== src/TtlCache/Views.antt =====
-- The dictionary that internal/ttlcache/ttlcache.go promises: entries in the order of insertion.
use chzzk_djclass_chat.Base.{
  ℕ, Option, none, some, List, [], ◌∷◌, ◌++◌, length, ltb, leb, if◌then◌else◌,
}
use chzzk_djclass_chat.Base.Text.{Text, text_eq}
use chzzk_djclass_chat.TtlCache.{Entry}

module _ {ℓ} {V : Type ℓ} where
  -- The entries, oldest first, and the map that the cache keeps of them.
  abbrev pub entries : List (ℕ × Entry V) → List (Entry V)
  entries [] = []
  entries ((id, e) ∷ l) = e ∷ entries l

  abbrev pub index : List (ℕ × Entry V) → List (Text × ℕ)
  index [] = []
  index ((id, e) ∷ l) = (e.key, id) ∷ index l

  unfoldable pub find_entry : Text → List (Entry V) → Option (Entry V)
  find_entry key [] = none
  find_entry key (e ∷ es) = if text_eq e.key key then some e else find_entry key es

  unfoldable pub erase_entry : Text → List (Entry V) → List (Entry V)
  erase_entry key [] = []
  erase_entry key (e ∷ es) = if text_eq e.key key then es else e ∷ erase_entry key es

  unfoldable pub replace_entry : Text → Entry V → List (Entry V) → List (Entry V)
  replace_entry key b [] = []
  replace_entry key b (e ∷ es) = if text_eq e.key key then b ∷ es else e ∷ replace_entry key b es

  abbrev pub drop_oldest : List (Entry V) → List (Entry V)
  drop_oldest [] = []
  drop_oldest (e ∷ es) = es

  -- A live entry is returned, and a dead one removed.
  unfoldable pub read_entries : ℕ → Text → List (Entry V) → List (Entry V) × Option V
  unfolding find_entry erase_entry
  read_entries now key es = elim (find_entry key es) [
    | none ↦ (es, none)
    | some e ↦ if ltb now e.expires then (es, some e.value) else (erase_entry key es, none)
  ]

  -- An entry is replaced where it stands; a new one goes to the end, and makes the oldest leave if
  -- there are `max` already.
  unfoldable pub write_entries : ℕ → Entry V → List (Entry V) → List (Entry V)
  unfolding find_entry replace_entry
  write_entries max b es = elim (find_entry b.key es) [
    | some _ ↦ replace_entry b.key b es
    | none ↦ (if leb max (length es) then drop_oldest es else es) ++ b ∷ []
  ]
