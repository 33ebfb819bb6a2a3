-- ===== src/Tests/Caches.antt =====
-- Runs of internal/ttlcache.
use chzzk_djclass_chat.Base.{ℕ, ◌≡◌, ◌≢◌, refl, some, [], ◌∷◌, arith}
use chzzk_djclass_chat.Base.Text.{Text, text}
use chzzk_djclass_chat.TtlCache.{Cache, Entry, set}
use chzzk_djclass_chat.TtlCache.Inv.{Inv}
use chzzk_djclass_chat.TtlCache.Refines.{GetRefines, get-read_entries, set-write_entries}
use chzzk_djclass_chat.TtlCache.Views.{entries, write_entries}

abbrev entry : Text → ℕ → ℕ → ℕ × Entry ℕ
entry key value id = (id, record { key = key; value = value; expires = 10 })

-- A full cache of two.
abbrev full : Cache ℕ
full = record {
  max = 2;
  items = (text "a", 0) ∷ (text "b", 1) ∷ [];
  order = entry (text "a") 7 0 ∷ entry (text "b") 8 1 ∷ [];
  next_id = 2;
}

b≢a : text "b" ≢ text "a"
b≢a e = ground (arith, e)

full-Inv : Inv full
full-Inv = record {
  synced = refl;
  apart = (((omega arith, b≢a), tt), (tt, tt));
  fresh = (omega arith, (omega arith, tt));
  bounded = omega arith;
  positive = omega arith;
}

get-read_entries_example : GetRefines full 10 (text "a")
get-read_entries_example = get-read_entries full 10 (text "a") full-Inv

set-write_entries_example :
    (d : Cache ℕ) × (set full 3 (text "c") 9 5 ≡ some d)
    × (entries d.order
        ≡ write_entries 2 (record { key = text "c"; value = 9; expires = 8 }) (entries full.order))
    × Inv d
    × (d.max ≡ 2)
set-write_entries_example = set-write_entries full 3 (text "c") 9 5 full-Inv
