-- ===== src/Store/Accounts.antt =====
-- internal/store/db/queries.sql.go: the statements of a login and the reads of a channel, under the
-- UNIQUE and FOREIGN KEY constraints of migrations/00001_init.sql.
use chzzk_djclass_chat.Base.{
  ℕ, suc, ◌&&◌, Bool, not, Option, none, some, List, [], ◌∷◌, ◌++◌, ◌==◌, ltb, any_of,
  if◌then◌else◌,
}
use chzzk_djclass_chat.Base.Text.{Text, text_eq}
use chzzk_djclass_chat.Store.{User, Channel, Tables, user_by_chzzk_id, has_user}

-- The rowid that SQLite gives: one more than the largest.
unfoldable pub next_id : List User → ℕ
next_id [] = 1
next_id (u ∷ us) = let n = next_id us in if ltb u.id n then n else suc u.id

-- `ON CONFLICT (chzzk_id) DO UPDATE SET chzzk_nickname = excluded.chzzk_nickname`
unfoldable pub rename : Text → Text → List User → List User
rename k nickname [] = []
rename k nickname (u ∷ us) =
    if text_eq u.chzzk_id k
    then record u { chzzk_nickname = nickname } ∷ us
    else u ∷ rename k nickname us

-- `UpsertUser`, with the row that RETURNING gives.
unfoldable pub upsert_user : Text → Text → Tables → User × Tables
unfolding next_id rename user_by_chzzk_id
upsert_user k nickname t = elim (user_by_chzzk_id k t.users) [
  | some u ↦
      (record u { chzzk_nickname = nickname }, record t { users = rename k nickname t.users })
  | none ↦
      let u : User = record {
        id = next_id t.users;
        chzzk_id = k;
        chzzk_nickname = nickname;
        preferred_button = none;
      } in
      (u, record t { users = t.users ++ u ∷ [] })
]

unfoldable pub channel_by_chzzk_id : Text → List Channel → Option Channel
channel_by_chzzk_id k [] = none
channel_by_chzzk_id k (c ∷ cs) =
    if text_eq c.chzzk_channel_id k then some c else channel_by_chzzk_id k cs

-- Another user's channel has the Chzzk id, which is UNIQUE.
unfoldable pub is_taken : Channel → List Channel → Bool
is_taken c =
    any_of (λ (d : Channel).
      text_eq d.chzzk_channel_id c.chzzk_channel_id && not (d.user_id == c.user_id))

-- `ON CONFLICT (user_id) DO UPDATE`
unfoldable pub put_channel : Channel → List Channel → List Channel
put_channel c [] = c ∷ []
put_channel c (d ∷ ds) = if d.user_id == c.user_id then c ∷ ds else d ∷ put_channel c ds

unfoldable pub upsert_channel : Channel → Tables → Option Tables
unfolding is_taken put_channel has_user
upsert_channel c t =
    if has_user c.user_id t && not (is_taken c t.channels)
    then some (record t { channels = put_channel c t.channels })
    else none
