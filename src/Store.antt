-- ===== src/Store.antt =====
-- internal/store: the tables of migrations/00001_init.sql, without the timestamps, which no Go code
-- reads, and the queries of queries.sql as generated into db/queries.sql.go. Rows stand in the
-- order of their insertion. `none` from a write is a violated constraint, which leaves the table.
pub mod Frames
pub mod Accounts
pub mod Consistent
pub mod Rows
pub mod Lawful
pub mod Sessions
pub mod Opening
use chzzk_djclass_chat.Base.{
  ℕ, suc, ◌+◌, Bool, true, false, not, ◌&&◌, ◌||◌, Option, none, some, List, [], ◌∷◌, ◌++◌, map,
  ◌==◌, ltb, if◌then◌else◌, any_of,
}
use chzzk_djclass_chat.Base.Text.{Text, text_eq}
use chzzk_djclass_chat.Base.Int.{ℤ, pos, negsuc, int_eq, int_lt}

pub record User : Type 0 where
  pub id : ℕ
  pub chzzk_id : Text
  pub chzzk_nickname : Text
  pub preferred_button : Option ℤ

pub record VarchiveLink : Type 0 where
  pub user_id : ℕ
  pub varchive_nickname : Text
  pub varchive_user_no : Option ℤ
  pub is_active : Bool

-- A `*float64` is an `Option ℤ`, as in Djclass.
pub record DjClass : Type 0 where
  pub user_id : ℕ
  pub button : ℤ
  pub dj_class : Text
  pub dj_power_sum : Option ℤ
  pub max_dj_power : Option ℤ
  pub dj_power_conversion : Option ℤ

-- The columns of a channel that hold its tokens.
pub record ChannelRow : Type 0 where
  pub access_token_encrypted : Option Text
  pub refresh_token_encrypted : Option Text
  pub token_expires_at : Option ℕ

pub record Channel : Type 0 where
  pub user_id : ℕ
  pub chzzk_channel_id : Text
  pub tokens : ChannelRow

-- The values of a session as scs encodes them. Times are milliseconds, as julianday() reads them.
pub record SessionRow : Type 0 where
  pub token : Text
  pub content : Text
  pub expiry : ℕ

pub record Tables : Type 0 where
  pub users : List User
  pub channels : List Channel
  pub sessions : List SessionRow
  pub links : List VarchiveLink
  pub classes : List DjClass

-- `CHECK (button IN (4, 5, 6, 8))`
unfoldable pub is_button : ℤ → Bool
is_button (negsuc n) = false
is_button (pos n) = n == 4 || n == 5 || n == 6 || n == 8

unfoldable pub user_by_chzzk_id : Text → List User → Option User
user_by_chzzk_id k [] = none
user_by_chzzk_id k (u ∷ us) = if text_eq u.chzzk_id k then some u else user_by_chzzk_id k us

unfoldable pub user_by_id : ℕ → List User → Option User
user_by_id i [] = none
user_by_id i (u ∷ us) = if u.id == i then some u else user_by_id i us

-- `WHERE user_id = ? AND is_active = 1`
unfoldable pub active_link : ℕ → List VarchiveLink → Option VarchiveLink
active_link i [] = none
active_link i (l ∷ ls) = if l.user_id == i && l.is_active then some l else active_link i ls

unfoldable pub has_active_link : ℕ → List VarchiveLink → Bool
unfolding active_link
has_active_link i ls = elim (active_link i ls) [ some _ ↦ true | none ↦ false ]

-- `WHERE user_id = ? ORDER BY button`
unfoldable pub insert_by_button : DjClass → List DjClass → List DjClass
insert_by_button c [] = c ∷ []
insert_by_button c (d ∷ ds) =
    if int_lt d.button c.button then d ∷ insert_by_button c ds else c ∷ d ∷ ds

unfoldable pub list_dj_classes : ℕ → List DjClass → List DjClass
unfolding insert_by_button
list_dj_classes i [] = []
list_dj_classes i (c ∷ cs) =
    if c.user_id == i then insert_by_button c (list_dj_classes i cs) else list_dj_classes i cs

unfoldable pub delete_dj_classes : ℕ → List DjClass → List DjClass
delete_dj_classes i [] = []
delete_dj_classes i (c ∷ cs) =
    if c.user_id == i then delete_dj_classes i cs else c ∷ delete_dj_classes i cs

-- `ON CONFLICT (user_id, button) DO UPDATE`
unfoldable pub put_dj_class : DjClass → List DjClass → List DjClass
put_dj_class c [] = c ∷ []
put_dj_class c (d ∷ ds) =
    if d.user_id == c.user_id && int_eq d.button c.button then c ∷ ds else d ∷ put_dj_class c ds

-- `user_id REFERENCES users (id)`
unfoldable pub has_user : ℕ → Tables → Bool
has_user i t = any_of (λ (u : User). u.id == i) t.users

unfoldable pub upsert_dj_class : DjClass → Tables → Option Tables
unfolding is_button put_dj_class has_user
upsert_dj_class c t =
    if has_user c.user_id t && is_button c.button
    then some (record t { classes = put_dj_class c t.classes })
    else none

-- `ON CONFLICT (user_id) DO UPDATE`, which makes the link active again.
unfoldable pub put_link : VarchiveLink → List VarchiveLink → List VarchiveLink
put_link l [] = l ∷ []
put_link l (k ∷ ks) = if k.user_id == l.user_id then l ∷ ks else k ∷ put_link l ks

unfoldable pub upsert_varchive_link : ℕ → Text → Option ℤ → Tables → Option Tables
unfolding put_link has_user
upsert_varchive_link i nickname user_no t =
    if has_user i t
    then some (record t {
      links =
          put_link
            (record {
              user_id = i;
              varchive_nickname = nickname;
              varchive_user_no = user_no;
              is_active = true;
            })
            t.links;
    })
    else none

unfoldable pub deactivate_link : ℕ → List VarchiveLink → List VarchiveLink
deactivate_link i [] = []
deactivate_link i (l ∷ ls) =
    (if l.user_id == i then record l { is_active = false } else l) ∷ deactivate_link i ls

unfoldable pub write_preferred : ℕ → Option ℤ → List User → List User
write_preferred i b [] = []
write_preferred i b (u ∷ us) =
    (if u.id == i then record u { preferred_button = b } else u) ∷ write_preferred i b us

unfoldable pub may_prefer : Option ℤ → Bool
unfolding is_button
may_prefer none = true
may_prefer (some b) = is_button b

-- `UPDATE users SET preferred_button = ? WHERE id = ?`, under the table's CHECK.
unfoldable pub set_preferred_button : ℕ → Option ℤ → Tables → Option Tables
unfolding write_preferred may_prefer has_user
set_preferred_button i b t =
    if has_user i t && not (may_prefer b)
    then none
    else some (record t { users = write_preferred i b t.users })

-- `FROM varchive_links l JOIN users u ON u.id = l.user_id WHERE l.is_active = 1 ORDER BY l.user_id`
unfoldable pub insert_by_user : User × Text → List (User × Text) → List (User × Text)
insert_by_user a [] = a ∷ []
insert_by_user a (b ∷ bs) = if ltb b.0.id a.0.id then b ∷ insert_by_user a bs else a ∷ b ∷ bs

unfoldable pub list_active_links : List User → List VarchiveLink → List (User × Text)
unfolding user_by_id insert_by_user
list_active_links us [] = []
list_active_links us (l ∷ ls) =
    let rest = list_active_links us ls in
    if l.is_active
    then (elim (user_by_id l.user_id us) [
      | none ↦ rest
      | some u ↦ insert_by_user (record u { preferred_button = none }, l.varchive_nickname) rest
    ])
    else rest
