-- ===== src/Web/Stored.antt =====
-- What a login of internal/web/auth.go has stored when its transaction succeeded.
use chzzk_djclass_chat.Base.{
  ◌≡◌, refl, ap, ◌∙◌, sym, subst, inl, inr, false, some, List, [], ◌∷◌, arith, Bool-cases,
  Option-cases,
}
use chzzk_djclass_chat.Base.Text.{Text, text_eq_refl}
use chzzk_djclass_chat.Effects.{ok}
use chzzk_djclass_chat.Env.{Env, exec, exec_row, pure, ◌>>◌}
use chzzk_djclass_chat.Env.Laws.{continue-ok, exec-ok, exec_row-ok, write_tx-ok}
use chzzk_djclass_chat.Resolver.Logins.{find-append}
use chzzk_djclass_chat.Store.{User, ChannelRow, Channel, Tables, user_by_chzzk_id}
use chzzk_djclass_chat.Store.Accounts.{
  rename, upsert_user, channel_by_chzzk_id, is_taken, put_channel, upsert_channel,
}
use chzzk_djclass_chat.Web.Login.{save_rows, save}
use chzzk_djclass_chat.Web.Sites.{Me, Server}

rename-found :
    (k n : Text) (us : List User) (u : User)
    → user_by_chzzk_id k us ≡ some u
    → user_by_chzzk_id k (rename k n us) ≡ some (record u { chzzk_nickname = n })
unfolding rename user_by_chzzk_id
rename-found k n [] u h = cc
rename-found k n (v ∷ us) u h = ground (arith, rename-found k n us u)

-- The row that RETURNING gives is the one that is found by the Chzzk id afterwards.
upsert_user-found :
    (k n : Text) (t : Tables)
    → (user_by_chzzk_id k (upsert_user k n t).1.users ≡ some (upsert_user k n t).0)
      × ((upsert_user k n t).0.chzzk_nickname ≡ n)
unfolding upsert_user
upsert_user-found k n t = elim (Option-cases (user_by_chzzk_id k t.users)) [
  | inr (u, h) ↦ rw (h, upsert_user) (rename-found k n t.users u h, refl)
  | inl h ↦ rw (h, upsert_user) (find-append k t.users _ ∙ rw h (rw (text_eq_refl k) refl), refl)
]

-- A channel that is not taken is found by its Chzzk id once it is stored.
put_channel-found :
    (c : Channel) (cs : List Channel)
    → is_taken c cs ≡ false
    → channel_by_chzzk_id c.chzzk_channel_id (put_channel c cs) ≡ some c
unfolding is_taken put_channel channel_by_chzzk_id
put_channel-found c [] h = ground (arith, text_eq_refl c.chzzk_channel_id)
put_channel-found c (d ∷ ds) h =
    ground (arith, text_eq_refl c.chzzk_channel_id, put_channel-found c ds)

upsert_channel-found :
    (c : Channel) (t u : Tables)
    → upsert_channel c t ≡ some u
    → (channel_by_chzzk_id c.chzzk_channel_id u.channels ≡ some c) × (u.users ≡ t.users)
unfolding upsert_channel
upsert_channel-found c t u h = elim (Bool-cases (is_taken c t.channels)) [
  | inl e ↦ absurd (ground arith)
  | inr e ↦
      let same : record t { channels = put_channel c t.channels } ≡ u = ground arith in
      (
        ap (λ v. channel_by_chzzk_id c.chzzk_channel_id v.channels) (sym same)
            ∙ put_channel-found c t.channels e,
        ap (λ v. v.users) (sym same),
      )
]

-- The user with the nickname, and the channel with the tokens.
pub record IsStored (me : Me) (row : ChannelRow) (u : User) (t : Tables) : Type 0 where
  pub user : user_by_chzzk_id me.channel_id t.users ≡ some u
  pub nickname : u.chzzk_nickname ≡ me.nickname
  pub channel :
      channel_by_chzzk_id me.channel_id t.channels
      ≡ some (record { user_id = u.id; chzzk_channel_id = me.channel_id; tokens = row })

abbrev channel_of : Me → ChannelRow → User → Channel
channel_of me row u = record { user_id = u.id; chzzk_channel_id = me.channel_id; tokens = row }

-- The second statement, after the user is stored.
channel-IsStored :
    (me : Me) (row : ChannelRow) (v u : User) (g : Env)
    → user_by_chzzk_id me.channel_id g.tables.users ≡ some v
    → v.chzzk_nickname ≡ me.nickname
    → ((exec (upsert_channel (channel_of me row v)) >> pure v) g).0 ≡ ok u
    → IsStored me row u ((exec (upsert_channel (channel_of me row v)) >> pure v) g).1.tables
channel-IsStored me row v u g found named h =
    let c = channel_of me row v in
    let (w, done, end, final) = continue-ok (exec (upsert_channel c) g) (λ _. pure v) u h in
    let (channel, users) = upsert_channel-found c g.tables _ (exec-ok (upsert_channel c) g done) in
    let same : v ≡ u = cc in
    subst (λ x. IsStored me row x ((exec (upsert_channel c) >> pure v) g).1.tables) same
      (subst (λ (k : Env). IsStored me row v k.tables) (sym final)
        (record {
          user = ap (user_by_chzzk_id me.channel_id) users ∙ found;
          nickname = named;
          channel = channel;
        }))

module _ {S : Type 0} (srv : Server S) where
  rows-IsStored :
      (me : Me) (row : ChannelRow) (g : Env) (u : User)
      → (save_rows srv me row g).0 ≡ ok u
      → IsStored me row u (save_rows srv me row g).1.tables
  unfolding save_rows
  rows-IsStored me row g u h =
      let q = upsert_user me.channel_id me.nickname in
      let (v, first, rest, last) =
        continue-ok (exec_row q g) (λ v. exec (upsert_channel (channel_of me row v)) >> pure v) u
          h in
      let (row_v, tables_v) = exec_row-ok q g v first in
      let (found, named) = upsert_user-found me.channel_id me.nickname g.tables in
      subst (λ (k : Env). IsStored me row u k.tables) (sym last)
        (channel-IsStored me row v u (exec_row q g).1
          (ap (λ t. user_by_chzzk_id me.channel_id t.users) tables_v ∙ found ∙ ap some row_v)
          (ap (λ (x : User). x.chzzk_nickname) (sym row_v) ∙ named) rest)

  -- A transaction of a login that succeeded has stored the user and the channel.
  pub save-IsStored :
      (me : Me) (row : ChannelRow) (e : Env) (u : User)
      → (save srv me row e).0 ≡ ok u
      → IsStored me row u (save srv me row e).1.tables
  unfolding save
  save-IsStored me row e u h =
      let (g, same, ran, kept) = write_tx-ok (λ ctx. save_rows srv me row) e u h in
      subst (IsStored me row u) (sym kept) (rows-IsStored me row g u ran)
