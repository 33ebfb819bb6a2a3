-- ===== src/Web/Login.antt =====
-- internal/web/auth.go: the login through Chzzk and the logout.
use chzzk_djclass_chat.Base.{
  ℕ, ◌+◌, ◌/◌, Bool, true, false, not, ◌||◌, Option, none, some, [], ◌∷◌, ◌++◌,
}
use chzzk_djclass_chat.Base.Int.{ℤ, pos, minus_one}
use chzzk_djclass_chat.Base.Text.{Text, text, text_eq}
use chzzk_djclass_chat.Crypto.{encrypt}
use chzzk_djclass_chat.Effects.{Result, ok, err}
use chzzk_djclass_chat.Env.{M, pure, ◌>>=◌, ◌>>◌, exec, exec_row, write_tx}
use chzzk_djclass_chat.Resolver.{second}
use chzzk_djclass_chat.Store.{User, ChannelRow}
use chzzk_djclass_chat.Store.Accounts.{upsert_user, upsert_channel}
use chzzk_djclass_chat.Tokens.{Token}
use chzzk_djclass_chat.Web.{safe_next_path}
use chzzk_djclass_chat.Web.Accounts.{session_user_id, dashboard_path}
use chzzk_djclass_chat.Web.Sites.{
  Me, Server, Cookie, Request, Reply, Handler, redirect, problem, call, limited, msg_too_many,
}

abbrev pub state_cookie : Text
state_cookie = text "oauth_state"

abbrev pub next_cookie : Text
next_cookie = text "oauth_next"

abbrev pub oauth_path : Text
oauth_path = text "/api/auth/chzzk/"

abbrev pub auth_failed : Reply
auth_failed = redirect 302 (text "/?error=auth_failed")

-- The state in the cookie is missing or is not the one of the query, or a parameter is missing.
unfoldable pub is_mismatch : Option Text → Text → Text → Bool
is_mismatch none code state = true
is_mismatch (some stored) code state =
    text_eq code [] || text_eq state [] || not (text_eq stored state)

unfoldable pub next_of : Option Text → Text
next_of none = dashboard_path
next_of (some c) = safe_next_path c dashboard_path

module _ {S : Type 0} (srv : Server S) where
  unfoldable pub oauth_cookie : Text → Text → ℤ → Cookie
  oauth_cookie name value max_age = record {
    name = name;
    value = value;
    path = oauth_path;
    max_age = max_age;
    secure = srv.https;
  }

  unfoldable pub start_login : Request → Handler S
  unfolding oauth_cookie
  start_login r s = (
    redirect 302 (srv.authorize_url r.random),
    record s {
      cookies =
          s.cookies
          ++ oauth_cookie state_cookie r.random (pos 300)
            ∷ oauth_cookie next_cookie (safe_next_path (r.query (text "next")) dashboard_path)
                (pos 300)
            ∷ [];
    },
  )

  -- The row of the channel with the encrypted tokens.
  unfoldable pub token_row : Request → ℕ → Token → ChannelRow
  token_row r now tok = record {
    access_token_encrypted = some (encrypt srv.box r.nonce tok.access_token);
    refresh_token_encrypted = some (encrypt srv.box r.nonce' tok.refresh_token);
    token_expires_at = some (now / second + tok.expires_in);
  }

  -- The two statements of the transaction.
  unfoldable pub save_rows : Me → ChannelRow → M User
  save_rows me row = do
    user ← exec_row (upsert_user me.channel_id me.nickname)
    exec (
        upsert_channel
          (record { user_id = user.id; chzzk_channel_id = me.channel_id; tokens = row }))
    pure user

  unfoldable pub save : Me → ChannelRow → M User
  unfolding save_rows
  save me row = write_tx false (λ ctx. save_rows me row)

  -- `callback` once the token of the session is renewed.
  unfoldable pub renewed : Text → User → Bool × S → Handler S
  renewed next u (true, session) s =
      (redirect 302 next, record s { session = srv.sessions.put session_user_id u.id session })
  renewed next u (false, session) s = (auth_failed, record s { session = session })

  unfoldable pub saved : Text → Result User → Handler S
  unfolding renewed
  saved next (err x) s = (auth_failed, s)
  saved next (ok u) s = renewed next u (srv.sessions.renew_token s.session) s

  -- `callback` once Chzzk has said who the user is.
  unfoldable pub identified : Request → Text → Token → Option Me → Handler S
  unfolding token_row save saved
  identified r next tok none s = (auth_failed, s)
  identified r next tok (some me) s = call (save me (token_row r s.env.now tok)) (saved next) s

  unfoldable pub exchanged : Request → Text → Option Token → Handler S
  unfolding identified
  exchanged r next none s = (auth_failed, s)
  exchanged r next (some tok) s = identified r next tok (srv.me tok.access_token) s

  -- `callback` once the request is admitted.
  unfoldable pub check_state : Request → Handler S
  unfolding oauth_cookie is_mismatch next_of exchanged
  check_state r s =
      let t = record s {
        cookies =
            s.cookies
            ++ oauth_cookie state_cookie [] minus_one ∷ oauth_cookie next_cookie [] minus_one ∷ [];
      } in
      let code = r.query (text "code") in
      let state = r.query (text "state") in
      elim (is_mismatch (r.cookie state_cookie) code state) [
        | true ↦ (auth_failed, t)
        | false ↦ exchanged r (next_of (r.cookie next_cookie)) (srv.exchange_code code state) t
      ]

  unfoldable pub callback : Request → Handler S
  unfolding check_state
  callback r = limited r (text "auth") 10 (λ s. (problem 429 msg_too_many, s)) (check_state r)

  unfoldable pub logout : Handler S
  logout s = (redirect 303 (text "/"), record s { session = (srv.sessions.destroy s.session).1 })
