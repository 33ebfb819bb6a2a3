-- ===== src/Web/Accounts.antt =====
-- internal/web/middleware.go and pages.go: the user of a session, and the pages that ask for one.
use chzzk_djclass_chat.Base.{
  Bool, true, false, not, ◌&&◌, Option, none, some, [], ◌++◌, ◌==◌, if◌then◌else◌,
}
use chzzk_djclass_chat.Base.Text.{Text, text, text_eq}
use chzzk_djclass_chat.Effects.{Result, ok, err}
use chzzk_djclass_chat.Env.{query}
use chzzk_djclass_chat.Store.{User, Channel, user_by_id}
use chzzk_djclass_chat.Store.Accounts.{channel_by_chzzk_id}
use chzzk_djclass_chat.Web.{safe_next_path}
use chzzk_djclass_chat.Web.Sites.{
  Server, Request, Handler, redirect, hx_redirect, page, login_form, widget_settings, call,
  server_error,
}

abbrev pub session_user_id : Text
session_user_id = text "userID"

abbrev pub dashboard_path : Text
dashboard_path = text "/dashboard/"

module _ {S : Type 0} (srv : Server S) where
  -- `withUser` once the user of the session is read; a session of no user is dropped.
  unfoldable pub loaded : (Option User → Handler S) → Result (Option User) → Handler S
  loaded h (ok (some u)) s = h (some u) s
  loaded h (ok none) s = h none (record s { session = (srv.sessions.destroy s.session).1 })
  loaded h (err x) s = (server_error, s)

  -- The handler is given the current user.
  unfoldable pub with_user : (Option User → Handler S) → Handler S
  unfolding loaded
  with_user h s =
      let id = srv.sessions.get_int session_user_id s.session in
      if id == 0 then h none s else call (query (λ t. user_by_id id t.users)) (loaded h) s

  -- The page to come back to.
  unfoldable pub return_path : Request → Text
  return_path r =
      if r.hx_request && not r.hx_boosted
      then (elim r.hx_current_path [ some p ↦ if text_eq p [] then r.path else p | none ↦ r.path ])
      else r.path

  unfoldable pub to_login : Bool → Text → Handler S
  to_login true target s = (hx_redirect target, s)
  to_login false target s = (redirect 302 target, s)

  unfoldable pub require_login : (User → Handler S) → Request → Option User → Handler S
  unfolding return_path to_login
  require_login h r (some u) s = h u s
  require_login h r none s =
      to_login r.hx_request (text "/login/?next=" ++ srv.query_escape (return_path r)) s

  unfoldable pub landing : Handler S
  landing s = (page (text "landing.html"), s)

  unfoldable pub login_page : Request → Option User → Handler S
  login_page r (some u) s = (redirect 302 dashboard_path, s)
  login_page r none s = (login_form (safe_next_path (r.query (text "next")) dashboard_path), s)

  unfoldable pub dashboard_with : Result (Option Channel) → Handler S
  dashboard_with (ok none) s = (widget_settings none, s)
  dashboard_with (ok (some ch)) s = (widget_settings (some ch.chzzk_channel_id), s)
  dashboard_with (err x) s = (server_error, s)

  unfoldable pub dashboard : User → Handler S
  unfolding dashboard_with
  dashboard u = call (query (λ t. channel_by_chzzk_id u.chzzk_id t.channels)) dashboard_with
