-- ===== src/Web/Visits.antt =====
-- Who reaches the pages of internal/web that want a user, and what a login leads to.
use chzzk_djclass_chat.Base.{ℕ, ◌++◌, ◌≡◌, refl, ap, ◌∙◌, ◌⊎◌, false, some, [], arith, ◌==◌}
use chzzk_djclass_chat.Base.Text.{Text, text}
use chzzk_djclass_chat.Effects.{ok}
use chzzk_djclass_chat.Env.{Env, query, step_fault, next_fault}
use chzzk_djclass_chat.Env.Laws.{ReadsOnly}
use chzzk_djclass_chat.Store.{Tables, user_by_id}
use chzzk_djclass_chat.Store.Accounts.{channel_by_chzzk_id}
use chzzk_djclass_chat.Store.Consistent.{Consistent, found_by_id, other_id}
use chzzk_djclass_chat.Web.Accounts.{
  loaded, with_user, require_login, return_path, dashboard, dashboard_with,
}
use chzzk_djclass_chat.Web.Outcomes.{user_of, IsLoggedIn}
use chzzk_djclass_chat.Web.Routes.{dashboard_page, private, private_handler, serve}
use chzzk_djclass_chat.Web.Sites.{
  Server, Request, Site, Reply, redirect, hx_redirect, server_error, widget_settings,
}

module _ {S : Type 0} (srv : Server S) where
  -- The page of the login, with the way back.
  abbrev pub login_url : Request → Text
  login_url r = text "/login/?next=" ++ srv.query_escape (return_path srv r)

  -- The visitor is sent to the login, or to nowhere as the database failed; no table, no cached
  -- badge and no count of requests has changed.
  pub record IsTurnedAway (r : Request) (s : Site S) (x : Reply × Site S) : Type 0 where
    pub reply :
        (x.0 ≡ redirect 302 (login_url r))
        ⊎ ((x.0 ≡ hx_redirect (login_url r)) ⊎ (x.0 ≡ server_error))
    pub untouched : ReadsOnly s.env x.1.env
    pub uncounted : x.1.limiter ≡ s.limiter

  query-clear :
      {A : Type 0} (q : Tables → A) (e : Env)
      → e.faults ≡ []
      → query q e ≡ (ok (q e.tables), record e { faults = [] })
  unfolding query step_fault next_fault
  query-clear q e h = simp h

  -- From a login that succeeded on consistent tables, a visit to the dashboard with the session that
  -- it left, while no call of the database fails, shows the widget of the channel of the user that
  -- Chzzk named.
  pub login-dashboard :
      (r v : Request) (now : ℕ) (x : Reply × Site S) (l : IsLoggedIn srv r now x)
      → Consistent x.1.env.tables
      → x.1.env.faults ≡ []
      → (serve srv (private dashboard_page) v x.1).0 ≡ widget_settings (some l.me.channel_id)
  unfolding serve with_user loaded require_login private_handler dashboard dashboard_with
  login-dashboard r v now x l c clear =
      let t = x.1.env.tables in
      let (by_id, key) = found_by_id l.me.channel_id t.users l.user c.apart l.stored.user in
      let nobody = other_id 0 l.user.id t.users l.user by_id c.positive in
      let signed_in : (user_of srv x.1.session == 0) ≡ false =
        ground (arith, l.in_session, nobody) in
      let found : user_by_id (user_of srv x.1.session) t.users ≡ some l.user =
        ap (λ i. user_by_id i t.users) (l.in_session) ∙ by_id in
      let owned = ap (λ k. channel_by_chzzk_id k t.channels) key ∙ l.stored.channel in
      let asked = query-clear (λ t. user_by_id (user_of srv x.1.session) t.users) x.1.env clear in
      rw (signed_in, with_user)
        (rw (asked) (
          rw (found, loaded)
            (rw
              (query-clear (λ t. channel_by_chzzk_id l.user.chzzk_id t.channels)
                (record x.1.env { faults = [] }) refl)
              (rw (owned, dashboard_with) refl))))
