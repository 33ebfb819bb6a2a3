-- ===== src/Web/Front/Reads.antt =====
-- The targets of internal/web/web.go that only read, and those that leave the hub.
use chzzk_djclass_chat.Base.{
  ◌≡◌, refl, inl, inr, Bool, true, false, Option, none, some, List, [], Bool-cases, ◌==◌,
}
use chzzk_djclass_chat.Base.Text.{Text}
use chzzk_djclass_chat.Effects.{Result, ok, err}
use chzzk_djclass_chat.Env.{Env, M, query}
use chzzk_djclass_chat.Env.Laws.{ReadsOnly, ReadsOnly-refl, ReadsOnly-trans, query-ReadsOnly}
use chzzk_djclass_chat.Link.Cards.{Card, card}
use chzzk_djclass_chat.Store.{User, Channel, user_by_id}
use chzzk_djclass_chat.Store.Accounts.{channel_by_chzzk_id}
use chzzk_djclass_chat.Web.Accounts.{
  loaded, with_user, session_user_id, to_login, require_login, login_page, landing, dashboard,
  dashboard_with,
}
use chzzk_djclass_chat.Web.Front.{
  Target, account, dev_form, widget_events, health, Http, Arrival, World, answer_of, site_of,
  no_reply, stream_answer, dev_form_answer,
}
use chzzk_djclass_chat.Web.Links.{shown, link_page}
use chzzk_djclass_chat.Web.Login.{start_login, logout}
use chzzk_djclass_chat.Web.Routes.{
  private_handler, dashboard_page, link_card_page, private, landing_page, login_form_page,
  login_start, logout_action, serve,
}
use chzzk_djclass_chat.Web.Serves.{card-ReadsOnly}
use chzzk_djclass_chat.Web.Sites.{Server, Request, Site, Handler, call}

module _ {S : Type 0} where
  -- A handler that changes no table and no cached badge.
  abbrev pub Quiet : Handler S → Type 0
  Quiet h = (s : Site S) → ReadsOnly s.env (h s).1.env

  call-Quiet :
      {A : Type 0} (m : M A) (k : Result A → Handler S)
      → ((e : Env) → ReadsOnly e (m e).1)
      → ((r : Result A) → Quiet (k r))
      → Quiet (call m k)
  call-Quiet m k h q s = ReadsOnly-trans (h s.env) (q (m s.env).0 _)

  module _ (srv : Server S) where
    loaded-Quiet :
        (h : Option User → Handler S)
        → ((o : Option User) → Quiet (h o))
        → (r : Result (Option User)) → Quiet (loaded srv h r)
    unfolding loaded
    loaded-Quiet h q (ok (some u)) s = q (some u) s
    loaded-Quiet h q (ok none) s = q none _
    loaded-Quiet h q (err x) s = ReadsOnly-refl s.env

    with_user-Quiet :
        (h : Option User → Handler S) → ((o : Option User) → Quiet (h o)) → Quiet (with_user srv h)
    unfolding with_user
    with_user-Quiet h q s =
        elim (Bool-cases (srv.sessions.get_int session_user_id s.session == 0)) [
          | inl z ↦ rw (z, with_user) (q none s)
          | inr z ↦
              rw (z, with_user)
                (call-Quiet
                  (query (λ t. user_by_id (srv.sessions.get_int session_user_id s.session) t.users))
                  (loaded srv h)
                  (query-ReadsOnly
                    (λ t. user_by_id (srv.sessions.get_int session_user_id s.session) t.users))
                  (loaded-Quiet h q) s)
        ]

    to_login-Quiet : (b : Bool) (target : Text) → Quiet (to_login srv b target)
    unfolding to_login
    to_login-Quiet true target s = ReadsOnly-refl s.env
    to_login-Quiet false target s = ReadsOnly-refl s.env

    require_login-Quiet :
        (h : User → Handler S) (r : Request)
        → ((u : User) → Quiet (h u))
        → (o : Option User) → Quiet (require_login srv h r o)
    unfolding require_login
    require_login-Quiet h r q (some u) s = q u s
    require_login-Quiet h r q none s = to_login-Quiet r.hx_request _ s

    dashboard_with-Quiet : (r : Result (Option Channel)) → Quiet (dashboard_with srv r)
    unfolding dashboard_with
    dashboard_with-Quiet (ok none) s = ReadsOnly-refl s.env
    dashboard_with-Quiet (ok (some c)) s = ReadsOnly-refl s.env
    dashboard_with-Quiet (err x) s = ReadsOnly-refl s.env

    shown-Quiet : (r : Result Card) → Quiet (shown srv 200 [] [] r)
    unfolding shown
    shown-Quiet (ok c) s = ReadsOnly-refl s.env
    shown-Quiet (err x) s = ReadsOnly-refl s.env

    login_page-Quiet : (r : Request) (o : Option User) → Quiet (login_page srv r o)
    unfolding login_page
    login_page-Quiet r none s = ReadsOnly-refl s.env
    login_page-Quiet r (some u) s = ReadsOnly-refl s.env

module _ {S : Type 0} (http : Http S) (srv : Server S) where
  -- A target that leaves the tables and the cached badges; and one that leaves the hub.
  abbrev pub IsReader : Target → Type 0
  IsReader t = (a : Arrival S) (w : World) → ReadsOnly w.env (answer_of http srv t a w).1.env

  abbrev pub LeavesHub : Target → Type 0
  LeavesHub t = (a : Arrival S) (w : World) → (answer_of http srv t a w).1.hub ≡ w.hub

  pub landing-IsReader : IsReader (account landing_page)
  unfolding answer_of serve landing
  landing-IsReader a w =
      with_user-Quiet srv (λ u. landing srv) (λ o s. ReadsOnly-refl s.env) (site_of http srv a w)

  pub login_form-IsReader : IsReader (account login_form_page)
  unfolding answer_of serve
  login_form-IsReader a w =
      with_user-Quiet srv (login_page srv a.request) (login_page-Quiet srv a.request)
        (site_of http srv a w)

  pub login_start-IsReader : IsReader (account login_start)
  unfolding answer_of serve start_login
  login_start-IsReader a w =
      with_user-Quiet srv (λ u. start_login srv a.request) (λ o s. ReadsOnly-refl s.env)
        (site_of http srv a w)

  pub logout-IsReader : IsReader (account logout_action)
  unfolding answer_of serve logout
  logout-IsReader a w =
      with_user-Quiet srv (λ u. logout srv) (λ o s. ReadsOnly-refl s.env) (site_of http srv a w)

  pub dashboard-IsReader : IsReader (account (private dashboard_page))
  unfolding answer_of serve private_handler dashboard
  dashboard-IsReader a w =
      with_user-Quiet srv (require_login srv (dashboard srv) a.request)
        (require_login-Quiet srv (dashboard srv) a.request (λ u.
          call-Quiet (query (λ t. channel_by_chzzk_id u.chzzk_id t.channels)) (dashboard_with srv)
            (query-ReadsOnly (λ t. channel_by_chzzk_id u.chzzk_id t.channels))
            (dashboard_with-Quiet srv)))
        (site_of http srv a w)

  pub link_card-IsReader : IsReader (account (private link_card_page))
  unfolding answer_of serve private_handler link_page
  link_card-IsReader a w =
      with_user-Quiet srv (require_login srv (link_page srv) a.request)
        (require_login-Quiet srv (link_page srv) a.request
          (λ u. call-Quiet (card u) (shown srv 200 [] []) (card-ReadsOnly u) (shown-Quiet srv)))
        (site_of http srv a w)

  pub dev_form-IsReader : IsReader dev_form
  unfolding answer_of dev_form_answer
  dev_form-IsReader a w =
      with_user-Quiet srv (λ u. no_reply http srv) (λ o s. ReadsOnly-refl s.env)
        (site_of http srv a w)

  stream_answer-env :
      (r : Result (List Channel)) (a : Arrival S) (w : World)
      → (stream_answer http srv r a w).1.env ≡ w.env
  unfolding stream_answer
  stream_answer-env (ok cs) a w = refl
  stream_answer-env (err x) a w = refl

  pub widget_events-IsReader : IsReader widget_events
  unfolding answer_of
  widget_events-IsReader a w =
      rw (stream_answer-env (query (λ t. t.channels) w.env).0 a _)
        (query-ReadsOnly (λ t. t.channels) w.env)

  pub health-IsReader : IsReader health
  unfolding answer_of
  health-IsReader a w = query-ReadsOnly (λ t. tt) w.env
