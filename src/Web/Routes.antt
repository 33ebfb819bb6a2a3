-- ===== src/Web/Routes.antt =====
-- internal/web/web.go: the routes that use a session. Which pattern a request matches is net/http's.
use chzzk_djclass_chat.Store.{User}
use chzzk_djclass_chat.Web.Accounts.{with_user, require_login, landing, login_page, dashboard}
use chzzk_djclass_chat.Web.Links.{link_page, link_connect, link_sync, link_unlink, link_preferred}
use chzzk_djclass_chat.Web.Login.{start_login, callback, logout}
use chzzk_djclass_chat.Web.Sites.{Server, Request, Handler}

-- The patterns behind `requireLogin`.
pub data Private : Type 0 where
  dashboard_page link_card_page connect_action sync_action unlink_action prefer_action : Private

pub data Route : Type 0 where
  landing_page login_form_page login_start login_callback logout_action : Route
  private : Private → Route

module _ {S : Type 0} (srv : Server S) where
  unfoldable pub private_handler : Private → Request → User → Handler S
  private_handler dashboard_page r = dashboard srv
  private_handler link_card_page r = link_page srv
  private_handler connect_action r = link_connect srv r
  private_handler sync_action r = link_sync srv r
  private_handler unlink_action r = link_unlink srv
  private_handler prefer_action r = link_preferred srv r

  -- `Handler`, for the patterns under `page`.
  unfoldable pub serve : Route → Request → Handler S
  unfolding private_handler
  serve landing_page r = with_user srv (λ u. landing srv)
  serve login_form_page r = with_user srv (login_page srv r)
  serve login_start r = with_user srv (λ u. start_login srv r)
  serve login_callback r = with_user srv (λ u. callback srv r)
  serve logout_action r = with_user srv (λ u. logout srv)
  serve (private p) r = with_user srv (require_login srv (private_handler p r) r)
