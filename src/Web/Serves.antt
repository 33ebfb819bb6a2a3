-- ===== src/Web/Serves.antt =====
-- Every request that internal/web serves keeps the tables and the badge cache sound.
use chzzk_djclass_chat.Base.{ℕ, inl, inr, Option, none, some, [], Bool-cases}
use chzzk_djclass_chat.Base.Text.{Text, text, text_eq, trim_space}
use chzzk_djclass_chat.Effects.{Result, ok, err}
use chzzk_djclass_chat.Env.{Env, query}
use chzzk_djclass_chat.Env.Laws.{ReadsOnly, ReadsOnly-refl, query-ReadsOnly, continue-ReadsOnly}
use chzzk_djclass_chat.Link.{SyncResult, connect, sync, unlink, set_preferred}
use chzzk_djclass_chat.Link.Cards.{Card, card, card_found}
use chzzk_djclass_chat.Link.Connects.{connect-Kept}
use chzzk_djclass_chat.Link.Lawful.{
  connect-IsLawful, sync-IsLawful, unlink-IsLawful, set_preferred-IsLawful,
}
use chzzk_djclass_chat.Link.Safety.{unlink-Safe, set_preferred-Safe, sync-Safe}
use chzzk_djclass_chat.Djclass.{Row}
use chzzk_djclass_chat.Store.Accounts.{channel_by_chzzk_id}
use chzzk_djclass_chat.Store.{User, VarchiveLink, Channel, user_by_id, active_link}
use chzzk_djclass_chat.Web.Accounts.{dashboard_with, dashboard}
use chzzk_djclass_chat.Web.Keeps.{Keeps, KeepsFor, limited-KeepsFor, read-Keeps, call-KeepsFor}
use chzzk_djclass_chat.Web.Links.{
  shown, reloaded, render_card, too_many, link_page, connected, connect_token, link_connect,
  synced_best, synced, link_sync, unlinked_card, link_unlink, preferred, link_preferred,
  sync_message, error,
}
use chzzk_djclass_chat.Web.Routes.{
  Private, dashboard_page, link_card_page, connect_action, sync_action, unlink_action,
  prefer_action, private_handler,
}
use chzzk_djclass_chat.Web.Sites.{Server, Request, call}

pub card-ReadsOnly : (u : User) (e : Env) → ReadsOnly e (card u e).1
unfolding card
card-ReadsOnly u e =
    continue-ReadsOnly e (query (λ t. active_link u.id t.links) e) (card_found u)
      (query-ReadsOnly (λ t. active_link u.id t.links) e) found
  where
    found : (l : Option VarchiveLink) (g : Env) → ReadsOnly g (card_found u l g).1
    found none g = unfold card_found in ReadsOnly-refl g
    found (some l) g =
        unfold card_found in
        continue-ReadsOnly g (query _ g) _ (query-ReadsOnly _ g) (λ a h. ReadsOnly-refl h)

module _ {S : Type 0} (srv : Server S) where
  shown-Keeps : (n : ℕ) (msg kind : Text) (r : Result Card) → Keeps (shown srv n msg kind r)
  unfolding shown
  shown-Keeps n msg kind (ok c) s g = g
  shown-Keeps n msg kind (err x) s g = g

  reloaded-Keeps :
      (n : ℕ) (msg kind : Text) (r : Result (Option User)) → Keeps (reloaded srv n msg kind r)
  unfolding reloaded
  reloaded-Keeps n msg kind (ok (some u)) s g =
      read-Keeps (card u) (shown srv n msg kind) (card-ReadsOnly u) (shown-Keeps n msg kind) s g
  reloaded-Keeps n msg kind (ok none) s g = g
  reloaded-Keeps n msg kind (err x) s g = g

  render_card-Keeps : (n : ℕ) (u : User) (msg kind : Text) → Keeps (render_card srv n u msg kind)
  unfolding render_card
  render_card-Keeps n u msg kind =
      read-Keeps (query (λ t. user_by_id u.id t.users)) (reloaded srv n msg kind)
        (query-ReadsOnly (λ t. user_by_id u.id t.users)) (reloaded-Keeps n msg kind)

  too_many-Keeps : (u : User) → Keeps (too_many srv u)
  unfolding too_many
  too_many-Keeps u = render_card-Keeps 429 u _ _

  connected-Keeps : (u : User) (r : Result SyncResult) → Keeps (connected srv u r)
  unfolding connected
  connected-Keeps u (err x) = render_card-Keeps 200 u _ _
  connected-Keeps u (ok r) = render_card-Keeps 200 u _ _

  connect_token-Keeps : (u : User) (token : Text) → KeepsFor u (connect_token srv u token)
  unfolding connect_token
  connect_token-Keeps u token s g k = elim (Bool-cases (text_eq token [])) [
    | inl e ↦ rw (e, connect_token) (render_card-Keeps 200 u _ _ s g)
    | inr e ↦
        rw (e, connect_token)
          (call-KeepsFor u (connect srv.link u token) (connected srv u)
            (connect-Kept srv.link u token) (connect-IsLawful srv.link u token) (connected-Keeps u)
            s g k)
  ]

  link_connect-Keeps : (r : Request) (u : User) → KeepsFor u (link_connect srv r u)
  unfolding link_connect
  link_connect-Keeps r u =
      let token = trim_space (r.form (text "token")) in
      limited-KeepsFor r (text "link") 5 u (too_many srv u) (connect_token srv u token)
        (too_many-Keeps u) (connect_token-Keeps u token)

  synced_best-Keeps : (u : User) (o : Option Row) → Keeps (synced_best srv u o)
  unfolding synced_best
  synced_best-Keeps u none s g = g
  synced_best-Keeps u (some b) s g = render_card-Keeps 200 u _ _ s g

  synced-Keeps : (u : User) (r : Result SyncResult) → Keeps (synced srv u r)
  unfolding synced
  synced-Keeps u (err x) s g = render_card-Keeps 200 u (sync_message x) error s g
  synced-Keeps u (ok r) s g = elim (Bool-cases r.done) [
    | inl e ↦ rw e (synced_best-Keeps u r.highest s g)
    | inr e ↦ rw e (elim (Bool-cases r.stale) [
      | inl f ↦ rw f (render_card-Keeps 200 u _ _ s g)
      | inr f ↦ rw f (render_card-Keeps 200 u _ _ s g)
    ])
  ]

  link_sync-Keeps : (r : Request) (u : User) → KeepsFor u (link_sync srv r u)
  unfolding link_sync
  link_sync-Keeps r u =
      limited-KeepsFor r (text "sync") 3 u (too_many srv u) (call (sync srv.link u) (synced srv u))
        (too_many-Keeps u)
        (call-KeepsFor u (sync srv.link u) (synced srv u)
          (λ e c o. let p = sync-Safe u srv.link e c o in (p.coherent, p.only))
          (sync-IsLawful srv.link u) (synced-Keeps u))

  unlinked_card-Keeps : (u : User) (r : Result (Unit {0})) → Keeps (unlinked_card srv u r)
  unfolding unlinked_card
  unlinked_card-Keeps u (err x) = render_card-Keeps 200 u _ _
  unlinked_card-Keeps u (ok r) = render_card-Keeps 200 u _ _

  link_unlink-Keeps : (u : User) → KeepsFor u (link_unlink srv u)
  unfolding link_unlink
  link_unlink-Keeps u =
      call-KeepsFor u (unlink u) (unlinked_card srv u)
        (λ e c o. let p = unlink-Safe u e c o in (p.coherent, p.only)) (unlink-IsLawful u)
        (unlinked_card-Keeps u)

  preferred-Keeps : (u : User) (r : Result (Unit {0})) → Keeps (preferred srv u r)
  unfolding preferred
  preferred-Keeps u (err x) = render_card-Keeps 200 u _ _
  preferred-Keeps u (ok r) = render_card-Keeps 200 u _ _

  link_preferred-Keeps : (r : Request) (u : User) → KeepsFor u (link_preferred srv r u)
  unfolding link_preferred
  link_preferred-Keeps r u =
      limited-KeepsFor r (text "pref") 10 u (too_many srv u)
        (call (set_preferred u (r.form (text "button"))) (preferred srv u)) (too_many-Keeps u)
        (call-KeepsFor u (set_preferred u (r.form (text "button"))) (preferred srv u)
          (λ e c o.
            let p = set_preferred-Safe u (r.form (text "button")) e c o in (p.coherent, p.only))
          (set_preferred-IsLawful u (r.form (text "button"))) (preferred-Keeps u))

  dashboard_with-Keeps : (r : Result (Option Channel)) → Keeps (dashboard_with srv r)
  unfolding dashboard_with
  dashboard_with-Keeps (ok none) s g = g
  dashboard_with-Keeps (ok (some c)) s g = g
  dashboard_with-Keeps (err x) s g = g

  dashboard-Keeps : (u : User) → Keeps (dashboard srv u)
  unfolding dashboard
  dashboard-Keeps u =
      read-Keeps (query (λ t. channel_by_chzzk_id u.chzzk_id t.channels)) (dashboard_with srv)
        (query-ReadsOnly (λ t. channel_by_chzzk_id u.chzzk_id t.channels)) dashboard_with-Keeps

  -- The handler of each private page keeps the state sound for a user in the tables.
  pub private-Keeps :
      (p : Private) (r : Request) (u : User) → KeepsFor u (private_handler srv p r u)
  unfolding private_handler link_page
  private-Keeps dashboard_page r u s g k = dashboard-Keeps u s g
  private-Keeps link_card_page r u s g k =
      read-Keeps (card u) (shown srv 200 [] []) (card-ReadsOnly u) (shown-Keeps 200 [] []) s g
  private-Keeps connect_action r u s g k = link_connect-Keeps r u s g k
  private-Keeps sync_action r u s g k = link_sync-Keeps r u s g k
  private-Keeps unlink_action r u s g k = link_unlink-Keeps u s g k
  private-Keeps prefer_action r u s g k = link_preferred-Keeps r u s g k
