-- ===== src/Web/Runs.antt =====
-- Any requests that internal/web serves, with badges looked up between them, keep the UNIQUE
-- and CHECK constraints of the rows and the badge cache coherent.
use chzzk_djclass_chat.Base.{
  ℕ, ◌+◌, inl, inr, Bool, true, false, Option, none, some, List, [], ◌∷◌, Bool-cases, arith,
}
use chzzk_djclass_chat.Base.Text.{Text, text_eq, text_eq_iff}
use chzzk_djclass_chat.Env.{Env}
use chzzk_djclass_chat.Ratelimit.{Buckets}
use chzzk_djclass_chat.Resolver.{resolve}
use chzzk_djclass_chat.Resolver.Coherence.{resolve-truth}
use chzzk_djclass_chat.Store.{User}
use chzzk_djclass_chat.Web.Accounts.{require_login, to_login, landing, login_page}
use chzzk_djclass_chat.Web.Keeps.{Good, Keeps}
use chzzk_djclass_chat.Web.Login.{start_login, callback, logout}
use chzzk_djclass_chat.Web.Requests.{callback-Keeps, with_user-Keeps}
use chzzk_djclass_chat.Web.Routes.{
  Route, landing_page, login_form_page, login_start, login_callback, logout_action, private, serve,
  private_handler,
}
use chzzk_djclass_chat.Web.Serves.{private-Keeps}
use chzzk_djclass_chat.Web.Sites.{Server, Request, Site, Handler}

-- A request with its route and the values of its session; a look-up of the badge of a sender; or
-- some time that passes.
pub data Event (S : Type 0) : Type 0 where
  visited : Route → Request → S → Event S
  looked_up : Text → Event S
  passed : ℕ → Event S

module _ {S : Type 0} (srv : Server S) where
  unfoldable pub step : Event S → Env × Buckets → Env × Buckets
  step (visited p r session) (e, b) =
      let s : Site S = record { env = e; session = session; limiter = b; cookies = [] } in
      let a = serve srv p r s in (a.1.env, a.1.limiter)
  step (looked_up sender) (e, b) = ((resolve sender e).1, b)
  step (passed d) (e, b) = (record e { now = e.now + d }, b)

  unfoldable pub run : List (Event S) → Env × Buckets → Env × Buckets
  unfolding step
  run [] w = w
  run (x ∷ xs) w = run xs (step x w)

  login_page-Keeps : (r : Request) (o : Option User) → Keeps (login_page srv r o)
  unfolding login_page
  login_page-Keeps r none s g = g
  login_page-Keeps r (some u) s g = g

  to_login-Keeps : (b : Bool) (target : Text) → Keeps (to_login srv b target)
  unfolding to_login
  to_login-Keeps true target s g = g
  to_login-Keeps false target s g = g

  require_login-Keeps : (h : User → Handler S) (r : Request) → Keeps (require_login srv h r none)
  unfolding require_login
  require_login-Keeps h r s g = to_login-Keeps r.hx_request _ s g

  serve-Keeps : (p : Route) (r : Request) → Keeps (serve srv p r)
  unfolding serve landing start_login logout login_page require_login
  serve-Keeps landing_page r = with_user-Keeps srv _ (λ s g. g) (λ u s g k. g)
  serve-Keeps login_form_page r =
      with_user-Keeps srv (login_page srv r) (login_page-Keeps r none) (λ u s g k. g)
  serve-Keeps login_start r = with_user-Keeps srv _ (λ s g. g) (λ u s g k. g)
  serve-Keeps login_callback r =
      with_user-Keeps srv (λ u. callback srv r) (callback-Keeps srv r)
        (λ u s g k. callback-Keeps srv r s g)
  serve-Keeps logout_action r = with_user-Keeps srv _ (λ s g. g) (λ u s g k. g)
  serve-Keeps (private p) r =
      with_user-Keeps srv (require_login srv (private_handler srv p r) r)
        (require_login-Keeps (private_handler srv p r) r) (λ u s g k. private-Keeps srv p r u s g k)

  resolve-Good : (sender : Text) (e : Env) → Good e → Good (resolve sender e).1
  unfolding resolve
  resolve-Good sender e g = elim (Bool-cases (text_eq sender [])) [
    | inl h ↦ rw (h, resolve) g
    | inr h ↦
        let a = resolve-truth e sender (λ k. ground (arith, text_eq_iff sender [])) g.coherent in
        record {
          consistent = rw (a.tables_kept) g.consistent;
          lawful = rw (a.tables_kept) g.lawful;
          coherent = a.coherent;
        }
  ]

  step-Good : (x : Event S) (e : Env) (b : Buckets) → Good e → Good (step x (e, b)).0
  unfolding step
  step-Good (visited p r session) e b g = serve-Keeps p r _ g
  step-Good (looked_up sender) e b g = resolve-Good sender e g
  step-Good (passed d) e b g = record {
    consistent = g.consistent;
    lawful = g.lawful;
    coherent = record { cache_inv = g.coherent.cache_inv; agree = g.coherent.agree };
  }

  -- Whatever requests the pages, the login and the link actions serve, in whatever sessions, with
  -- badges looked up and time passing between them and calls of the database failing, these hold
  -- after them if before: no two users share an id or a Chzzk id, no two channels a user or a Chzzk
  -- id, no two links a user, no two classes of a user a button; the buttons of the classes and of
  -- the preferences are allowed ones; no user has the id 0; every active link has a user; and the
  -- badge cache is coherent with the tables.
  pub run-Good : (xs : List (Event S)) (e : Env) (b : Buckets) → Good e → Good (run xs (e, b)).0
  unfolding run
  run-Good [] e b g = g
  run-Good (x ∷ xs) e b g = run-Good xs _ _ (step-Good x e b g)
