-- ===== src/Tests/Sites.antt =====
-- Runs of internal/web on a small database, with a session that is the id of its user.
use chzzk_djclass_chat.Store.Accounts.{upsert_channel, upsert_user, channel_by_chzzk_id}
use chzzk_djclass_chat.Base.{
  ℕ, ◌/◌, ◌≤◌, ◌≡◌, refl, ◌⊎◌, true, false, none, some, List, [], ◌∷◌, arith,
}
use chzzk_djclass_chat.Base.Text.{Text, text, text_eq}
use chzzk_djclass_chat.Effects.{Error, ok, err}
use chzzk_djclass_chat.SessionStore.{
  Call, commits, apply, view, promised, millisecond, apply-promised,
}
use chzzk_djclass_chat.Env.{write_tx, exec_row, exec}
use chzzk_djclass_chat.Ratelimit.{allow}
use chzzk_djclass_chat.Store.{user_by_chzzk_id, User, active_link, is_button}
use chzzk_djclass_chat.Web.Keeps.{Good}
use chzzk_djclass_chat.Web.Login.{callback}
use chzzk_djclass_chat.Web.Outcomes.{IsManager, IsLoggedIn, IsRefused, callback-outcome}
use chzzk_djclass_chat.Web.Requests.{callback-Keeps}
use chzzk_djclass_chat.Web.Routes.{dashboard_page, unlink_action, login_callback, private, serve}
use chzzk_djclass_chat.Web.Runs.{Event, visited, looked_up, passed, run, run-Good}
use chzzk_djclass_chat.Web.Sites.{SessionManager, Server, Request, Site, widget_settings}
use chzzk_djclass_chat.Web.Visits.{login-dashboard}
use chzzk_djclass_chat.Tests.Edges.{box}
use chzzk_djclass_chat.Tests.Services.{tables, env, env-Coherent, v_archive}

abbrev sessions : SessionManager ℕ
sessions = record {
  get_int = λ k s. s;
  put = λ k n s. n;
  renew_token = λ s. (true, s);
  destroy = λ s. (true, 0);
}

sessions-IsManager : IsManager sessions
sessions-IsManager = record { get-put = λ k n s. refl; get-renew = λ k s. refl }

abbrev pub server : Server ℕ
server = record {
  sessions = sessions;
  exchange_code = λ code state.
      some (record {
        access_token = text "access";
        refresh_token = text "refresh";
        expires_in = 3600;
      });
  me = λ token. some (record { channel_id = text "new"; nickname = text "nick" });
  box = box;
  link = v_archive;
  query_escape = λ s. s;
  authorize_url = λ s. s;
  https = true;
  sprint = λ n. [];
}

abbrev pub request : Text → Request
request state = record {
  client = record { cf_connecting_ip = []; x_forwarded_for = []; remote_addr = text "1.2.3.4:5" };
  path = text "/link/";
  query = λ k. state;
  form = λ k. [];
  cookie = λ k. some (text "st");
  hx_request = false;
  hx_boosted = false;
  hx_current_path = none;
  random = [];
  nonce = text "nnnnnnnnnnnn";
  nonce' = text "mmmmmmmmmmmm";
}

abbrev site : ℕ → Site ℕ
site user = record { env = env; session = user; limiter = []; cookies = [] }

env-Good : Good env
unfolding active_link is_button
env-Good = record {
  consistent = record {
    apart = (tt, tt);
    positive = ((λ e. omega arith), tt);
    owned = λ j n. ground (arith, n.0);
  };
  lawful = record {
    channels_apart = tt;
    links_apart = (tt, tt);
    classes_apart = (((λ s b. ground (arith, b)), tt), (tt, tt));
    playable = (refl, (refl, tt));
    allowed = (refl, tt);
  };
  coherent = env-Coherent;
}

-- The viewer unlinks between a login and look-ups of badges.
abbrev events : List (Event ℕ)
events =
    visited login_callback (request (text "st")) 0
    ∷ looked_up (text "abc")
    ∷ visited (private unlink_action) (request []) 1
    ∷ passed 5
    ∷ looked_up (text "abc")
    ∷ []

run-Good_example : Good (run server events (env, [])).0
run-Good_example = run-Good server events env [] env-Good

callback-outcome_example :
    IsLoggedIn server (request (text "st")) 0 (callback server (request (text "st")) (site 0))
    ⊎ IsRefused server 0 (callback server (request (text "st")) (site 0))
callback-outcome_example = callback-outcome server sessions-IsManager (request (text "st")) (site 0)

abbrev newcomer : User
newcomer = record {
  id = 2;
  chzzk_id = text "new";
  chzzk_nickname = text "nick";
  preferred_button = none;
}

logged_in :
    IsLoggedIn server (request (text "st")) 0 (callback server (request (text "st")) (site 0))
unfolding user_by_chzzk_id callback allow text_eq write_tx exec_row exec upsert_channel upsert_user
    channel_by_chzzk_id
logged_in = record {
  token = record {
    access_token = text "access";
    refresh_token = text "refresh";
    expires_in = 3600;
  };
  me = record { channel_id = text "new"; nickname = text "nick" };
  user = newcomer;
  state_held = refl;
  exchanged = refl;
  known = refl;
  stored = record { user = refl; nickname = refl; channel = refl };
  in_session = refl;
  sent = refl;
}

still_clear : (callback server (request (text "st")) (site 0)).1.env.faults ≡ []
unfolding callback allow text_eq write_tx exec_row exec upsert_channel upsert_user
still_clear = refl

login-dashboard_example :
    (serve server
      (private dashboard_page)
      (request [])
      (callback server (request (text "st")) (site 0)).1).0
    ≡ widget_settings (some logged_in.me.channel_id)
login-dashboard_example =
    login-dashboard server (request (text "st")) (request []) 0
      (callback server (request (text "st")) (site 0)) logged_in
      (callback-Keeps server (request (text "st")) (site 0) env-Good).consistent still_clear

abbrev stored : Call
stored = commits (text "tok") (text "values") 5000000

apply-promised_example :
    ((token : Text) (now : ℕ)
        → env.now / millisecond ≤ now
        → view (apply stored env).1.tables token now ≡ promised stored (view tables) token now)
      × ((apply stored env).0 ≡ ok tt)
    ⊎ ((x : Error) × ((apply stored env).0 ≡ err x) × ((apply stored env).1.tables ≡ tables))
apply-promised_example = apply-promised stored env
