-- ===== src/Web/Front.antt =====
-- `Handler` of internal/web/web.go with internal/web/middleware.go: the patterns, what each of them
-- serves, the check of the origin, the headers and the access log. The mux, the check, the file
-- server and the encoding of a query are parameters.
pub mod Answers
pub mod Reads
pub mod Origins
pub mod Headers
use chzzk_djclass_chat.Base.{
  ℕ, ◌/◌, Bool, true, false, ◌||◌, Option, none, some, List, [], ◌∷◌, ◌++◌, map, drop,
  if◌then◌else◌,
}
use chzzk_djclass_chat.Base.Int.{pos}
use chzzk_djclass_chat.Base.Maps.{lookup, delete_key}
use chzzk_djclass_chat.Base.Text.{Text, text, text_eq}
use chzzk_djclass_chat.Chat.{has_suffix}
use chzzk_djclass_chat.Effects.{Result, ok, err}
use chzzk_djclass_chat.Env.{Env, query}
use chzzk_djclass_chat.Ratelimit.{Buckets}
use chzzk_djclass_chat.Realtime.Hub.{Hub}
use chzzk_djclass_chat.SessionStore.{millisecond}
use chzzk_djclass_chat.Store.{Channel}
use chzzk_djclass_chat.Web.Accounts.{with_user}
use chzzk_djclass_chat.Web.Dev.{dev_chat}
use chzzk_djclass_chat.Web.Routes.{
  Route, landing_page, login_form_page, login_start, login_callback, logout_action, private, serve,
  dashboard_page, link_card_page, connect_action, sync_action, unlink_action, prefer_action,
}
use chzzk_djclass_chat.Web.Sites.{Server, Cookie, Request, Site, Handler, redirect, problem, page}
use chzzk_djclass_chat.Web.Sites
use chzzk_djclass_chat.Web.Streams

-- What a pattern serves.
pub data Target : Type 0 where
  account : Route → Target
  dev_form dev_injection widget widget_events asset health : Target
  slash_missing : Text → Target

abbrev pub Patterns : Type 0
Patterns = List (Text × Target)

abbrev pub page_patterns : Patterns
page_patterns =
    (text "GET /{$}", account landing_page)
    ∷ (text "GET /login/{$}", account login_form_page)
    ∷ (text "GET /api/auth/chzzk", account login_start)
    ∷ (text "GET /api/auth/chzzk/callback", account login_callback)
    ∷ (text "POST /logout/{$}", account logout_action)
    ∷ (text "GET /dashboard/{$}", account (private dashboard_page))
    ∷ (text "GET /link/{$}", account (private link_card_page))
    ∷ (text "POST /link/connect/{$}", account (private connect_action))
    ∷ (text "POST /link/sync/{$}", account (private sync_action))
    ∷ (text "POST /link/unlink/{$}", account (private unlink_action))
    ∷ (text "POST /link/preferred-button/{$}", account (private prefer_action))
    ∷ []

-- The loop over the paths without their slash.
abbrev pub slash_patterns : List Text → Patterns
slash_patterns [] = []
slash_patterns (p ∷ ps) = (text "GET " ++ p, slash_missing (p ++ text "/")) ∷ slash_patterns ps

abbrev pub slash_paths : List Text
slash_paths = text "/login" ∷ text "/dashboard" ∷ text "/link" ∷ []

abbrev pub open_patterns : Patterns
open_patterns =
    (text "GET /widget/{channelID}", widget)
    ∷ (text "GET /widget/{channelID}/{$}", widget)
    ∷ (text "GET /widget/{channelID}/stream", widget_events)
    ∷ (text "GET /static/", asset)
    ∷ (text "GET /healthz", health)
    ∷ []

abbrev pub dev_patterns : Bool → Patterns
dev_patterns true = (text "GET /dev", dev_form) ∷ (text "POST /dev/chat", dev_injection) ∷ []
dev_patterns false = []

-- All of them, with the value of `Dev`.
abbrev pub patterns : Bool → Patterns
patterns dev = page_patterns ++ slash_patterns slash_paths ++ open_patterns ++ dev_patterns dev

-- A request as it arrives, with the values of its session. The path value `channel_id` is that of
-- the widget's patterns; `first_write` and `wakes` are what becomes of a stream.
pub record Arrival (S : Type 0) : Type 0 where
  pub request : Request
  pub method : Text
  pub session : S
  pub channel_id : Text
  pub first_write : Bool
  pub wakes : List Streams.Wake

pub data Answer : Type 0 where
  cross_origin : Answer
  unmatched : ℕ → Answer
  moved : Text → Answer
  replied : Sites.Reply → List Cookie → Answer
  dev_page : Text → Text → Answer
  widget_page : Text → Answer
  streaming : Streams.Reply → Answer
  file : ℕ → Answer
  healthy unhealthy : Answer

-- What is used of net/http and net/url: the pattern that a request matches, or the status when
-- there is none; whether `CrossOriginProtection` refuses it; the status of a file; and the headers
-- that the library sets for an answer.
pub record Http (S : Type 0) : Type 0 where
  pub matches : List Text → Arrival S → Option Text
  pub no_match : Arrival S → ℕ
  pub is_cross_origin : Arrival S → Bool
  pub file_status : Text → ℕ
  pub encode : List (Text × Text) → Text
  pub library_headers : Answer → List (Text × Text)

pub record World : Type 0 where
  pub env : Env
  pub limiter : Buckets
  pub hub : Hub

module _ {S : Type 0} (http : Http S) (srv : Server S) where
  abbrev pub site_of : Arrival S → World → Site S
  site_of a w = record { env = w.env; session = a.session; limiter = w.limiter; cookies = [] }

  -- A page or an action under `page`.
  unfoldable pub account_answer : Handler S → Arrival S → World → Answer × World
  account_answer h a w =
      let r = h (site_of a w) in
      (replied r.0 r.1.cookies, record w { env = r.1.env; limiter = r.1.limiter })

  -- `devPage`, and `withUser` before it.
  unfoldable pub after_user : Sites.Reply → Answer → Answer
  after_user (problem status message) x = replied (problem status message) []
  after_user r x = x

  abbrev pub no_reply : Handler S
  no_reply s = (page [], s)

  unfoldable pub dev_form_answer : Arrival S → World → Answer × World
  unfolding with_user after_user
  dev_form_answer a w =
      let r = with_user srv (λ u. no_reply) (site_of a w) in
      (
        after_user r.0
            (dev_page (a.request.query (text "channel")) (a.request.query (text "flash"))),
        record w { env = r.1.env },
      )

  -- `devChat` runs if `withUser` lets it.
  unfoldable pub injected : Sites.Reply → Arrival S → World → Answer × World
  unfolding dev_chat
  injected (problem status message) a w = (replied (problem status message) [], w)
  injected r a w =
      let d =
        dev_chat http.encode (a.request.form (text "channel")) (a.request.form (text "sender"))
          (a.request.form (text "text")) (pos (w.env.now / millisecond)) w.hub in
      (replied (redirect 303 d.1) [], record w { hub = d.0 })

  unfoldable pub dev_injection_answer : Arrival S → World → Answer × World
  unfolding with_user injected
  dev_injection_answer a w =
      let r = with_user srv (λ u. no_reply) (site_of a w) in
      injected r.0 a (record w { env = r.1.env })

  -- `widgetStream`, once its query has ended.
  unfoldable pub stream_answer : Result (List Channel) → Arrival S → World → Answer × World
  unfolding Streams.widget_stream
  stream_answer (ok channels) a w =
      let r = Streams.widget_stream false channels w.hub a.channel_id a.first_write a.wakes in
      (streaming r.0, record w { hub = r.1 })
  stream_answer (err x) a w =
      let r = Streams.widget_stream true [] w.hub a.channel_id a.first_write a.wakes in
      (streaming r.0, record w { hub = r.1 })

  -- `StripPrefix` and `noDirListing`.
  unfoldable pub asset_answer : Text → Answer
  unfolding has_suffix text_eq
  asset_answer path =
      let rest = drop 8 path in
      if has_suffix rest (text "/") || text_eq rest []
      then file 404
      else file (http.file_status rest)

  -- `healthz`
  unfoldable pub health_answer : Result (Unit {0}) → Answer
  health_answer (ok u) = healthy
  health_answer (err x) = unhealthy

  unfoldable pub answer_of : Target → Arrival S → World → Answer × World
  unfolding account_answer serve dev_form_answer dev_injection_answer stream_answer asset_answer
      health_answer
  answer_of (account p) a w = account_answer (serve srv p a.request) a w
  answer_of dev_form a w = dev_form_answer a w
  answer_of dev_injection a w = dev_injection_answer a w
  answer_of widget a w = (widget_page a.channel_id, w)
  answer_of widget_events a w =
      let r = query (λ t. t.channels) w.env in stream_answer r.0 a (record w { env = r.1 })
  answer_of asset a w = (asset_answer a.request.path, w)
  answer_of health a w =
      let r = query (λ t. tt) w.env in (health_answer r.0, record w { env = r.1 })
  answer_of (slash_missing path) a w = (moved path, w)

  unfoldable pub dispatched : Option Target → Arrival S → World → Answer × World
  unfolding answer_of
  dispatched none a w = (unmatched (http.no_match a), w)
  dispatched (some t) a w = answer_of t a w

  -- What the mux finds among the patterns.
  unfoldable pub found : Option Text → Bool → Option Target
  unfolding lookup
  found none dev = none
  found (some p) dev = lookup p (patterns dev)

  unfoldable pub mux : Bool → Arrival S → World → Answer × World
  unfolding dispatched found
  mux dev a w = dispatched (found (http.matches (map (λ p. p.0) (patterns dev)) a) dev) a w

  -- `csrf.Handler(mux)`
  unfoldable pub front : Bool → Arrival S → World → Answer × World
  unfolding mux
  front dev a w = elim (http.is_cross_origin a) [ true ↦ (cross_origin, w) | false ↦ mux dev a w ]
