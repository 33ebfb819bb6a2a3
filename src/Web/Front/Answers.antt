-- ===== src/Web/Front/Answers.antt =====
-- What a client of internal/web gets, and what internal/web/middleware.go logs: the status of an
-- answer, its headers, and the line of the access log. The texts of the pages are not modelled.
use chzzk_djclass_chat.Base.{ℕ, Bool, true, false, Option, none, some, List, [], ◌∷◌, ◌++◌}
use chzzk_djclass_chat.Base.Maps.{delete_key}
use chzzk_djclass_chat.Base.Text.{Text, text}
use chzzk_djclass_chat.Web.Front.{
  Arrival, Http, World, Answer, cross_origin, unmatched, moved, replied, dev_page, widget_page,
  streaming, file, healthy, unhealthy, front,
}
use chzzk_djclass_chat.Web.Sites.{
  Server, redirect, hx_redirect, problem, page, login_form, widget_settings, aborted, link_card,
}
use chzzk_djclass_chat.Web.Sites
use chzzk_djclass_chat.Web.Streams

-- The code of `WriteHeader`, for the access log.
unfoldable pub reply_status : Sites.Reply → ℕ
reply_status (redirect status target) = status
reply_status (hx_redirect target) = 200
reply_status (problem status message) = status
reply_status (page name) = 200
reply_status (login_form next) = 200
reply_status (widget_settings id) = 200
reply_status aborted = 200
reply_status (link_card status card message kind) = status

unfoldable pub stream_status : Streams.Reply → ℕ
stream_status Streams.not_found = 404
stream_status Streams.server_error = 500
stream_status Streams.too_many = 503
stream_status Streams.closing = 503
stream_status (Streams.streamed p) = 200

unfoldable pub status : Answer → ℕ
unfolding reply_status stream_status
status cross_origin = 403
status (unmatched s) = s
status (moved path) = 301
status (replied r cookies) = reply_status r
status (dev_page channel flash) = 200
status (widget_page id) = 200
status (streaming r) = stream_status r
status (file s) = s
status healthy = 200
status unhealthy = 503

abbrev pub Headers : Type 0
Headers = List (Text × Text)

-- `Header.Set`, for each of them in turn.
unfoldable pub set_headers : Headers → Headers → Headers
unfolding delete_key
set_headers [] m = m
set_headers ((k, v) ∷ hs) m = set_headers hs ((k, v) ∷ delete_key k m)

abbrev pub csp_name : Text
csp_name = text "Content-Security-Policy"

abbrev pub hsts_name : Text
hsts_name = text "Strict-Transport-Security"

abbrev pub csp : Text
csp =
    text "default-src 'self'; "
    ++ text "script-src 'self' 'unsafe-eval' https://cdn.jsdelivr.net; "
    ++ text "style-src 'self' 'unsafe-inline' https://cdn.jsdelivr.net; "
    ++ text
        "img-src 'self' https://chzzk-djclass-assets.pages.dev https://*.pstatic.net https://*.naver.net data:; "
    ++ text "font-src https://cdn.jsdelivr.net; "
    ++ text "connect-src 'self'; "
    ++ text "frame-ancestors 'none'; base-uri 'self'; form-action 'self'"

abbrev pub widget_csp : Text
widget_csp =
    text "default-src 'self'; script-src 'self'; "
    ++ text "style-src 'self' 'unsafe-inline' https://cdn.jsdelivr.net; "
    ++ text "img-src 'self' https://*.pstatic.net https://*.naver.net; "
    ++ text "font-src https://cdn.jsdelivr.net; connect-src 'self'; "
    ++ text "frame-ancestors 'none'; base-uri 'self'; form-action 'none'"

abbrev pub hsts : Bool → Headers
hsts true = (hsts_name, text "max-age=31536000; includeSubDomains") ∷ []
hsts false = []

-- `securityHeaders`
abbrev pub security_headers : Bool → Headers
security_headers https =
    (csp_name, csp)
    ∷ (text "X-Frame-Options", text "DENY")
    ∷ (text "X-Content-Type-Options", text "nosniff")
    ∷ (text "Referrer-Policy", text "same-origin")
    ∷ (text "Cross-Origin-Opener-Policy", text "same-origin")
    ∷ (text "Permissions-Policy", text "geolocation=(), microphone=(), camera=()")
    ∷ hsts https

abbrev pub html : Text × Text
html = (text "Content-Type", text "text/html; charset=utf-8")

abbrev pub no_store : Text × Text
no_store = (text "Cache-Control", text "no-store")

-- The headers of a handler under `withUser`.
unfoldable pub reply_headers : Sites.Reply → Headers
reply_headers (redirect status target) = []
reply_headers (hx_redirect target) = (text "HX-Redirect", target) ∷ []
reply_headers (problem status message) = []
reply_headers (page name) = html ∷ []
reply_headers (login_form next) = html ∷ []
reply_headers (widget_settings id) = html ∷ []
reply_headers aborted = []
reply_headers (link_card status card message kind) = html ∷ []

unfoldable pub stream_headers : Streams.Reply → Headers
stream_headers Streams.not_found = []
stream_headers Streams.server_error = []
stream_headers Streams.too_many = []
stream_headers Streams.closing = []
stream_headers (Streams.streamed p) =
    (text "Content-Type", text "text/event-stream")
    ∷ (text "Cache-Control", text "no-cache")
    ∷ (text "X-Accel-Buffering", text "no")
    ∷ []

-- What the handlers of internal/web set themselves.
unfoldable pub own_headers : Answer → Headers
unfolding reply_headers stream_headers
own_headers cross_origin = []
own_headers (unmatched s) = []
own_headers (moved path) = []
own_headers (replied r cookies) = no_store ∷ reply_headers r
own_headers (dev_page channel flash) = no_store ∷ html ∷ []
own_headers (widget_page id) = (csp_name, widget_csp) ∷ html ∷ []
own_headers (streaming r) = stream_headers r
own_headers (file s) = []
own_headers healthy = []
own_headers unhealthy = []

-- A line of the access log. It has no query.
pub record LogLine : Type 0 where
  pub method : Text
  pub path : Text
  pub status_code : ℕ
  pub session_cookie : Bool

unfoldable pub is_some : Option Text → Bool
is_some none = false
is_some (some v) = true

-- `accessLog`; after a panic nothing is logged.
unfoldable pub access_log : {S : Type 0} → Arrival S → Answer → Option LogLine
unfolding status is_some
access_log a (replied aborted cookies) = none
access_log a x = some (record {
  method = a.method;
  path = a.request.path;
  status_code = status x;
  session_cookie = is_some (a.request.cookie (text "session"));
})

module _ {S : Type 0} (http : Http S) (srv : Server S) where
  unfoldable pub headers : Answer → Headers
  unfolding set_headers own_headers
  headers x =
      set_headers (http.library_headers x)
        (set_headers (own_headers x) (set_headers (security_headers srv.https) []))

  -- `Handler`: the answer with its headers, the world after it, and the line of the log.
  unfoldable pub handler : Bool → Arrival S → World → Answer × Headers × World × Option LogLine
  unfolding front headers access_log
  handler dev a w = let r = front http srv dev a w in (r.0, headers r.0, r.1, access_log a r.0)
