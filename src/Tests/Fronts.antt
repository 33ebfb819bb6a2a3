-- ===== src/Tests/Fronts.antt =====
-- Runs of `Handler` of internal/web/web.go, with a mux that knows three patterns.
use chzzk_djclass_chat.Base.{
  ℕ, ◌≡◌, refl, ap, ◌∙◌, inl, inr, Bool, true, false, not, Option, none, some, List, [], ◌∷◌,
  if◌then◌else◌,
}
use chzzk_djclass_chat.Base.Maps.{lookup}
use chzzk_djclass_chat.Base.Text.{Text, text, text_eq, text_eq_iff, has_prefix}
use chzzk_djclass_chat.Web.Front.{
  dev_form, found, Http, Arrival, World, moved, file, front, asset_answer,
}
use chzzk_djclass_chat.Web.Front.Answers.{handler}
use chzzk_djclass_chat.Web.Front.Headers.{
  IsProtected, sniffing_name, no_sniffing, handler-IsProtected,
}
use chzzk_djclass_chat.Web.Front.Origins.{IsGuarded, front-IsGuarded, post}
use chzzk_djclass_chat.Tests.Hubs.{two}
use chzzk_djclass_chat.Tests.Services.{env}
use chzzk_djclass_chat.Tests.Sites.{server, request}

abbrev route : Text → Text → Option Text
route method path =
    if text_eq method (text "POST")
    then some (text "POST /link/unlink/{$}")
    else if text_eq path (text "/link/")
    then some (text "GET /link")
    else none

-- A request is cross-origin here if it has a query.
abbrev http : Http ℕ
http = record {
  matches = λ ps a. route a.method a.request.path;
  no_match = λ a. 404;
  is_cross_origin = λ a. not (text_eq (a.request.query []) []);
  file_status = λ name. 200;
  encode = λ q. [];
  library_headers = λ x. (sniffing_name, no_sniffing) ∷ (text "Location", []) ∷ [];
}

abbrev world : World
world = record { env = env; limiter = []; hub = two }

abbrev arrival : Text → Text → Arrival ℕ
arrival method query = record {
  request = request query;
  method = method;
  session = 1;
  channel_id = [];
  first_write = true;
  wakes = [];
}

slash_added :
    front http server false (arrival (text "GET") []) world ≡ (moved (text "/link/"), world)
unfolding front
slash_added = refl

foreign :
    (handler http server false (arrival (text "POST") (text "q")) world).3
    ≡ some (record {
      method = text "POST";
      path = text "/link/";
      status_code = 403;
      session_cookie = true;
    })
unfolding handler
foreign = refl

no_dev : found http server (some (text "GET /dev")) false ≡ none
unfolding found text_eq
no_dev = refl

dev : found http server (some (text "GET /dev")) true ≡ some dev_form
unfolding found text_eq
dev = refl

no_listing : asset_answer http server (text "/static/css/") ≡ file 404
unfolding asset_answer
no_listing = refl

by_test :
    (b c : Bool) (p : Text)
    → (if b
        then some (text "POST /link/unlink/{$}")
        else if c
        then some (text "GET /link")
        else none)
      ≡ some p
    → has_prefix p post ≡ true
    → b ≡ true
unfolding has_prefix
by_test true c p e h = refl
by_test false true p e h = ap (λ o. elim o [ some q ↦ has_prefix q post | none ↦ true ]) e ∙ h
by_test false false p e h = cc

posting :
    (ps : List Text) (p : Text) (a : Arrival ℕ)
    → http.matches ps a ≡ some p
    → has_prefix p post ≡ true
    → a.method ≡ text "POST"
posting ps p a m h =
    (text_eq_iff a.method (text "POST")).0
      (by_test (text_eq a.method (text "POST")) (text_eq a.request.path (text "/link/")) p m h)

front-IsGuarded_example :
    IsGuarded http server false
      (arrival (text "POST") [])
      world
      (front http server false (arrival (text "POST") []) world)
front-IsGuarded_example = front-IsGuarded http server posting false (arrival (text "POST") []) world

handler-IsProtected_example :
    IsProtected server.https
      (handler http server false (arrival (text "GET") []) world).0
      (handler http server false (arrival (text "GET") []) world).1
unfolding lookup text_eq
handler-IsProtected_example =
    handler-IsProtected http server false (arrival (text "GET") []) world
      (λ x. (inr (refl, refl), (inl refl, tt)))
