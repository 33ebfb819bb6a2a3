-- ===== src/Web/Sites.antt =====
-- internal/web: what the handlers share. A handler takes the state of the services with the
-- session of the request, and gives the reply with that state. The session manager (scs), the
-- client of Chzzk, `url.QueryEscape` and the printing of an integer are parameters.
use chzzk_djclass_chat.Base.{ℕ, ◌*◌, Bool, true, false, Option, List}
use chzzk_djclass_chat.Base.Int.{ℤ}
use chzzk_djclass_chat.Base.Text.{Text, text}
use chzzk_djclass_chat.Crypto.{Box}
use chzzk_djclass_chat.Effects.{Result}
use chzzk_djclass_chat.Env.{Env, M}
use chzzk_djclass_chat.Link.{VArchive}
use chzzk_djclass_chat.Link.Cards.{Card}
use chzzk_djclass_chat.Ratelimit.{Buckets, allow}
use chzzk_djclass_chat.Ratelimit.Clients
use chzzk_djclass_chat.Resolver.{second}
use chzzk_djclass_chat.Tokens.{Token}

-- What is used of the session manager, on the values of one session: `GetInt64`, `Put`, and
-- `RenewToken` and `Destroy`, which say whether they worked.
pub record SessionManager (S : Type 0) : Type 0 where
  pub get_int : Text → S → ℕ
  pub put : Text → ℕ → S → S
  pub renew_token : S → Bool × S
  pub destroy : S → Bool × S

pub record Me : Type 0 where
  pub channel_id : Text
  pub nickname : Text

-- `Server`
pub record Server (S : Type 0) : Type 0 where
  pub sessions : SessionManager S
  pub exchange_code : Text → Text → Option Token
  pub me : Text → Option Me
  pub box : Box
  pub link : VArchive
  pub query_escape : Text → Text
  pub authorize_url : Text → Text
  pub https : Bool
  pub sprint : ℤ → Text

pub record Cookie : Type 0 where
  pub name : Text
  pub value : Text
  pub path : Text
  pub max_age : ℤ
  pub secure : Bool

-- What is read of a request. `random` is what `crypto/rand` gives for a state, and the two nonces
-- are what it gives for the two encryptions. `hx_current_path` is the path of the header
-- HX-Current-URL if it parses.
pub record Request : Type 0 where
  pub client : Clients.Request
  pub path : Text
  pub query : Text → Text
  pub form : Text → Text
  pub cookie : Text → Option Text
  pub hx_request : Bool
  pub hx_boosted : Bool
  pub hx_current_path : Option Text
  pub random : Text
  pub nonce : Text
  pub nonce' : Text

-- The services, the session of the request and the cookies set so far.
pub record Site (S : Type 0) : Type 0 where
  pub env : Env
  pub session : S
  pub limiter : Buckets
  pub cookies : List Cookie

-- A reply: a redirect, the header HX-Redirect, an error, a page by its template, the card with a
-- status, a message and its kind, or none, after a panic.
pub data Reply : Type 0 where
  redirect : ℕ → Text → Reply
  hx_redirect : Text → Reply
  problem : ℕ → Text → Reply
  page : Text → Reply
  login_form : Text → Reply
  widget_settings : Option Text → Reply
  aborted : Reply
  link_card : ℕ → Card → Text → Text → Reply

abbrev pub Handler : Type 0 → Type 0
Handler S = Site S → Reply × Site S

-- A call of a service, and what the handler does with its result.
abbrev pub call : {S A : Type 0} → M A → (Result A → Handler S) → Handler S
call m k s = let r = m s.env in k r.0 (record s { env = r.1 })

abbrev pub minute : ℕ
minute = 60 * second

-- `s.Limiter.Allow`, and what follows either answer.
abbrev pub limited : {S : Type 0} → Request → Text → ℕ → Handler S → Handler S → Handler S
limited r scope limit refused admitted s =
    let a = allow s.limiter s.env.now r.client scope limit minute in
    let t = record s { limiter = a.0 } in elim a.1 [ true ↦ admitted t | false ↦ refused t ]

abbrev pub server_error : Reply
server_error = problem 500 (text "서버 오류")

abbrev pub msg_too_many : Text
msg_too_many = text "요청이 너무 많습니다. 잠시 후 다시 시도해주세요."
