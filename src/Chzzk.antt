-- ===== src/Chzzk.antt =====
-- internal/chzzk/client.go: the client of the Chzzk Open API. The network, encoding/json and
-- net/url are parameters; an error is what its message is made of.
pub mod Redacts
pub mod Tokens
use chzzk_djclass_chat.Base.{
  ℕ, ◌+◌, ◌<◌, Bool, true, false, not, ◌&&◌, ◌||◌, Option, none, some, List, [], ◌∷◌, ◌++◌, any_of,
  take, ltb, leb, ◌==◌, if◌then◌else◌,
}
use chzzk_djclass_chat.Base.Int.{ℤ, pos, negsuc}
use chzzk_djclass_chat.Base.Text.{Text, text, text_eq, has_prefix, trim_space, cut_at}
use chzzk_djclass_chat.Tokens.{Token}
use chzzk_djclass_chat.Web.Sites.{Me}

-- The error of an `http.Client`: an `*url.Error`, which quotes an operation and a URL beside its cause,
-- or another one.
pub data CallError : Type 0 where
  url_error : Text → Text → Text → CallError
  other_error : Text → CallError

-- How a request ends: it cannot be made, it is not answered, the answer is cut off, or it is read.
-- Each failure has its cause.
pub data Sent : Type 0 where
  unmade : Text → Sent
  unanswered : CallError → Sent
  cut : Text → Sent
  answered : ℕ → Text → Sent

-- What an error message is made of: a method, a URL and a cause or a status; a cause; or the
-- missing field.
pub data Failure : Type 0 where
  plain_failure : Text → Failure
  call_failure : Text → Text → Text → Failure
  status_failure : Text → Text → ℕ → Failure
  decode_failure : Text → Failure
  missing : Text → Failure

pub data Outcome (A : Type 0) : Type 0 where
  given : A → Outcome A
  failed : Failure → Outcome A

abbrev pub Body : Type 0
Body = List (Text × Text)

pub record TokenBody : Type 0 where
  pub access_token : Text
  pub refresh_token : Text
  pub expires_in : Option ℤ

-- `Client` with its parameters. A decoder gives the fields, or the cause of its failure; `content`
-- gives the raw value of the field `content`, and no text if there is none.
pub record Client : Type 0 where
  pub client_id : Text
  pub client_secret : Text
  pub redirect_uri : Text
  pub token_url : Text
  pub api_url : Text
  pub marshal : Body → Outcome Text
  pub send : Text → Text → Text → Option Text → Sent
  pub content : Text → Outcome Text
  pub token_body : Text → Outcome TokenBody
  pub me_body : Text → Outcome Me
  pub url_body : Text → Outcome Text
  pub query_escape : Text → Text
  pub encode : Body → Text

abbrev pub max_answer : ℕ
max_answer = 1048576

abbrev pub default_expires_in : ℕ
default_expires_in = 86400

unfoldable pub redact_url : Text → Text
redact_url [] = []
redact_url (c ∷ s) = let rest = redact_url s in if c == b'?' then [] else c ∷ rest

-- `errors.As(err, &ue)`, which leaves only the cause of an `*url.Error`.
unfoldable pub cause_of : CallError → Text
cause_of (url_error op quoted cause) = cause
cause_of (other_error cause) = cause

-- The reading of an answer in `do`.
unfoldable pub read_answer : Text → Text → Sent → Outcome Text
unfolding redact_url cause_of
read_answer method u (unmade cause) = failed (plain_failure cause)
read_answer method u (unanswered x) = failed (call_failure method (redact_url u) (cause_of x))
read_answer method u (cut cause) = failed (plain_failure cause)
read_answer method u (answered status raw) =
    if ltb status 200 || ltb 299 status
    then failed (status_failure method (redact_url u) status)
    else given (take max_answer raw)

-- An empty value of `content` is ignored.
unfoldable pub is_blank : Text → Bool
is_blank c = text_eq c [] || text_eq c (text "null") || text_eq c (text "{}")

unfoldable pub unwrap : Text → Text → Text
unfolding is_blank
unwrap raw inner = let c = trim_space inner in if is_blank c then raw else c

unfoldable pub decoded : {A : Type 0} → Outcome A → Outcome A
decoded (given a) = given a
decoded (failed (plain_failure cause)) = failed (decode_failure cause)
decoded (failed x) = failed x

abbrev pub then_do : {A B : Type 0} → Outcome A → (A → Outcome B) → Outcome B
then_do (given a) f = f a
then_do (failed x) f = failed x

module _ (c : Client) where
  -- `decodeContent`
  unfoldable pub decode_content : {A : Type 0} → (Text → Outcome A) → Text → Outcome A
  unfolding unwrap decoded
  decode_content decode raw =
      then_do (decoded (c.content raw)) (λ inner. decoded (decode (unwrap raw inner)))

  unfoldable pub marshalled : Option Body → Outcome (Option Text)
  marshalled none = given none
  marshalled (some b) = then_do (c.marshal b) (λ raw. given (some raw))

  -- `do` up to the body of the answer, which is all of it where nothing is decoded.
  unfoldable pub do_call : Text → Text → Text → Option Body → Outcome Text
  unfolding read_answer marshalled
  do_call method u bearer body =
      then_do (marshalled body) (λ raw. read_answer method u (c.send method u bearer raw))

  -- `do` with a value to decode into.
  unfoldable pub do_json :
      {A : Type 0} → (Text → Outcome A) → Text → Text → Text → Option Body → Outcome A
  unfolding do_call decode_content
  do_json decode method u bearer body =
      then_do (do_call method u bearer body) (decode_content decode)

  unfoldable pub lifetime : Option ℤ → ℕ
  lifetime none = default_expires_in
  lifetime (some (negsuc n)) = default_expires_in
  lifetime (some (pos n)) = if ltb 0 n then n else default_expires_in

  unfoldable pub token_of : TokenBody → Outcome Token
  unfolding lifetime
  token_of b =
      if text_eq b.access_token []
      then failed (missing (text "accessToken"))
      else given (record {
        access_token = b.access_token;
        refresh_token = b.refresh_token;
        expires_in = lifetime b.expires_in;
      })

  unfoldable pub token : Body → Outcome Token
  unfolding do_json token_of
  token body = then_do (do_json c.token_body (text "POST") c.token_url [] (some body)) token_of

  unfoldable pub exchange_code : Text → Text → Outcome Token
  unfolding token
  exchange_code code state = token (
      (text "grantType", text "authorization_code")
      ∷ (text "clientId", c.client_id)
      ∷ (text "clientSecret", c.client_secret)
      ∷ (text "code", code)
      ∷ (text "state", state)
      ∷ [])

  unfoldable pub refresh : Text → Outcome Token
  unfolding token
  refresh refresh_token = token (
      (text "grantType", text "refresh_token")
      ∷ (text "clientId", c.client_id)
      ∷ (text "clientSecret", c.client_secret)
      ∷ (text "refreshToken", refresh_token)
      ∷ [])

  unfoldable pub me : Text → Outcome Me
  unfolding do_json
  me access_token = do_json c.me_body (text "GET") (c.api_url ++ text "/users/me") access_token none

  unfoldable pub authorize_url : Text → Text
  authorize_url state =
      text "https://chzzk.naver.com/account-interlock?"
      ++ c.encode (
          (text "clientId", c.client_id)
          ∷ (text "redirectUri", c.redirect_uri)
          ∷ (text "state", state)
          ∷ [])

  unfoldable pub subscribe_chat : Text → Text → Outcome Text
  unfolding do_call
  subscribe_chat access_token session_key =
      do_call (text "POST")
        (c.api_url
          ++ text "/sessions/events/subscribe/chat?sessionKey="
          ++ c.query_escape session_key)
        access_token none

  -- `strings.Contains(u, "?auth=")`
  unfoldable pub has_auth : Text → Bool
  unfolding has_prefix
  has_auth [] = false
  has_auth (d ∷ s) = has_prefix (d ∷ s) (text "?auth=") || has_auth s

  unfoldable pub with_auth : Text → Text → Text
  unfolding has_auth
  with_auth access_token u =
      if has_auth u
      then u
      else if any_of (λ d. d == b'?') u
      then u ++ text "&auth=" ++ access_token
      else u ++ text "?auth=" ++ access_token

  unfoldable pub session_url_of : Text → Text → Outcome Text
  unfolding with_auth
  session_url_of access_token u =
      if text_eq u [] then failed (missing (text "url")) else given (with_auth access_token u)

  unfoldable pub user_session_url : Text → Outcome Text
  unfolding do_json session_url_of
  user_session_url access_token =
      then_do
        (do_json c.url_body (text "GET") (c.api_url ++ text "/sessions/auth") access_token none)
        (session_url_of access_token)
