-- ===== src/Tests/Endpoints.antt =====
-- Runs of internal/chzzk/client.go with Chzzk that answers one text to all requests.
use chzzk_djclass_chat.Base.{◌≡◌, refl, none, some, []}
use chzzk_djclass_chat.Base.Int.{pos}
use chzzk_djclass_chat.Base.Text.{is_space, text, text_eq, trim_space}
use chzzk_djclass_chat.Chzzk.{
  Client, Sent, answered, unanswered, url_error, given, failed, missing, status_failure, token,
  do_json, redact_url, marshalled, me, user_session_url, exchange_code,
}
use chzzk_djclass_chat.Chzzk.Redacts.{quoting, do_json-redacted}

-- The client, with the answer to each request.
abbrev client : Sent → Client
client answer = record {
  client_id = text "id";
  client_secret = text "secret";
  redirect_uri = text "https://a/cb";
  token_url = text "https://t";
  api_url = text "https://o";
  marshal = λ b. given (text "{}");
  send = λ method u bearer body. answer;
  content = λ raw. given (text " {} ");
  token_body = λ raw.
      given (record { access_token = raw; refresh_token = text "r"; expires_in = some (pos 0) });
  me_body = λ raw. given (record { channel_id = raw; nickname = text "n" });
  url_body = λ raw. given raw;
  query_escape = λ s. s;
  encode = λ b. [];
}

token_given :
    exchange_code (client (answered 200 (text "a"))) (text "code") (text "state")
    ≡ given (record { access_token = text "a"; refresh_token = text "r"; expires_in = 86400 })
unfolding exchange_code text_eq trim_space is_space
token_given = refl

token_missing : token (client (answered 200 [])) [] ≡ failed (missing (text "accessToken"))
unfolding token text_eq trim_space is_space
token_missing = refl

url_with_auth :
    user_session_url (client (answered 200 (text "https://s?k=1"))) (text "tok")
    ≡ given (text "https://s?k=1&auth=tok")
unfolding user_session_url text_eq trim_space is_space
url_with_auth = refl

refused :
    me (client (answered 401 [])) (text "tok")
    ≡ failed (status_failure (text "GET") (text "https://o/users/me") 401)
unfolding me
refused = refl

redacted : redact_url (text "https://o/s?k=1") ≡ redact_url (text "https://o/s?k=2")
unfolding redact_url
redacted = refl

-- No request is answered, and the error quotes its URL.
abbrev offline : Client
offline = record (client (answered 500 [])) {
  send = λ method u bearer body. unanswered (url_error (text "Post") u (text "refused"));
}

encoded : marshalled offline none ≡ given none
unfolding marshalled
encoded = refl

do_json-redacted_example :
    do_json offline (λ raw. given raw) (text "POST") (text "https://o/s?k=1") (text "a") none
    ≡ do_json offline (λ raw. given raw) (text "POST") (text "https://o/s?k=2") (text "b") none
do_json-redacted_example =
    do_json-redacted offline (λ raw. given raw) (text "POST") (text "https://o/s?k=1")
      (text "https://o/s?k=2") (text "a") (text "b") none none none none redacted encoded encoded
      (quoting (text "Post") (text "Post") (text "https://o/s?k=1") (text "https://o/s?k=2")
        (text "refused"))
