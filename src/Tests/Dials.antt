-- ===== src/Tests/Dials.antt =====
-- Runs of `Dial` of internal/chzzk/eio3/eio3.go.
use chzzk_djclass_chat.Eio3.{on_dial_frame}
use chzzk_djclass_chat.Base.{◌+◌, ◌≡◌, refl, Option, none, some, List, [], ◌∷◌, ◌++◌, if◌then◌else◌}
use chzzk_djclass_chat.Base.Int.{pos}
use chzzk_djclass_chat.Base.Text.{Text, text, text_eq, has_prefix}
use chzzk_djclass_chat.Eio3.Dials.{
  Url, Urls, Read, binary, frame, Handshake, settings, socket_url, truncate, redact_err, done, dial,
  ends, not_dialled, connected_with, unsupported, failed, no_ping_settings, refused_connect,
}
use chzzk_djclass_chat.Eio3.Dials.Connects.{IsDialled, dial-connected}
use chzzk_djclass_chat.Eio3.Dials.Secrets.{NamesOnce, escaped, dial-redacted}

-- The token is `k/`, which a query writes as `k%2F`.
abbrev parsed : Text → Url
parsed s = record {
  scheme = if has_prefix s (text "ftp") then text "ftp" else text "https";
  address = text "h";
  path = [];
  raw_query = text "auth=k%2F";
  fragment = text "f";
}

abbrev urls : Urls
urls = record {
  parse = λ s. some (parsed s);
  print =
      λ u. u.scheme ++ text "://" ++ u.address ++ u.path ++ text "?" ++ u.raw_query ++ u.fragment;
  query_get = λ q k. text "k/";
  query_escape = λ s. if text_eq s (text "k/") then text "k%2F" else s;
  itoa = λ n. (48 + n) ∷ [];
}

abbrev decode : Text → Handshake
decode s = if text_eq s (text "{}") then settings (pos 25) (pos 60) else settings (pos 0) (pos 60)

abbrev reachable : Text → Option Text
reachable url = none

abbrev unreachable : Text → Option Text
unreachable url = some (text "a=k%2F!")

abbrev endpoint_url : Text
endpoint_url = text "wss://h/socket.io/?auth=k%2F&transport=websocket&EIO=3"

endpoint_of : socket_url urls (text "x") ≡ done endpoint_url
unfolding socket_url text_eq has_prefix
endpoint_of = refl

no_endpoint : socket_url urls (text "ftp") ≡ failed (unsupported (text "ftp"))
unfolding socket_url text_eq has_prefix
no_endpoint = refl

truncated : truncate urls (text "abcd") 2 ≡ text "ab" ++ 226 ∷ 128 ∷ 166 ∷ text "(4 bytes)"
unfolding truncate
truncated = refl

redacted : redact_err urls (text "k/ a=k%2F!") (text "x") ≡ text "REDACTED a=REDACTED!"
unfolding redact_err text_eq has_prefix
redacted = refl

-- An open packet, a ping, a noop, the connection, and an event.
abbrev reads : List Read
reads =
    binary
    ∷ frame (text "0{}")
    ∷ frame (text "2a")
    ∷ binary
    ∷ frame (text "6")
    ∷ frame (text "40")
    ∷ frame (text "42e")
    ∷ []

connects :
    dial urls decode reachable (text "x") reads
    ≡ record { sent = text "3a" ∷ []; reading = connected_with (frame (text "42e") ∷ []) }
unfolding dial text_eq has_prefix on_dial_frame
connects = refl

no_settings :
    (dial urls decode reachable (text "x") (frame (text "0") ∷ [])).reading ≡ ends no_ping_settings
unfolding dial text_eq has_prefix
no_settings = refl

turned_away :
    (dial urls decode reachable (text "x") (frame (text "0{}") ∷ frame (text "44no") ∷ [])).reading
    ≡ ends (refused_connect (text "no"))
unfolding dial text_eq has_prefix on_dial_frame
turned_away = refl

dial-connected_example :
    IsDialled urls decode reachable (text "x") reads (dial urls decode reachable (text "x") reads)
unfolding dial text_eq has_prefix on_dial_frame
dial-connected_example =
    dial-connected urls decode reachable (text "x") reads (frame (text "42e") ∷ []) refl

names_once : NamesOnce urls (text "k/") (text "a=") (text "k%2F") (text "!")
unfolding text_eq has_prefix
names_once =
    escaped refl (λ e. cc) (refl, (refl, (refl, (refl, (refl, (refl, (refl, tt)))))))
      (refl, (refl, tt)) (refl, tt)

dial-redacted_example :
    (dial urls decode unreachable (text "x") reads).reading
    ≡ ends (not_dialled (text "a=REDACTED!"))
unfolding socket_url text_eq has_prefix
dial-redacted_example =
    dial-redacted urls decode unreachable (text "x") endpoint_url (text "k/") (text "a=")
      (text "k%2F") (text "!") (parsed endpoint_url) reads refl refl refl refl (λ e. cc) names_once
