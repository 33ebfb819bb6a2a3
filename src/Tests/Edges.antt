-- ===== src/Tests/Edges.antt =====
-- Runs of internal/chzzk/eio3, internal/crypto, and of tokens.go, ingest.go and chat.go of
-- internal/realtime.
use chzzk_djclass_chat.Base.{
  ℕ, ◌+◌, ◌*◌, ◌≤◌, ◌≡◌, refl, ◌⊎◌, Bool, true, false, none, some, [], ◌∷◌, ◌++◌, All, arith,
}
use chzzk_djclass_chat.Base.Int.{pos}
use chzzk_djclass_chat.Base.Text.{Text, text}
use chzzk_djclass_chat.Chat.{
  Fields, field, no_field, string, number, object, Std, extract_chat, IsNaverImage,
  extract_chat-emojis,
}
use chzzk_djclass_chat.Crypto.{Box, Reliable, encrypt, decrypt, decrypt-encrypt}
use chzzk_djclass_chat.Effects.{ok}
use chzzk_djclass_chat.Eio3.{Json, Session, event, is_digit, start, parse_socket_packet, ping}
use chzzk_djclass_chat.Eio3.Heartbeats.{Run, begun, then', pinged, silence-bounded}
use chzzk_djclass_chat.Eio3.Packets.{slash, parse_socket_packet-event}
use chzzk_djclass_chat.Ingest.{returned, gave_up, subscribe, subscribe-ends}
use chzzk_djclass_chat.Realtime.Batch.{Emojis}
use chzzk_djclass_chat.Store.{ChannelRow}
use chzzk_djclass_chat.Tokens.{Token, World, persist, access_token, access_token-persist}

-- A reader of one array of two strings.
abbrev json : Json
json = record {
  valid = λ s. false;
  marshal_string = λ s. s;
  array = λ s. some (text "CHAT" ∷ text "{}" ∷ []);
  string = λ s. some s;
}

parse_socket_packet-event_example :
    parse_socket_packet json (b'2' ∷ (text "/," ++ (text "17" ++ b'[' ∷ text "...]")))
    ≡ event (record { name = text "CHAT"; args = text "{}" ∷ [] })
unfolding is_digit
parse_socket_packet-event_example =
    parse_socket_packet-event json (text "/,") (text "17") (text "...]") (text "CHAT") (text "CHAT")
      (text "{}" ∷ []) slash ack refl refl
  where
    ack : All (λ c. is_digit c ≡ true) (text "17")
    ack = (refl, (refl, tt))

abbrev pinged_once : Session
pinged_once = record (start 25 20 0) { ping_at = none; deadline = 45; sent = text "2" ∷ [] }

ping_runs : Run json (start 25 20 0) pinged_once
unfolding start ping
ping_runs = then' begun (pinged 25 refl refl)

silence-bounded_example :
    pinged_once.deadline ≤ pinged_once.last_frame + pinged_once.interval + pinged_once.timeout
silence-bounded_example = silence-bounded json 25 20 0 pinged_once ping_runs

-- A box that hides nothing, with a tag of one character.
abbrev pub box : Box
box = record {
  overhead = 1;
  seal = λ nonce s. 0 ∷ s;
  open' = λ nonce s. elim s [ [] ↦ none | c ∷ t ↦ some t ];
  encode = λ s. s;
  decode = λ s. some s;
}

box-Reliable : Reliable box
box-Reliable = record {
  decodes = λ raw. refl;
  opens = λ nonce s. refl;
  sealed = λ nonce s. omega arith;
}

abbrev nonce : Text
nonce = text "0123456789ab"

decrypt-encrypt_example : decrypt box (encrypt box nonce (text "token")) ≡ ok (text "token")
decrypt-encrypt_example = decrypt-encrypt box nonce (text "token") box-Reliable refl

abbrev token : Token
token = record { access_token = text "new"; refresh_token = text "next"; expires_in = 86400 }

abbrev world : ℕ → World
world now = record {
  box = box;
  refresh = λ t. some token;
  now = now;
  later = now;
  nonce = nonce;
  nonce' = nonce;
  write_fails = false;
}

abbrev expired : ChannelRow
expired = record {
  access_token_encrypted = some (text "a");
  refresh_token_encrypted = some (text "b");
  token_expires_at = some 10;
}

access_token-persist_example :
    ((persist (world 1000) expired token).0 ≡ ok (text "new"))
    × (access_token (world 2000) (ok (some (persist (world 1000) expired token).1))
        ≡ (ok (text "new"), some (persist (world 1000) expired token).1))
access_token-persist_example =
    access_token-persist (world 1000) (world 2000) expired token refl refl box-Reliable refl
      (omega arith)

abbrev never : ℕ → Bool
never n = false

subscribe-ends_example :
    ((never 1 ≡ true) × (subscribe never 5 ≡ some ([], returned)))
    ⊎ (((never 1 ≡ false) × (never 2 ≡ true) × (subscribe never 5 ≡ some (1 * 5 ∷ [], returned)))
        ⊎ (((never 1 ≡ false)
              × (never 2 ≡ false)
              × (never 3 ≡ true)
              × (subscribe never 5 ≡ some (1 * 5 ∷ 2 * 5 ∷ [], returned)))
            ⊎ ((never 1 ≡ false)
                × (never 2 ≡ false)
                × (never 3 ≡ false)
                × (subscribe never 5 ≡ some (1 * 5 ∷ 2 * 5 ∷ [], gave_up)))))
subscribe-ends_example = subscribe-ends never 5

abbrev pub std : Std
std = record {
  parse_url = λ s. some (record { scheme = text "https"; has_user = false; hostname = s });
  to_lower = λ s. s;
  format_float = λ x. [];
  sprint = λ v. [];
  int_of_float = λ x. x;
  parse_int = λ s. pos 0;
}

abbrev payload : Fields
payload = field (text "content") (string (text "hi")) (
    field (text "emojis")
      (object (
        field (text "a") (string (text "ssl.pstatic.net")) (
          field (text "b") (string (text "evil.net"))
            (field (text "c") (number (pos 1)) no_field))))
      no_field)

extract_chat-emojis_example :
    (es : Emojis) × ((extract_chat std payload (text "id")).emojis ≡ some es)
    × All (IsNaverImage std) es
extract_chat-emojis_example = extract_chat-emojis std payload (text "id")
