-- ===== src/Tests/Sockets.antt =====
-- Runs of a session of internal/realtime/ingest.go.
use chzzk_djclass_chat.Base.{◌≡◌, refl, true, false, Option, some, List, [], ◌∷◌, map}
use chzzk_djclass_chat.Base.Text.{has_prefix, Text, text, text_eq}
use chzzk_djclass_chat.Chat.{Fields, string, object, field, no_field}
use chzzk_djclass_chat.Ingest.Sessions.{
  Decoder, Ended, Input, frame, ping_due, cancelled, subscribe_fails, elsewhere, Live, drive,
  opened, failed_with, no_session_key, closed_by_server, gave_up,
}
use chzzk_djclass_chat.Realtime.Hub.Moves.{unsubscribes}
use chzzk_djclass_chat.Tests.Edges.{std}
use chzzk_djclass_chat.Tests.Hubs.{two}

abbrev connected_with : Text → Fields
connected_with key =
    field (text "type") (string (text "connected"))
      (field (text "data") (object (field (text "sessionKey") (string key) no_field)) no_field)

-- The array of a packet is its name and an argument that is one letter.
abbrev decoder : Decoder
decoder = record {
  json = record {
    valid = λ s. true;
    marshal_string = λ s. s;
    array = λ s. elim (text_eq s (text "c")) [
      | true ↦ some (text "CHAT" ∷ text "hello" ∷ [])
      | false ↦ some (text "SYSTEM" ∷ s ∷ [])
    ];
    string = λ s. some s;
  };
  object = λ s. elim (text_eq s (text "hello")) [
    | true ↦ some (field (text "content") (string s) no_field)
    | false ↦ some (connected_with (elim (text_eq s (text "k")) [ true ↦ s | false ↦ [] ]))
  ];
}

-- Connected with a key, a message, a widget that leaves, a ping, and the end.
abbrev inputs : List Input
inputs =
    frame 1 (text "42k")
    ∷ frame 2 (text "42c")
    ∷ elsewhere (unsubscribes (0, 0))
    ∷ ping_due 25 true
    ∷ frame 26 (text "3")
    ∷ frame 27 (text "42c")
    ∷ subscribe_fails
    ∷ cancelled
    ∷ []

abbrev live : List Input → Live × Option Ended
live is = drive decoder std (text "abc") 0 is (opened decoder std (text "abc") 0 two 25 60 0)

gives_up : (live inputs).1 ≡ some (failed_with gave_up)
unfolding drive opened text_eq has_prefix
gives_up = refl

two_messages : map (λ m. m.content) (live inputs).0.pushed ≡ text "hello" ∷ text "hello" ∷ []
unfolding drive opened text_eq has_prefix
two_messages = refl

without_key : (live (frame 1 (text "42x") ∷ cancelled ∷ [])).1 ≡ some (failed_with no_session_key)
unfolding drive opened text_eq has_prefix
without_key = refl

closed : (live (frame 1 (text "41") ∷ [])).1 ≡ some closed_by_server
unfolding drive opened text_eq has_prefix
closed = refl
