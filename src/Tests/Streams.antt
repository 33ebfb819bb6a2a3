-- ===== src/Tests/Streams.antt =====
-- Runs of internal/web/widget.go.
use chzzk_djclass_chat.Base.{◌≡◌, refl, true, false, none, List, [], ◌∷◌}
use chzzk_djclass_chat.Base.Text.{text, text_eq}
use chzzk_djclass_chat.Realtime.Hub.{new, close}
use chzzk_djclass_chat.Realtime.Hub.Moves.{subscribes, shuts}
use chzzk_djclass_chat.Store.{Channel}
use chzzk_djclass_chat.Tests.Hubs.{two}
use chzzk_djclass_chat.Web.Streams.{
  not_found, closing, too_many, streamed, widget_stream, Wake, received, closed, ticked, elsewhere,
  connected, chat_event,
}

abbrev stored : List Channel
stored =
    record {
      user_id = 1;
      chzzk_channel_id = text "abc";
      tokens = record {
        access_token_encrypted = none;
        refresh_token_encrypted = none;
        token_expires_at = none;
      };
    }
    ∷ []

-- A second widget comes, a payload is sent, and the hub closes before the next one.
abbrev wakes : List Wake
wakes =
    elsewhere (subscribes (text "abc"))
    ∷ received (text "{}") true
    ∷ elsewhere shuts
    ∷ closed
    ∷ ticked true
    ∷ []

sent :
    (widget_stream false stored (new 2 3) (text "abc") true wakes).0
    ≡ streamed (record {
      written = connected ∷ chat_event (text "{}") ∷ [];
      hub = (widget_stream false stored (new 2 3) (text "abc") true wakes).1;
      over = true;
    })
unfolding widget_stream text_eq new
sent = refl

-- A write that fails ends the stream, and the subscription is gone.
dropped :
    (widget_stream false stored (new 2 3) (text "abc") true (ticked false ∷ wakes)).1.total ≡ 0
unfolding widget_stream text_eq new
dropped = refl

unknown : (widget_stream false [] (new 2 3) (text "abc") true wakes).0 ≡ not_found
unfolding widget_stream text_eq
unknown = refl

crowded : (widget_stream false stored two (text "abc") true wakes).0 ≡ too_many
unfolding widget_stream text_eq new
crowded = refl

shut : (widget_stream false stored (close two) (text "abc") true wakes).0 ≡ closing
unfolding widget_stream text_eq new
shut = refl
