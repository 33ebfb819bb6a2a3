-- ===== src/Web/Streams.antt =====
-- internal/web/widget.go: the stream of a widget. What the subscription's channel and the other
-- users of the hub do while it is served, and whether a write succeeds, is a list of its wake-ups.
pub mod Outcomes
use chzzk_djclass_chat.Base.{ℕ, Bool, true, false, Option, none, some, List, [], ◌∷◌, ◌++◌}
use chzzk_djclass_chat.Base.Text.{Text, text}
use chzzk_djclass_chat.Effects.{Error, too_many_subscribers, Result, ok, err}
use chzzk_djclass_chat.Realtime.Batch.{ChatMessage, Resolver}
use chzzk_djclass_chat.Realtime.Hub.Moves.{Move, move}
use chzzk_djclass_chat.Realtime.Hub.{
  Hub, Handle, subscribe, after, unsubscribe, fire, inject, push, flush_once, close,
}
use chzzk_djclass_chat.Store.{Channel}
use chzzk_djclass_chat.Store.Accounts.{channel_by_chzzk_id}

-- The cases of the `select`: the request is over, the channel gives a payload or is closed, or the
-- keepalive is due, with whether `send` succeeds; or the stream sleeps.
pub data Wake : Type 0 where
  gone : Wake
  received : Text → Bool → Wake
  closed : Wake
  ticked : Bool → Wake
  elsewhere : Move → Wake

-- What the widget has been sent, the hub, and whether the handler has returned.
pub record Progress : Type 0 where
  pub written : List Text
  pub hub : Hub
  pub over : Bool

pub data Reply : Type 0 where
  not_found : Reply
  server_error : Reply
  too_many : Reply
  closing : Reply
  streamed : Progress → Reply

unfoldable pub chat_event : Text → Text
chat_event data' = text "event: chat" ++ 10 ∷ text "data: " ++ data' ++ 10 ∷ 10 ∷ []

abbrev pub keepalive : Text
keepalive = text ": keepalive" ++ 10 ∷ 10 ∷ []

abbrev pub connected : Text
connected = text ": connected" ++ 10 ∷ 10 ∷ []

-- A return, with the deferred `Unsubscribe`.
unfoldable pub returned : Handle → Hub → Progress
unfolding unsubscribe
returned s h = record { written = []; hub = unsubscribe h s; over = true }

-- After a write: the chunk is sent and the loop goes on, or the handler returns.
unfoldable pub wrote : Handle → Hub → Text → Bool → Progress → Progress
unfolding returned
wrote s h chunk true p = record p { written = chunk ∷ p.written }
wrote s h chunk false p = returned s h

-- The loop.
unfoldable pub stream : Handle → List Wake → Hub → Progress
unfolding wrote chat_event move
stream s [] h = record { written = []; hub = h; over = false }
stream s (gone ∷ ws) h = returned s h
stream s (received data' sent ∷ ws) h = wrote s h (chat_event data') sent (stream s ws h)
stream s (closed ∷ ws) h = returned s h
stream s (ticked sent ∷ ws) h = wrote s h keepalive sent (stream s ws h)
stream s (elsewhere m ∷ ws) h = stream s ws (move m h)

-- What follows `Subscribe`.
unfoldable pub subscribed_stream : Hub → Result (Handle × Hub) → Bool → List Wake → Reply × Hub
unfolding stream
subscribed_stream h (ok (s, g)) sent ws =
    let p = wrote s g connected sent (stream s ws g) in (streamed p, p.hub)
subscribed_stream h (err too_many_subscribers) sent ws = (too_many, h)
subscribed_stream h (err e) sent ws = (closing, h)

unfoldable pub channel_stream : Hub → Text → Option Channel → Bool → List Wake → Reply × Hub
unfolding subscribed_stream
channel_stream h id none sent ws = (not_found, h)
channel_stream h id (some c) sent ws = subscribed_stream h (subscribe h id) sent ws

-- `widgetStream`: whether its query fails, and whether its first write succeeds.
unfoldable pub widget_stream : Bool → List Channel → Hub → Text → Bool → List Wake → Reply × Hub
unfolding channel_stream channel_by_chzzk_id
widget_stream true channels h id sent ws = (server_error, h)
widget_stream false channels h id sent ws =
    channel_stream h id (channel_by_chzzk_id id channels) sent ws
