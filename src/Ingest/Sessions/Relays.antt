-- ===== src/Ingest/Sessions/Relays.antt =====
-- What a session of internal/realtime/ingest.go makes of the events of its socket.
use chzzk_djclass_chat.Base.{ℕ, List}
use chzzk_djclass_chat.Base.Text.{Text}
use chzzk_djclass_chat.Chat.{Std}
use chzzk_djclass_chat.Ingest.Sessions.{Live, Turn, going, ended, Decoder}
use chzzk_djclass_chat.Realtime.Hub.{Hub}

module _ (d : Decoder) (std : Std) (channel_id : Text) (ref : ℕ) (o : Hub) where
  -- The session that a turn leaves.
  abbrev left : Turn → Live
  left (going l) = l
  left (ended e l) = l
