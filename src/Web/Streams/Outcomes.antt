-- ===== src/Web/Streams/Outcomes.antt =====
-- How the stream of a widget, in internal/web/widget.go, ends, and what it does to the hub.
use chzzk_djclass_chat.Base.{◌<◌, ◌≡◌, Bool, true, false, none, some, List, [], ◌∷◌, ◌++◌}
use chzzk_djclass_chat.Base.Text.{Text}
use chzzk_djclass_chat.Effects.{ok}
use chzzk_djclass_chat.Realtime.Hub.{Hub, Handle, subscribe, unsubscribe}
use chzzk_djclass_chat.Realtime.Hub.Rooms.{IsFull}
use chzzk_djclass_chat.Realtime.Hub.Steps.{Reach}
use chzzk_djclass_chat.Store.{Channel}
use chzzk_djclass_chat.Store.Accounts.{channel_by_chzzk_id}
use chzzk_djclass_chat.Web.Streams.{
  Wake, gone, received, closed, ticked, elsewhere, Progress, Reply, not_found, server_error,
  too_many, closing, streamed, chat_event, keepalive, connected,
}

-- The chunks that a stream whose writes all succeed would send.
unfoldable pub chunks : List Wake → List Text
unfolding chat_event
chunks [] = []
chunks (received data' sent ∷ ws) = chat_event data' ∷ chunks ws
chunks (ticked sent ∷ ws) = keepalive ∷ chunks ws
chunks (gone ∷ ws) = chunks ws
chunks (closed ∷ ws) = chunks ws
chunks (elsewhere m ∷ ws) = chunks ws

abbrev pub Starts : List Text → List Text → Type 0
Starts xs ys = (rest : List Text) × (xs ++ rest ≡ ys)

-- The hub is one that steps of it reach, and once the handler has returned the last of them has given
-- the subscription back. The widget has been sent, in order, the first of the chunks.
pub record IsServed (s : Handle) (h : Hub) (sent : List Text) (p : Progress) : Type 0 where
  pub reached : Reach h p.hub
  pub given_back : p.over ≡ true → (k : Hub) × (Reach h k) × (p.hub ≡ unsubscribe k s)
  pub in_order : Starts p.written sent

abbrev pub IsKnown : Text → List Channel → Type 0
IsKnown id cs = (c : Channel) × (channel_by_chzzk_id id cs ≡ some c)

-- What each reply to a stream's request means, and the hub after it.
unfoldable pub IsReply : Bool → List Channel → Hub → Text → List Wake → Reply × Hub → Type 0
unfolding chunks
IsReply fails cs h id ws (server_error, g) = (fails ≡ true) × (g ≡ h)
IsReply fails cs h id ws (not_found, g) =
    (fails ≡ false) × (channel_by_chzzk_id id cs ≡ none) × (g ≡ h)
IsReply fails cs h id ws (too_many, g) = IsKnown id cs × (h.closed ≡ false) × IsFull h id × (g ≡ h)
IsReply fails cs h id ws (closing, g) = IsKnown id cs × (h.closed ≡ true) × (g ≡ h)
IsReply fails cs h id ws (streamed p, g) =
    IsKnown id cs
    × (h.closed ≡ false)
    × (h.total < h.max_total)
    × (g ≡ p.hub)
    × (s : Handle) × (k : Hub) × (subscribe h id ≡ ok (s, k))
    × IsServed s h (connected ∷ chunks ws) p
