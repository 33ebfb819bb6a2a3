-- ===== src/Realtime/Hub/Moves.antt =====
-- The steps of internal/realtime/hub.go that other goroutines take while one runs.
use chzzk_djclass_chat.Base.{ℕ}
use chzzk_djclass_chat.Base.Text.{Text}
use chzzk_djclass_chat.Realtime.Batch.{ChatMessage, Resolver}
use chzzk_djclass_chat.Realtime.Hub.{
  Hub, Handle, subscribe, after, unsubscribe, fire, inject, push, flush_once, close,
}
use chzzk_djclass_chat.Realtime.Hub.Steps.{
  Step, subscribed, unsubscribed, fired, injected, pushed, flushed, closes,
}

pub data Move : Type 0 where
  subscribes : Text → Move
  unsubscribes : Handle → Move
  fires : ℕ → Move
  injects : Text → ChatMessage → Move
  pushes : ℕ → ChatMessage → Move
  flushes : Resolver → ℕ → Move
  shuts : Move

unfoldable pub move : Move → Hub → Hub
unfolding subscribe unsubscribe fire inject push flush_once close
move (subscribes id) h = after h (subscribe h id)
move (unsubscribes s) h = unsubscribe h s
move (fires i) h = fire h i
move (injects id m) h = (inject h id m).0
move (pushes i m) h = push h i m
move (flushes r i) h = flush_once r h i
move shuts h = close h

pub move-Step : (m : Move) (h : Hub) → Step h (move m h)
unfolding move
move-Step (subscribes id) h = subscribed id
move-Step (unsubscribes s) h = unsubscribed s
move-Step (fires i) h = fired i
move-Step (injects id m) h = injected id m
move-Step (pushes i m) h = pushed i m
move-Step (flushes r i) h = flushed r i
move-Step shuts h = closes
