-- ===== src/Realtime/Badges.antt =====
-- `buildBatch` and `flushOnce` of internal/realtime/hub.go with the resolver of
-- internal/resolver/resolver.go over the database and the badge cache.
pub mod Truth
pub mod Steps
pub mod Syncs
use chzzk_djclass_chat.Base.{
  ℕ, suc, Bool, true, false, Option, none, some, List, [], ◌∷◌, ◌++◌, get_elem?, set, if◌then◌else◌,
}
use chzzk_djclass_chat.Base.Maps.{lookup}
use chzzk_djclass_chat.Base.Text.{Text}
use chzzk_djclass_chat.Env.{Env, BadgeResult}
use chzzk_djclass_chat.Realtime.Batch.{
  ChatMessage, BatchMessage, Seen, batch_message, degrade, capped,
}
use chzzk_djclass_chat.Realtime.Hub.{Hub, Channel, deliver, is_nil}
use chzzk_djclass_chat.Resolver.{resolve}

-- The resolver's answer to a sender that the batch has no result for.
unfoldable pub resolve_sender : Text → Env → BadgeResult × Env
unfolding resolve degrade
resolve_sender sender e = let r = resolve sender e in (degrade r.0, r.1)

-- The loop of `buildBatch`: the messages, the last id, and what the resolver leaves.
unfoldable pub badge_loop : ℕ → Seen → List ChatMessage → Env → List BatchMessage × ℕ × Env
unfolding lookup resolve_sender batch_message
badge_loop last seen [] e = ([], last, e)
badge_loop last seen (m ∷ ms) e = elim (lookup m.sender_channel_id seen) [
  | some res ↦
      let (rest, last', g) = badge_loop (suc last) seen ms e in
      (batch_message (suc last) m res ∷ rest, last', g)
  | none ↦
      let (res, f) = resolve_sender m.sender_channel_id e in
      let (rest, last', g) = badge_loop (suc last) (seen ++ (m.sender_channel_id, res) ∷ []) ms f in
      (batch_message (suc last) m res ∷ rest, last', g)
]

unfoldable pub badge_batch : ℕ → List ChatMessage → Env → List BatchMessage × ℕ × Env
unfolding badge_loop
badge_batch last raw e = badge_loop last [] (capped raw) e

-- `flushOnce` with listeners: each is offered the batch.
unfoldable pub offer : Hub → ℕ → Channel → List BatchMessage × ℕ × Env → Hub × Env
unfolding deliver
offer h ref ch (batch, last, g) = (
  record h {
    heap = set h.heap ref (record ch { buffer = []; subs = deliver batch ch.subs });
    next_id = last;
  },
  g,
)

unfoldable pub flush_badges : Hub → ℕ → Env → Hub × Env
unfolding badge_batch offer
flush_badges h ref e = elim (get_elem? h.heap ref) [
  | none ↦ (h, e)
  | some ch ↦
      if is_nil ch.buffer
      then (h, e)
      else if is_nil ch.subs
      then (record h { heap = set h.heap ref (record ch { buffer = [] }) }, e)
      else offer h ref ch (badge_batch h.next_id ch.buffer e)
]
