-- ===== src/Tests/Hubs.antt =====
-- Runs of internal/realtime/hub.go.
use chzzk_djclass_chat.Base.{
  ℕ, ◌+◌, ◌≡◌, ◌≢◌, ◌≤◌, refl, ◌⊎◌, true, false, none, some, List, [], ◌∷◌, All, arith, length,
  get_elem?,
}
use chzzk_djclass_chat.Base.Int.{pos}
use chzzk_djclass_chat.Base.Maps.{lookup, KeysApart}
use chzzk_djclass_chat.Base.Text.{Text, text, text_eq}
use chzzk_djclass_chat.Effects.{db_failure, err}
use chzzk_djclass_chat.Realtime.Batch.{ChatMessage, Resolver, Seen, build_batch, degrade, capped}
use chzzk_djclass_chat.Realtime.Batch.Laws.{answer, number, build_batch-number}
use chzzk_djclass_chat.Realtime.Hub.{Hub, Channel, new, after, subscribe, unsubscribe}
use chzzk_djclass_chat.Realtime.Hub.Heaps.{subs_total}
use chzzk_djclass_chat.Realtime.Hub.Steps.{
  Reach, here, next, subscribed, unsubscribed, run_counts, no_leaked_worker,
}

abbrev id : Text
id = text "abc"

-- Two widgets of one channel, and the hub once both have left.
abbrev pub two : Hub
two = let one = after (new 2 3) (subscribe (new 2 3) id) in after one (subscribe one id)

abbrev left : Hub
left = unsubscribe (unsubscribe two (0, 0)) (1, 0)

run_two : Reach (new 2 3) two
run_two = next (next here (subscribed id)) (subscribed id)

run_left : Reach (new 2 3) left
run_left = next (next run_two (unsubscribed (0, 0))) (unsubscribed (1, 0))

run_counts_example :
    (two.total ≡ subs_total two.heap)
    × (two.total ≤ two.max_total)
    × All (λ (c : Channel). length c.subs ≤ two.max_per_channel) two.heap
run_counts_example = run_counts 2 3 (omega arith) run_two

abbrev idle : Channel
idle = record {
  id = id;
  subs = [];
  teardown = true;
  armed_once = true;
  cancelled = false;
  buffer = [];
}

left-idle : get_elem? left.heap 0 ≡ some idle
unfolding unsubscribe subscribe new text_eq
left-idle = refl

no_leaked_worker_example :
    (lookup id left.channels ≡ some 0)
    × ((idle.subs ≢ []) ⊎ (idle.teardown ≡ true))
    × (left.closed ≡ false)
no_leaked_worker_example = no_leaked_worker 2 3 (omega arith) run_left 0 idle left-idle refl

abbrev chat : Text → Text → ChatMessage
chat sender content = record {
  channel_id = id;
  sender_channel_id = sender;
  nickname = sender;
  content = content;
  message_time = pos 0;
  emojis = none;
}

abbrev failing : Resolver
failing n sender = err db_failure

abbrev buffered : List ChatMessage
buffered =
    chat (text "a") (text "hi") ∷ chat (text "b") (text "yo") ∷ chat (text "a") (text "bye") ∷ []

build_batch-number_example :
    (seen : Seen) × KeysApart seen
    × ((build_batch failing 5 buffered).0 ≡ number 5 (answer seen) (capped buffered))
    × ((build_batch failing 5 buffered).1 ≡ 5 + length (capped buffered))
    × ((build_batch failing 5 buffered).2 ≡ length seen)
    × ((k : Text) (x : _) → lookup k seen ≡ some x → (c : ℕ) × (x ≡ degrade (failing c k)))
    × All
        (λ (m : ChatMessage). (x : _) × (lookup m.sender_channel_id seen ≡ some x))
        (capped buffered)
build_batch-number_example = build_batch-number failing 5 buffered
