-- ===== src/Tests/Flushes.antt =====
-- Runs of a flush of internal/realtime/hub.go with the resolver over the database.
use chzzk_djclass_chat.Djclass.{resolve}
use chzzk_djclass_chat.TtlCache.{get, new, set}
use chzzk_djclass_chat.Base.{◌≡◌, ◌≢◌, refl, none, List, [], ◌∷◌, arith, map}
use chzzk_djclass_chat.Base.Int.{int_lt, pos}
use chzzk_djclass_chat.Base.Text.{text, text_eq}
use chzzk_djclass_chat.Env.{cache_get, query, cache_set, linked, unlinked}
use chzzk_djclass_chat.Link.{sync}
use chzzk_djclass_chat.Realtime.Badges.{badge_batch}
use chzzk_djclass_chat.Realtime.Badges.Syncs.{renewed, sync-badge_batch}
use chzzk_djclass_chat.Realtime.Badges.Truth.{IsBatch, badge_batch-IsBatch}
use chzzk_djclass_chat.Realtime.Batch.{ChatMessage, capped}
use chzzk_djclass_chat.Realtime.Batch.Laws.{number}
use chzzk_djclass_chat.Store.{has_active_link, list_dj_classes, active_link, user_by_chzzk_id}
use chzzk_djclass_chat.Tests.Fetches.{http, some_fetched}
use chzzk_djclass_chat.Tests.Services.{viewer, viewer_link, viewer-Owns, tables, env, env-Coherent}
use chzzk_djclass_chat.Varchive.{all_dj_classes, client}

abbrev said : List ChatMessage
said =
    record {
      channel_id = text "abc";
      sender_channel_id = viewer.chzzk_id;
      nickname = text "nick";
      content = text "hello";
      message_time = pos 0;
      emojis = none;
    }
    ∷ record {
      channel_id = text "abc";
      sender_channel_id = [];
      nickname = text "guest";
      content = text "hi";
      message_time = pos 0;
      emojis = none;
    }
    ∷ []

badge_batch-IsBatch_example : IsBatch tables 7 said (badge_batch 7 said env)
badge_batch-IsBatch_example = badge_batch-IsBatch env 7 said env-Coherent

named : viewer.chzzk_id ≢ []
named e = ground (arith, e)

sync-badge_batch_example :
    (badge_batch 7 said (sync (client http) viewer env).1).0
    ≡ number 7 (renewed tables viewer (all_dj_classes http (text "va"))) (capped said)
unfolding active_link user_by_chzzk_id text_eq
sync-badge_batch_example =
    sync-badge_batch http viewer viewer_link env refl env-Coherent named viewer-Owns refl refl
      some_fetched 7 said

statuses : map (λ b. b.status) (badge_batch 7 said env).0 ≡ linked ∷ unlinked ∷ []
unfolding badge_batch text_eq cache_get get new query user_by_chzzk_id has_active_link cache_set set
    resolve list_dj_classes int_lt
statuses = refl
