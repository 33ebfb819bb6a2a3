-- ===== src/Tests/Fetches.antt =====
-- Runs of internal/varchive against answers that are all alike.
use chzzk_djclass_chat.Base.{◌≢◌, refl, ap, length, true, none, some, [], arith}
use chzzk_djclass_chat.Base.Text.{text, text_eq}
use chzzk_djclass_chat.Link.{sync}
use chzzk_djclass_chat.Store.{active_link, has_user}
use chzzk_djclass_chat.Varchive.{Http, all_dj_classes, client}
use chzzk_djclass_chat.Varchive.Syncs.{IsSynced, sync-IsSynced}
use chzzk_djclass_chat.Tests.Services.{viewer, viewer_link, env, env-Coherent}

abbrev pub http : Http
http = record {
  admits = λ path. true;
  valid = λ url. true;
  send = λ url bearer. some (200, some []);
  user_body = λ body. none;
  class_body = λ body. some (record {
    success = true;
    dj_class = text "BEGINNER";
    dj_power_sum = none;
    max_dj_power = none;
    dj_power_conversion = none;
  });
  path_escape = λ s. s;
  itoa = λ n. [];
}

pub some_fetched : all_dj_classes http (text "va") ≢ []
unfolding all_dj_classes text_eq
some_fetched e = omega (arith, ap length e)

sync-IsSynced_example :
    IsSynced viewer (all_dj_classes http (text "va")) env.tables (sync (client http) viewer env)
unfolding has_user active_link
sync-IsSynced_example =
    sync-IsSynced http viewer viewer_link env refl env-Coherent.cache_inv refl refl some_fetched
