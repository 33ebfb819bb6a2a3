-- ===== src/Tests/Services.antt =====
-- Runs of internal/resolver and internal/link on a small database.
use chzzk_djclass_chat.Base.{◌≡◌, ◌≢◌, refl, true, none, some, List, [], ◌∷◌, arith}
use chzzk_djclass_chat.Base.Int.{ℤ, pos, int_lt, int_eq}
use chzzk_djclass_chat.Base.Text.{Text, text, text_eq}
use chzzk_djclass_chat.Effects.{ok}
use chzzk_djclass_chat.Env.{Env, query, write_tx, exec, invalidate_user}
use chzzk_djclass_chat.Link.{VaClass, VArchive, sync_classes, set_preferred}
use chzzk_djclass_chat.Link.Safety.{Owns, Safe, sync_classes-Safe}
use chzzk_djclass_chat.Link.Cards.{Card, card, card_options}
use chzzk_djclass_chat.Resolver.{resolve}
use chzzk_djclass_chat.Resolver.Coherence.{Coherent, Answers, resolve-truth}
use chzzk_djclass_chat.Store.{
  User, VarchiveLink, DjClass, Tables, active_link, list_dj_classes, set_preferred_button,
}
use chzzk_djclass_chat.TtlCache
use chzzk_djclass_chat.TtlCache.Refines.{new-Inv}

abbrev pub viewer : User
viewer = record {
  id = 1;
  chzzk_id = text "abc";
  chzzk_nickname = text "nick";
  preferred_button = some (pos 5);
}

abbrev pub class : ℤ → Text → DjClass
class button name = record {
  user_id = 1;
  button = button;
  dj_class = name;
  dj_power_sum = none;
  max_dj_power = none;
  dj_power_conversion = none;
}

abbrev pub viewer_link : VarchiveLink
viewer_link = record {
  user_id = 1;
  varchive_nickname = text "va";
  varchive_user_no = some (pos 7);
  is_active = true;
}

abbrev pub tables : Tables
tables = record {
  users = viewer ∷ [];
  channels = [];
  sessions = [];
  links = viewer_link ∷ [];
  classes = class (pos 4) (text "BEAT MAESTRO") ∷ class (pos 5) (text "HIGH CLASS II") ∷ [];
}

abbrev pub env : Env
env = record { tables = tables; faults = []; cache = TtlCache.new 2; now = 0 }

pub env-Coherent : Coherent env
unfolding TtlCache.new
env-Coherent = record { cache_inv = new-Inv 2 (omega arith); agree = tt }

-- The environment once the viewer's badge is cached.
abbrev warm : Env
warm = (resolve (text "abc") env).1

named : text "abc" ≢ []
named e = ground (arith, e)

warm-Answers : Answers tables (text "abc") (resolve (text "abc") env)
warm-Answers = resolve-truth env (text "abc") named env-Coherent

warm-Coherent : Coherent warm
warm-Coherent = warm-Answers.coherent

resolve-truth_example : Answers warm.tables (text "abc") (resolve (text "abc") warm)
resolve-truth_example = resolve-truth warm (text "abc") named warm-Coherent

abbrev fetched : List VaClass
fetched =
    record {
      button = pos 8;
      class = text "LORD OF DJMAX";
      power_sum = none;
      max_power = none;
      power_conversion = none;
    }
    ∷ []

pub viewer-Owns : Owns tables viewer
viewer-Owns = (λ e. refl, tt)

sync_classes-Safe_example : Safe 1 env (sync_classes viewer fetched env)
sync_classes-Safe_example = sync_classes-Safe viewer fetched env env-Coherent viewer-Owns

abbrev pub v_archive : VArchive
v_archive = record {
  lookup_user = λ token. ok (record { user_no = pos 7; nickname = text "va" });
  all_dj_classes = λ nickname. fetched;
}

set_preferred_runs : (set_preferred viewer (text "4") env).0 ≡ ok tt
unfolding set_preferred text_eq query list_dj_classes int_lt int_eq write_tx exec
    set_preferred_button invalidate_user TtlCache.delete TtlCache.new
set_preferred_runs = refl

abbrev shown : Card
shown = record {
  linked = true;
  varchive_nickname = text "va";
  options = card_options viewer (list_dj_classes 1 tables.classes);
}

card_runs : (card viewer env).0 ≡ ok shown
unfolding card query active_link
card_runs = refl
