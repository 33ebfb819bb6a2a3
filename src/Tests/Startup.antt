-- ===== src/Tests/Startup.antt =====
-- Runs of internal/config and internal/web.
use chzzk_djclass_chat.Base.{◌≡◌, refl, true, false, some, List, [], ◌∷◌, ◌⊎◌, ◌≤◌, ◌≢◌, All}
use chzzk_djclass_chat.Base.Maps.{lookup}
use chzzk_djclass_chat.Base.Text.{Text, text, text_eq}
use chzzk_djclass_chat.Config.{Config, Environment, Std, loaded, from_env}
use chzzk_djclass_chat.Web.{safe_next_path, IsLocal, safe_next_path-IsLocal}
use chzzk_djclass_chat.Config.Loads.{Usable, from_env-Usable}

abbrev pub std : Std
std = record {
  parse_url =
      λ s. some (record { scheme = text "https"; host = text "a.b"; hostname = text "a.b" });
  equal_fold = λ s t. false;
  is_loopback_ip = λ s. false;
}

abbrev pub env : Environment
env =
    (text "CHZZK_CLIENT_ID", text "id")
    ∷ (text "CHZZK_CLIENT_SECRET", text "secret")
    ∷ (text "VARCHIVE_TOKEN_KEY", text "key")
    ∷ (text "BASE_URL", text "https://a.b/")
    ∷ []

abbrev config : Config
config = record {
  addr = text ":8000";
  base_url = text "https://a.b";
  sqlite_path = text "djclass.sqlite3";
  chzzk_client_id = text "id";
  chzzk_client_secret = text "secret";
  token_key = text "key";
  dev = false;
  https = true;
}

loads : from_env std env ≡ loaded config
unfolding from_env text_eq
loads = refl

from_env-Usable_example : Usable std config
from_env-Usable_example = from_env-Usable std env config loads

abbrev lines : List Text
lines = text "# secrets" ∷ text "BASE_URL=http://localhost" ∷ text "ADDR = ':9000'" ∷ []

set_before : lookup (text "BASE_URL") env ≡ some (text "https://a.b/")
unfolding lookup text_eq
set_before = refl

safe_next_path-IsLocal_example :
    (safe_next_path (text "/link/") (text "/dashboard/") ≡ text "/dashboard/")
    ⊎ ((safe_next_path (text "/link/") (text "/dashboard/") ≡ text "/link/")
        × IsLocal (text "/link/")
        × All (λ c. (32 ≤ c) × (c ≢ 127)) (text "/link/"))
safe_next_path-IsLocal_example = safe_next_path-IsLocal (text "/link/") (text "/dashboard/")
