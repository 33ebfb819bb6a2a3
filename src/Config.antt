-- ===== src/Config.antt =====
-- internal/config/config.go: the configuration from the environment, and the .env file. A bufio
-- scanner's lines, `net/url`, `net.ParseIP` and `strings.EqualFold` are parameters.
pub mod Loads
pub mod Dotenv
use chzzk_djclass_chat.Base.{
  ℕ, ◌≡◌, ◌≢◌, refl, ◌⊎◌, inl, inr, Bool, true, false, not, ◌&&◌, ◌||◌, Option, none, some, List,
  [], ◌∷◌, All, arith, any_of, if◌then◌else◌, ◌==◌, Bool-cases, Option-cases, subst, sym, ◌∙◌, ◌++◌,
}
use mathlib.Core.Option.{some-injective}
use chzzk_djclass_chat.Base.Maps.{lookup}
use chzzk_djclass_chat.Base.Text.{Text, text, text_eq, text_eq_iff, has_prefix, trim_space, cut_at}

pub record Config : Type 0 where
  pub addr : Text
  pub base_url : Text
  pub sqlite_path : Text
  pub chzzk_client_id : Text
  pub chzzk_client_secret : Text
  pub token_key : Text
  pub dev : Bool
  pub https : Bool

pub record Url : Type 0 where
  pub scheme : Text
  pub host : Text
  pub hostname : Text

pub record Std : Type 0 where
  pub parse_url : Text → Option Url
  pub equal_fold : Text → Text → Bool
  pub is_loopback_ip : Text → Bool

abbrev pub Environment : Type 0
Environment = List (Text × Text)

-- `os.Getenv`
unfoldable pub getenv : Environment → Text → Text
unfolding lookup
getenv env k = elim (lookup k env) [ none ↦ [] | some v ↦ v ]

unfoldable pub env_or : Environment → Text → Text → Text
unfolding getenv
env_or env k def = let v = getenv env k in if text_eq v [] then def else v

-- `strings.TrimRight(s, "/")`
unfoldable pub trim_right_slash : Text → Text
trim_right_slash [] = []
trim_right_slash (c ∷ s) =
    let rest = trim_right_slash s in if c == b'/' && text_eq rest [] then [] else c ∷ rest

-- `strconv.ParseBool`
unfoldable pub parse_bool : Text → Option Bool
parse_bool v =
    if any_of (λ w. text_eq v w)
      (text "1" ∷ text "t" ∷ text "T" ∷ text "true" ∷ text "TRUE" ∷ text "True" ∷ [])
    then some true
    else if any_of (λ w. text_eq v w)
        (text "0" ∷ text "f" ∷ text "F" ∷ text "false" ∷ text "FALSE" ∷ text "False" ∷ [])
    then some false
    else none

-- `DEV`; `none` is an error.
unfoldable pub dev_of : Text → Option Bool
unfolding parse_bool
dev_of v = if text_eq v [] then some false else parse_bool v

-- `missing`; the source appends the names in any order.
unfoldable pub missing_names : List (Text × Text) → List Text
missing_names [] = []
missing_names ((name, v) ∷ m) = if text_eq v [] then name ∷ missing_names m else missing_names m

-- The configuration, or the error that `FromEnv` returns.
pub data Loaded : Type 0 where
  loaded : Config → Loaded
  bad_dev bad_base_url dev_not_local : Loaded
  missing : List Text → Loaded

abbrev pub required : Config → List (Text × Text)
required c =
    (text "CHZZK_CLIENT_ID", c.chzzk_client_id)
    ∷ (text "CHZZK_CLIENT_SECRET", c.chzzk_client_secret)
    ∷ (text "VARCHIVE_TOKEN_KEY", c.token_key)
    ∷ []

-- The configuration as it is read, before any check.
unfoldable pub read_config : Environment → Config
unfolding getenv env_or trim_right_slash
read_config env = record {
  addr = env_or env (text "ADDR") (text ":8000");
  base_url = trim_right_slash (env_or env (text "BASE_URL") (text "http://localhost:8000"));
  sqlite_path = env_or env (text "SQLITE_PATH") (text "djclass.sqlite3");
  chzzk_client_id = getenv env (text "CHZZK_CLIENT_ID");
  chzzk_client_secret = getenv env (text "CHZZK_CLIENT_SECRET");
  token_key = getenv env (text "VARCHIVE_TOKEN_KEY");
  dev = false;
  https = false;
}

module _ (std : Std) where
  unfoldable pub is_loopback : Text → Bool
  is_loopback host =
      if std.equal_fold host (text "localhost") then true else std.is_loopback_ip host

  abbrev pub is_web : Url → Bool
  is_web u =
      (text_eq u.scheme (text "http") || text_eq u.scheme (text "https")) && not (text_eq u.host [])

  unfoldable pub check_url : Config → Option Url → Loaded
  unfolding is_loopback
  check_url c none = bad_base_url
  check_url c (some u) =
      if is_web u
      then (if c.dev && not (is_loopback u.hostname)
          then dev_not_local
          else loaded (record c { https = text_eq u.scheme (text "https") }))
      else bad_base_url

  unfoldable pub check_missing : Config → List Text → Loaded
  unfolding check_url
  check_missing c [] = check_url c (std.parse_url c.base_url)
  check_missing c (name ∷ names) = missing (name ∷ names)

  unfoldable pub with_dev : Config → Option Bool → Loaded
  unfolding check_missing missing_names
  with_dev c none = bad_dev
  with_dev c (some dev) = check_missing (record c { dev = dev }) (missing_names (required c))

  unfoldable pub from_env : Environment → Loaded
  unfolding with_dev getenv read_config dev_of
  from_env env = with_dev (read_config env) (dev_of (getenv env (text "DEV")))
