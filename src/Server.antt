-- ===== src/Server.antt =====
-- cmd/server/main.go: the commands, and the order in which `serve` starts and stops the parts. What
-- the network, SQLite and the HTTP server answer are parameters; `serve` is the trace of its steps.
pub mod Lives
use chzzk_djclass_chat.Base.{
  ℕ, ◌==◌, Bool, true, false, not, Option, none, some, List, [], ◌∷◌, ◌++◌, if◌then◌else◌,
}
use chzzk_djclass_chat.Base.Text.{Text, text, text_eq}
use chzzk_djclass_chat.Config.{Config, Environment, Std, Loaded, loaded, getenv, from_env}
use chzzk_djclass_chat.Config.Dotenv.{load_dotenv}
use chzzk_djclass_chat.Snapshots.{System, Disk, Outcome, succeeded, failed, backup}

pub data Command : Type 0 where
  healthcheck : Command
  backup_to : Text → Command
  serving : Command
  usage : Command

-- The `switch` of `main`, on the arguments after the flags.
unfoldable pub command : List Text → Command
command [] = serving
command (c ∷ []) =
    if text_eq c (text "healthcheck")
    then healthcheck
    else if text_eq c (text "serve")
    then serving
    else usage
command (c ∷ target ∷ []) = if text_eq c (text "backup") then backup_to target else usage
command (c ∷ target ∷ a ∷ rest) = usage

-- The file of `-env`, by its lines.
pub data EnvFile : Type 0 where
  no_file unreadable : EnvFile
  lines : List Text → EnvFile

-- How the server ends: it cannot listen, or a signal comes and `Shutdown` gives an error or none.
pub data Ending : Type 0 where
  listen_failed : Ending
  signalled : Bool → Ending

-- What the calls of `serve` answer: whether `Open`, `New` of the box and `SeedDev` fail.
pub record Startup : Type 0 where
  pub open_fails : Bool
  pub box_fails : Bool
  pub seed_fails : Bool
  pub ending : Ending

-- `context_made` is `NotifyContext`, whose context a signal ends, as does the deferred `stop`; the
-- server has failed when `ListenAndServe` has returned.
pub data Step : Type 0 where
  context_made store_opened seeded hub_made daily_started cleanup_started listening : Step
  signal_came server_failed hub_closed shut_down store_closed context_ended : Step

-- The steps, and whether `serve` returns an error.
abbrev pub Trace : Type 0
Trace = List Step × Bool

unfoldable pub ended : Ending → Trace
ended listen_failed = (server_failed ∷ hub_closed ∷ [], true)
ended (signalled error) = (signal_came ∷ hub_closed ∷ shut_down ∷ [], error)

unfoldable pub live : Startup → Trace
unfolding ended
live u =
    let r = ended u.ending in (hub_made ∷ daily_started ∷ cleanup_started ∷ listening ∷ r.0, r.1)

unfoldable pub after_seed : Bool → Startup → Trace
unfolding live
after_seed true u = ([], true)
after_seed false u = let r = live u in (seeded ∷ r.0, r.1)

-- Once the database is open.
unfoldable pub opened : Config → Startup → Trace
unfolding after_seed live
opened c u = if u.box_fails then ([], true) else if c.dev then after_seed u.seed_fails u else live u

-- Whether `Open` has failed; the deferred `Close` of the store is last.
unfoldable pub after_open : Bool → Config → Startup → Trace
unfolding opened
after_open true c u = ([], true)
after_open false c u = let r = opened c u in (store_opened ∷ (r.0 ++ (store_closed ∷ [])), r.1)

-- `serve`, with the deferred `stop` last.
unfoldable pub serve : Config → Startup → Trace
unfolding after_open
serve c u =
    let r = after_open u.open_fails c u in (context_made ∷ (r.0 ++ (context_ended ∷ [])), r.1)

-- The port of an address, and the status of a GET, if there is one.
pub record Network : Type 0 where
  pub port : Text → Option Text
  pub get : Text → Option ℕ

abbrev pub probed : Option ℕ → Bool
probed none = true
probed (some status) = not (status == 200)

-- `healthcheck`: whether it fails.
unfoldable pub healthcheck_fails : Network → Environment → Bool
unfolding getenv text_eq
healthcheck_fails net env =
    let addr = getenv env (text "ADDR") in
    elim (net.port (if text_eq addr [] then text ":8000" else addr)) [
      | none ↦ true
      | some port ↦ probed (net.get (text "http://127.0.0.1:" ++ port ++ text "/healthz"))
    ]

unfoldable pub configured : (Config → Trace) → Loaded → Trace
configured f (loaded c) = f c
configured f x = ([], true)

-- `withConfig`
unfoldable pub with_config : Std → Environment → EnvFile → (Config → Trace) → Trace
unfolding configured from_env load_dotenv
with_config std env unreadable f = ([], true)
with_config std env no_file f = configured f (from_env std env)
with_config std env (lines ls) f =
    let r = load_dotenv env ls in
    elim r.1 [ true ↦ configured f (from_env std r.0) | false ↦ ([], true) ]

-- What a run of the binary does: its exit status, its output, the disk after it, and the steps.
pub record Run : Type 0 where
  pub exit_status : ℕ
  pub output : Text
  pub disk : Disk
  pub steps : List Step

abbrev pub exit_of : Bool → ℕ
exit_of true = 1
exit_of false = 0

abbrev pub has_failed : Outcome → Bool
has_failed succeeded = false
has_failed (failed x) = true

pub record Machine : Type 0 where
  pub std : Std
  pub network : Network
  pub system : System
  pub env_file : EnvFile
  pub startup : Startup

unfoldable pub execute : Machine → Environment → Disk → Command → Run
unfolding healthcheck_fails with_config serve backup
execute m env d healthcheck = record {
  exit_status = exit_of (healthcheck_fails m.network env);
  output = [];
  disk = d;
  steps = [];
}
execute m env d (backup_to target) =
    let r = backup m.system (getenv env (text "SQLITE_PATH")) target d in
    record { exit_status = exit_of (has_failed r.0); output = r.1; disk = r.2; steps = [] }
execute m env d serving =
    let r = with_config m.std env m.env_file (λ c. serve c m.startup) in
    record { exit_status = exit_of r.1; output = []; disk = d; steps = r.0 }
execute m env d usage = record { exit_status = 1; output = []; disk = d; steps = [] }

-- `main`
unfoldable pub main : Machine → Environment → List Text → Disk → Run
unfolding execute command
main m env args d = execute m env d (command args)
