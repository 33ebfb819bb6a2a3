-- ===== src/Server/Lives.antt =====
-- What a run of cmd/server/main.go starts, it also stops.
use chzzk_djclass_chat.Base.{
  not, ◌&&◌, ◌≡◌, ◌≢◌, refl, sym, ◌∙◌, inl, inr, Bool, true, false, Option, none, some, List, [],
  ◌∷◌, ◌++◌, Bool-cases,
}
use chzzk_djclass_chat.Base.Text.{Text}
use chzzk_djclass_chat.Config.{
  Config, Environment, Std, Loaded, loaded, bad_dev, bad_base_url, dev_not_local, missing, from_env,
}
use chzzk_djclass_chat.Config.Dotenv.{load_dotenv}
use chzzk_djclass_chat.Snapshots.{Disk}
use chzzk_djclass_chat.Server.{
  Command, healthcheck, backup_to, serving, usage, command, EnvFile, no_file, unreadable, lines,
  Ending, listen_failed, signalled, Startup, Step, context_made, store_opened, seeded, hub_made,
  daily_started, cleanup_started, listening, signal_came, server_failed, hub_closed, shut_down,
  store_closed, context_ended, Trace, ended, live, after_seed, opened, after_open, serve,
  configured, with_config, Machine, execute, main,
}

-- What is up: the context of the signals, the store, the hub, the two background loops, which are up
-- until their context ends, and the server, which is up until it has failed or been shut down.
pub record Up : Type 0 where
  pub context : Bool
  pub store : Bool
  pub hub : Bool
  pub daily : Bool
  pub cleanup : Bool
  pub server : Bool

abbrev pub nothing_up : Up
nothing_up = record {
  context = false;
  store = false;
  hub = false;
  daily = false;
  cleanup = false;
  server = false;
}

abbrev pub needs : Bool → Up → Option Up
needs true u = some u
needs false u = none

-- What is up after a step; `none` if something that the step needs is not up, or something that it
-- starts, or that uses what it stops, is.
abbrev pub advance : Up → Step → Option Up
advance u context_made = needs (not u.context) (record u { context = true })
advance u store_opened = needs (u.context && not u.store) (record u { store = true })
advance u seeded = needs u.store u
advance u hub_made = needs (u.store && not u.hub) (record u { hub = true })
advance u daily_started = needs (u.store && u.context && not u.daily) (record u { daily = true })
advance u cleanup_started =
    needs (u.store && u.context && not u.cleanup) (record u { cleanup = true })
advance u listening = needs (u.store && u.hub && not u.server) (record u { server = true })
advance u signal_came =
    needs (u.context && u.server) (record u { context = false; daily = false; cleanup = false })
advance u server_failed = needs u.server (record u { server = false })
advance u hub_closed = needs u.hub (record u { hub = false })
advance u shut_down = needs (u.server && not u.hub) (record u { server = false })
advance u store_closed = needs (u.store && not u.server && not u.hub) (record u { store = false })
advance u context_ended =
    needs (not u.store) (record u { context = false; daily = false; cleanup = false })

abbrev pub advance_all : List Step → Up → Option Up
advance_all [] u = some u
advance_all (s ∷ ss) u = elim (advance u s) [ none ↦ none | some v ↦ advance_all ss v ]

abbrev store_up : Up
store_up = record nothing_up { context = true; store = true }

-- What follows the opening of the store: the trace, and the two deferred calls.
abbrev to_end : Trace → List Step
to_end t = (t.0 ++ (store_closed ∷ [])) ++ (context_ended ∷ [])

abbrev Closes : Trace → Type 0
Closes t = advance_all (to_end t) store_up ≡ some nothing_up

live-Closes : (u : Startup) → Closes (live u)
unfolding ended live
live-Closes u = by_end u.ending
  where
    by_end :
        (e : Ending)
        → Closes (hub_made ∷ daily_started ∷ cleanup_started ∷ listening ∷ (ended e).0, (ended e).1)
    by_end listen_failed = refl
    by_end (signalled error) = refl

opened-Closes : (c : Config) (u : Startup) → Closes (opened c u)
unfolding opened after_seed
opened-Closes c u = elim (Bool-cases u.box_fails) [
  | inl b ↦ rw (b, opened) refl
  | inr b ↦ elim (Bool-cases c.dev) [
    | inr d ↦ rw (b, d, opened) (live-Closes u)
    | inl d ↦ elim (Bool-cases u.seed_fails) [
      | inl s ↦ rw (b, d, s, opened) refl
      | inr s ↦ rw (b, d, s, opened) (live-Closes u)
    ]
  ]
]

abbrev pub seeds : List Step → Bool
seeds [] = false
seeds (seeded ∷ ss) = true
seeds (s ∷ ss) = seeds ss

-- A trace that leaves nothing up.
pub record IsOrderly (t : List Step) (dev : Type 0) : Type 0 where
  pub closed : advance_all t nothing_up ≡ some nothing_up
  pub seeds_in_dev : seeds t ≡ true → dev

apart : true ≢ false
apart e = cc

live-seeds : (u : Startup) → seeds (to_end (live u)) ≡ false
unfolding ended live
live-seeds u = by_end u.ending
  where
    by_end : (e : Ending) → seeds (to_end (ended e)) ≡ false
    by_end listen_failed = refl
    by_end (signalled error) = refl

opened-seeds : (c : Config) (u : Startup) → c.dev ≡ false → seeds (to_end (opened c u)) ≡ false
unfolding opened
opened-seeds c u d = elim (Bool-cases u.box_fails) [
  | inl b ↦ rw (b, opened) refl
  | inr b ↦ rw (b, d, opened) (live-seeds u)
]

after_open-IsOrderly :
    (fails : Bool) (c : Config) (u : Startup)
    → IsOrderly (context_made ∷ ((after_open fails c u).0 ++ (context_ended ∷ []))) (c.dev ≡ true)
unfolding after_open
after_open-IsOrderly true c u = record { closed = refl; seeds_in_dev = λ h. cc }
after_open-IsOrderly false c u = record {
  closed = opened-Closes c u;
  seeds_in_dev = λ h. elim (Bool-cases c.dev) [
    | inl d ↦ d
    | inr d ↦ absurd (apart (sym h ∙ opened-seeds c u d))
  ];
}

serve-IsOrderly : (c : Config) (u : Startup) → IsOrderly (serve c u).0 (c.dev ≡ true)
unfolding serve
serve-IsOrderly c u = after_open-IsOrderly u.open_fails c u

-- The environment that the configuration is read from: that of the process, and then of the file.
abbrev pub environment : Environment → EnvFile → Environment
environment env no_file = env
environment env unreadable = env
environment env (lines ls) = (load_dotenv env ls).0

-- The configuration of the run is one for development.
pub record ReadDev (std : Std) (env : Environment) : Type 0 where
  pub config : Config
  pub read : from_env std env ≡ loaded config
  pub dev : config.dev ≡ true

configured-IsOrderly :
    (std : Std) (u : Startup) (env : Environment) (l : Loaded)
    → from_env std env ≡ l
    → IsOrderly (configured (λ c. serve c u) l).0 (ReadDev std env)
unfolding configured
configured-IsOrderly std u env (loaded c) e =
    let h = serve-IsOrderly c u in
    record {
      closed = h.closed;
      seeds_in_dev = λ s. record { config = c; read = e; dev = h.seeds_in_dev s };
    }
configured-IsOrderly std u env bad_dev e = record { closed = refl; seeds_in_dev = λ h. cc }
configured-IsOrderly std u env bad_base_url e = record { closed = refl; seeds_in_dev = λ h. cc }
configured-IsOrderly std u env dev_not_local e = record { closed = refl; seeds_in_dev = λ h. cc }
configured-IsOrderly std u env (missing names) e = record { closed = refl; seeds_in_dev = λ h. cc }

with_config-IsOrderly :
    (std : Std) (u : Startup) (env : Environment) (f : EnvFile)
    → IsOrderly (with_config std env f (λ c. serve c u)).0 (ReadDev std (environment env f))
unfolding with_config
with_config-IsOrderly std u env unreadable = record { closed = refl; seeds_in_dev = λ h. cc }
with_config-IsOrderly std u env no_file = configured-IsOrderly std u env (from_env std env) refl
with_config-IsOrderly std u env (lines ls) = elim (Bool-cases (load_dotenv env ls).1) [
  | inl r ↦ rw (r, with_config) (configured-IsOrderly std u (load_dotenv env ls).0 _ refl)
  | inr r ↦ rw (r, with_config) (record { closed = refl; seeds_in_dev = λ h. cc })
]

execute-IsOrderly :
    (m : Machine) (env : Environment) (d : Disk) (c : Command)
    → IsOrderly (execute m env d c).steps (ReadDev m.std (environment env m.env_file))
unfolding execute
execute-IsOrderly m env d healthcheck = record { closed = refl; seeds_in_dev = λ h. cc }
execute-IsOrderly m env d (backup_to target) = record { closed = refl; seeds_in_dev = λ h. cc }
execute-IsOrderly m env d serving = with_config-IsOrderly m.std m.startup env m.env_file
execute-IsOrderly m env d usage = record { closed = refl; seeds_in_dev = λ h. cc }

-- However a run of the binary goes: each step comes when what it needs is up, with the hub closed
-- before the server is shut down, and the server ended and the hub closed before the store is; at the
-- end nothing is up, the background loops and the store included; and the demo viewers are seeded
-- only if the configuration of the run is one for development.
pub main-IsOrderly :
    (m : Machine) (env : Environment) (args : List Text) (d : Disk)
    → IsOrderly (main m env args d).steps (ReadDev m.std (environment env m.env_file))
unfolding main
main-IsOrderly m env args d = execute-IsOrderly m env d (command args)
