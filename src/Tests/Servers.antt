-- ===== src/Tests/Servers.antt =====
-- Runs of the binary of cmd/server/main.go.
use chzzk_djclass_chat.Base.{
  ◌≡◌, ◌≢◌, refl, ap, sym, ◌∙◌, inl, inr, arith, Bool-cases, true, false, Option, none, some, [],
  ◌∷◌, ◌++◌, if◌then◌else◌,
}
use mathlib.Core.Option.{some-injective}
use chzzk_djclass_chat.Base.Text.{Text, text, text_eq, text_eq_iff, has_prefix}
use chzzk_djclass_chat.Snapshots.{
  System, Disk, reported, snapshot, backup, succeeded, failed, exists,
}
use chzzk_djclass_chat.Snapshots.Copies.{Elsewhere, IsTaken, snapshot-IsTaken}
use chzzk_djclass_chat.Snapshots.Streamed.{IsStreamed, backup-IsStreamed}
use chzzk_djclass_chat.Server.{
  Machine, no_file, signalled, main, context_made, hub_made, signal_came, context_ended,
  store_opened, daily_started, cleanup_started, listening, hub_closed, shut_down, store_closed,
}
use chzzk_djclass_chat.Server.Lives.{IsOrderly, ReadDev, main-IsOrderly}
use chzzk_djclass_chat.Tests.Startup.{std, env}

-- The copy of a database is its contents.
abbrev vacuum : Text → Text → Disk → Disk × Option Text
vacuum src dst d = ((λ q. if text_eq dst q then d src else d q), none)

abbrev system : System
system = record {
  stat_works = λ p. true;
  open_error = λ p. none;
  vacuum_into = vacuum;
  integrity_check = λ content. elim content [
    | none ↦ reported (text "empty")
    | some c ↦ reported (if text_eq c (text "db") then text "ok" else text "damaged")
  ];
  remove_works = λ p. true;
  temporary = some (text "tmp");
  read_error = λ p. none;
  copy_error = none;
}

abbrev disk : Disk
disk q =
    if text_eq q (text "djclass.sqlite3")
    then some (text "db")
    else if text_eq q (text "bad")
    then some (text "x")
    else none

vacuum-Elsewhere : (src dst : Text) → Elsewhere dst disk (vacuum src dst disk).0
vacuum-Elsewhere src dst q n = rw (differs dst q n) refl
  where
    differs : (p r : Text) → p ≢ r → text_eq p r ≡ false
    differs p r m = ground (arith, text_eq_iff p r)

taken : (snapshot system (text "djclass.sqlite3") (text "copy") disk).0 ≡ succeeded
unfolding snapshot
taken = refl

taken_back : (snapshot system (text "bad") (text "copy") disk).1 (text "copy") ≡ none
unfolding snapshot
taken_back = refl

never_over :
    (snapshot system (text "djclass.sqlite3") (text "bad") disk).0 ≡ failed (exists (text "bad"))
unfolding snapshot
never_over = refl

piped : (backup system [] (text "-") disk).1 ≡ text "db"
unfolding backup
piped = refl

snapshot-IsTaken_example :
    IsTaken system
      (text "djclass.sqlite3")
      (text "copy")
      disk
      (snapshot system (text "djclass.sqlite3") (text "copy") disk)
snapshot-IsTaken_example =
    snapshot-IsTaken system (λ p. refl) (λ p. refl) (text "djclass.sqlite3") (text "copy") disk
      (vacuum-Elsewhere (text "djclass.sqlite3") (text "copy"))

true-false : true ≢ false
true-false e = cc

-- A file that is there is none of the temporary ones.
other_name :
    (q name : Text)
    → has_prefix name (text "tmp/") ≡ false
    → has_prefix q (text "tmp/") ≡ true
    → text_eq q name ≡ false
other_name q name n h = elim (Bool-cases (text_eq q name)) [
  | inr e ↦ e
  | inl e ↦
      absurd
        (true-false (sym h ∙ ap (λ t. has_prefix t (text "tmp/")) ((text_eq_iff q name).0 e) ∙ n))
]

fresh :
    (dir : Text)
    → system.temporary ≡ some dir
    → (q : Text) → has_prefix q (dir ++ text "/") ≡ true
    → disk q ≡ none
unfolding has_prefix
fresh dir e q h =
    let in_tmp : has_prefix q (text "tmp/") ≡ true =
      ap (λ t. has_prefix q (t ++ text "/")) (some-injective (text "tmp") dir e) ∙ h in
    rw (other_name q (text "djclass.sqlite3") refl in_tmp, other_name q (text "bad") refl in_tmp)
      refl

backup-IsStreamed_example : IsStreamed system disk (backup system [] (text "-") disk)
backup-IsStreamed_example =
    backup-IsStreamed system [] disk (λ p. refl) (λ p. refl) fresh vacuum-Elsewhere

abbrev machine : Machine
machine = record {
  std = std;
  network = record { port = λ a. some (text "8000"); get = λ url. some 200 };
  system = system;
  env_file = no_file;
  startup = record {
    open_fails = false;
    box_fails = false;
    seed_fails = false;
    ending = signalled false;
  };
}

serves :
    (main machine env [] disk).steps
    ≡ context_made ∷ store_opened ∷ hub_made ∷ daily_started ∷ cleanup_started ∷ listening
      ∷ signal_came ∷ hub_closed ∷ shut_down ∷ store_closed ∷ context_ended ∷ []
unfolding main
serves = refl

healthy : (main machine env (text "healthcheck" ∷ []) disk).exit_status ≡ 0
unfolding main
healthy = refl

unknown : (main machine env (text "backup" ∷ []) disk).exit_status ≡ 1
unfolding main
unknown = refl

main-IsOrderly_example : IsOrderly (main machine env [] disk).steps (ReadDev std env)
main-IsOrderly_example = main-IsOrderly machine env [] disk
