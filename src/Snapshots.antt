-- ===== src/Snapshots.antt =====
-- `Snapshot` of internal/store/snapshot.go and `backup` of cmd/server/main.go, over the files. SQLite
-- and what else may fail of the system are parameters.
pub mod Copies
pub mod Streamed
use chzzk_djclass_chat.Base.{
  ℕ, take, Bool, true, false, ◌&&◌, Option, none, some, List, [], ◌∷◌, ◌++◌, if◌then◌else◌,
}
use chzzk_djclass_chat.Base.Text.{Text, text, text_eq, has_prefix}

-- The contents of the files.
abbrev pub Disk : Type 0
Disk = Text → Option Text

-- The result of `PRAGMA integrity_check`, or the error of the query.
pub data Check : Type 0 where
  reported : Text → Check
  unreadable : Text → Check

-- What is used of SQLite and of `os`. An error is its text. `stat_works` says of which files `Stat`
-- tells that they exist; `vacuum_into` gives the disk after the statement, with its error; and
-- `copy_error` how much has been written when a write fails.
pub record System : Type 0 where
  pub stat_works : Text → Bool
  pub open_error : Text → Option Text
  pub vacuum_into : Text → Text → Disk → Disk × Option Text
  pub integrity_check : Option Text → Check
  pub remove_works : Text → Bool
  pub temporary : Option Text
  pub read_error : Text → Option Text
  pub copy_error : Option (ℕ × Text)

pub data Failure : Type 0 where
  exists : Text → Failure
  not_opened : Text → Failure
  not_copied : Text → Failure
  not_checked : Text → Failure
  damaged : Text → Failure
  no_directory : Failure
  not_read : Text → Failure

pub data Outcome : Type 0 where
  succeeded : Outcome
  failed : Failure → Outcome

unfoldable pub remove : Text → Disk → Disk
remove p d q = if text_eq p q then none else d q

abbrev pub is_file : Option Text → Bool
is_file none = false
is_file (some content) = true

module _ (sys : System) where
  -- The deferred removal of the copy.
  unfoldable pub removed : Text → Failure → Disk → Outcome × Disk
  unfolding remove
  removed dst x d = (failed x, if sys.remove_works dst then remove dst d else d)

  unfoldable pub checked : Text → Check → Disk → Outcome × Disk
  unfolding removed text_eq
  checked dst (unreadable cause) d = removed dst (not_checked cause) d
  checked dst (reported result) d =
      if text_eq result (text "ok") then (succeeded, d) else removed dst (damaged result) d

  -- Once the copy is written.
  unfoldable pub copied : Text → Disk × Option Text → Outcome × Disk
  unfolding checked
  copied dst (d, some cause) = (failed (not_copied cause), d)
  copied dst (d, none) = elim (sys.open_error dst) [
    | some cause ↦ removed dst (not_opened cause) d
    | none ↦ checked dst (sys.integrity_check (d dst)) d
  ]

  unfoldable pub opened : Text → Text → Option Text → Disk → Outcome × Disk
  unfolding copied
  opened src dst (some cause) d = (failed (not_opened cause), d)
  opened src dst none d = copied dst (sys.vacuum_into src dst d)

  -- `Snapshot`
  unfoldable pub snapshot : Text → Text → Disk → Outcome × Disk
  unfolding opened
  snapshot src dst d =
      if is_file (d dst) && sys.stat_works dst
      then (failed (exists dst), d)
      else opened src dst (sys.open_error src) d

  -- `os.RemoveAll` of a directory: nothing is left under it.
  unfoldable pub remove_all : Text → Disk → Disk
  unfolding has_prefix
  remove_all dir d q = if has_prefix q (dir ++ text "/") then none else d q

  -- What is left of `backup` once the copy is made: `f` is the file, if it can be opened. The text is
  -- what has been written to the standard output.
  unfoldable pub streamed : Text → Option Text → Outcome × Text
  streamed tmp none = (failed (not_read tmp), [])
  streamed tmp (some content) = elim sys.copy_error [
    | none ↦ (succeeded, content)
    | some (n, cause) ↦ (failed (not_read cause), take n content)
  ]

  unfoldable pub sent : Text → Outcome × Disk → Outcome × Text
  unfolding streamed
  sent tmp (failed x, d) = (failed x, [])
  sent tmp (succeeded, d) = elim (sys.read_error tmp) [
    | some cause ↦ (failed (not_read cause), [])
    | none ↦ streamed tmp (d tmp)
  ]

  -- `backup` to the standard output: the outcome, what is written, and the disk.
  unfoldable pub backup_stream : Text → Option Text → Disk → Outcome × Text × Disk
  unfolding snapshot sent remove_all
  backup_stream src none d = (failed no_directory, [], d)
  backup_stream src (some dir) d =
      let tmp = dir ++ text "/snapshot.sqlite3" in
      let r = snapshot src tmp d in let s = sent tmp r in (s.0, s.1, remove_all dir r.1)

  abbrev pub database : Text → Text
  database path = if text_eq path [] then text "djclass.sqlite3" else path

  -- `backup`, with the value of SQLITE_PATH.
  unfoldable pub backup : Text → Text → Disk → Outcome × Text × Disk
  unfolding backup_stream
  backup path target d =
      if text_eq target (text "-")
      then backup_stream (database path) sys.temporary d
      else (let r = snapshot (database path) target d in (r.0, [], r.1))
