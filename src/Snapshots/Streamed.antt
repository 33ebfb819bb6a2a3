-- ===== src/Snapshots/Streamed.antt =====
-- What `backup` of cmd/server/main.go writes to the standard output, and leaves on the disk.
use chzzk_djclass_chat.Base.{
  ℕ, ◌≡◌, ◌≢◌, refl, ap, sym, ◌∙◌, inl, inr, true, false, Option, none, some, [], ◌∷◌, ◌++◌, take,
  Bool-cases, Option-cases, ==_iff,
}
use chzzk_djclass_chat.Base.Text.{Text, text, text_eq, has_prefix}
use chzzk_djclass_chat.Snapshots.{
  Disk, System, reported, Failure, Outcome, succeeded, failed, no_directory, not_read, snapshot,
  sent, streamed, remove_all, backup_stream, backup, database,
}
use chzzk_djclass_chat.Snapshots.Copies.{
  Elsewhere, Ended, refused, half_way, taken_back, written, snapshot-IsLeft,
}

-- What is written: a copy that has passed the integrity check; or, after a failure, a part of one,
-- or nothing.
pub data Written (sys : System) (o : Outcome) (out : Text) : Type 0 where
  whole : o ≡ succeeded → sys.integrity_check (some out) ≡ reported (text "ok") → Written sys o out
  cut_off :
      (x : Failure) (n : ℕ) (content : Text)
      → o ≡ failed x
      → out ≡ take n content
      → sys.integrity_check (some content) ≡ reported (text "ok")
      → Written sys o out
  nothing : (x : Failure) → o ≡ failed x → out ≡ [] → Written sys o out

pub record IsStreamed (sys : System) (d : Disk) (r : Outcome × Text × Disk) : Type 0 where
  pub output : Written sys r.0 r.1
  pub disk_same : (q : Text) → r.2 q ≡ d q

has_prefix-append : (s t u : Text) → has_prefix (s ++ t) (s ++ u) ≡ has_prefix t u
unfolding has_prefix
has_prefix-append [] t u = refl
has_prefix-append (c ∷ s) t u = rw ((==_iff c c).1 refl) (has_prefix-append s t u)

apart : true ≢ false
apart e = cc

module _ (sys : System) where
  streamed-Written :
      (tmp : Text) (o : Option Text)
      → sys.integrity_check o ≡ reported (text "ok")
      → Written sys (streamed sys tmp o).0 (streamed sys tmp o).1
  unfolding streamed
  streamed-Written tmp none h = nothing (not_read tmp) refl refl
  streamed-Written tmp (some content) h = elim (Option-cases sys.copy_error) [
    | inl e ↦ rw (e, streamed) (whole refl h)
    | inr ((n, cause), e) ↦ rw (e, streamed) (cut_off (not_read cause) n content refl refl h)
  ]

  sent-Written :
      (tmp : Text) (d : Disk) (r : Outcome × Disk)
      → Ended sys tmp d r
      → Written sys (sent sys tmp r).0 (sent sys tmp r).1
  unfolding sent
  sent-Written tmp d (failed x, e) h = nothing x refl refl
  sent-Written tmp d (succeeded, e) (written s n i) = elim (Option-cases (sys.read_error tmp)) [
    | inl f ↦ rw (f, sent) (streamed-Written tmp (e tmp) i)
    | inr (cause, f) ↦ rw (f, sent) (nothing (not_read cause) refl refl)
  ]
  sent-Written tmp d (succeeded, e) (refused x s k) = cc
  sent-Written tmp d (succeeded, e) (half_way cause s n) = cc
  sent-Written tmp d (succeeded, e) (taken_back x s k n) = cc

  swept :
      (dir name : Text) (d e : Disk)
      → ((q : Text) → has_prefix q (dir ++ text "/") ≡ true → d q ≡ none)
      → Elsewhere (dir ++ (text "/" ++ name)) d e
      → (q : Text) → remove_all sys dir e q ≡ d q
  unfolding remove_all has_prefix
  swept dir name d e fresh h q = elim (Bool-cases (has_prefix q (dir ++ text "/"))) [
    | inl p ↦ rw (p, remove_all) (sym (fresh q p))
    | inr p ↦
        rw (p, remove_all)
          (h q (λ s. apart (
            sym (has_prefix-append dir (text "/" ++ name) (text "/"))
            ∙ ap (λ t. has_prefix t (dir ++ text "/")) s
            ∙ p)))
  ]

stream-IsStreamed :
    (sys : System) (src : Text) (d : Disk)
    → ((p : Text) → sys.remove_works p ≡ true)
    → ((p : Text) → sys.stat_works p ≡ true)
    → ((src dst : Text) → Elsewhere dst d (sys.vacuum_into src dst d).0)
    → (o : Option Text)
    → ((dir : Text)
        → o ≡ some dir
        → (q : Text) → has_prefix q (dir ++ text "/") ≡ true
        → d q ≡ none)
    → IsStreamed sys d (backup_stream sys src o d)
unfolding backup_stream
stream-IsStreamed sys src d removable visible writes none fresh = record {
  output = nothing no_directory refl refl;
  disk_same = λ q. refl;
}
stream-IsStreamed sys src d removable visible writes (some dir) fresh =
    let tmp = dir ++ text "/snapshot.sqlite3" in
    let t = snapshot-IsLeft sys removable visible src tmp d (writes src tmp) in
    record {
      output = sent-Written sys tmp d (snapshot sys src tmp d) t.ended;
      disk_same =
          swept sys dir (text "snapshot.sqlite3") d (snapshot sys src tmp d).1 (fresh dir refl)
            t.elsewhere;
    }

-- Where files can be seen and removed, nothing is yet under a temporary directory, and SQLite writes
-- to the target alone: a backup to the standard output leaves every file as it was. It writes a copy
-- that has passed the integrity check; or it fails, and has written a part of one or nothing.
pub backup-IsStreamed :
    (sys : System) (path : Text) (d : Disk)
    → ((p : Text) → sys.remove_works p ≡ true)
    → ((p : Text) → sys.stat_works p ≡ true)
    → ((dir : Text)
        → sys.temporary ≡ some dir
        → (q : Text) → has_prefix q (dir ++ text "/") ≡ true
        → d q ≡ none)
    → ((src dst : Text) → Elsewhere dst d (sys.vacuum_into src dst d).0)
    → IsStreamed sys d (backup sys path (text "-") d)
unfolding backup text_eq
backup-IsStreamed sys path d removable visible fresh writes =
    stream-IsStreamed sys (database sys path) d removable visible writes sys.temporary fresh
