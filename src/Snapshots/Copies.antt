-- ===== src/Snapshots/Copies.antt =====
-- What `Snapshot` of internal/store/snapshot.go leaves on the disk.
use chzzk_djclass_chat.Base.{
  ◌≡◌, ◌≢◌, refl, ap, ◌∙◌, inl, inr, true, Option, none, some, arith, Bool-cases, Option-cases,
  subst, sym, ◌⊎◌,
}
use mathlib.Core.Option.{some-injective}
use chzzk_djclass_chat.Base.Text.{Text, text, text_eq, text_eq_iff, text_eq_refl}
use chzzk_djclass_chat.Snapshots.{
  Disk, System, Check, reported, unreadable, Failure, Outcome, succeeded, failed, not_copied,
  remove, removed, checked, copied, opened, snapshot, exists, not_opened, damaged, not_checked,
}

-- Two disks that differ at most in one file.
abbrev pub Elsewhere : Text → Disk → Disk → Type 0
Elsewhere p d e = (q : Text) → p ≢ q → e q ≡ d q

-- How a snapshot ends: the target was there, and is as it was; the database could not be opened or
-- copied; the copy was removed; or it is there and SQLite has found it sound.
pub data Ended (sys : System) (dst : Text) (d : Disk) (r : Outcome × Disk) : Type 0 where
  refused : (x : Failure) → r.0 ≡ failed x → r.1 ≡ d → Ended sys dst d r
  half_way : (cause : Text) → r.0 ≡ failed (not_copied cause) → d dst ≡ none → Ended sys dst d r
  taken_back : (x : Failure) → r.0 ≡ failed x → r.1 dst ≡ none → d dst ≡ none → Ended sys dst d r
  written :
      r.0 ≡ succeeded
      → d dst ≡ none
      → sys.integrity_check (r.1 dst) ≡ reported (text "ok")
      → Ended sys dst d r

pub record IsLeft (sys : System) (dst : Text) (d : Disk) (r : Outcome × Disk) : Type 0 where
  pub ended : Ended sys dst d r
  pub elsewhere : Elsewhere dst d r.1

-- The snapshot has failed, and there is no target.
abbrev pub Discarded : Text → Outcome × Disk → Type 0
Discarded dst r = (x : Failure) × (r.0 ≡ failed x) × (r.1 dst ≡ none)

-- How a snapshot goes, by what is there and what SQLite answers.
pub record IsTaken (sys : System) (src dst : Text) (d : Disk) (r : Outcome × Disk) : Type 0 where
  pub kept : (content : Text) → d dst ≡ some content → r ≡ (failed (exists dst), d)
  pub unopened :
      (cause : Text)
      → d dst ≡ none
      → sys.open_error src ≡ some cause
      → r ≡ (failed (not_opened cause), d)
  pub uncopied :
      (cause : Text)
      → d dst ≡ none
      → sys.open_error src ≡ none
      → (sys.vacuum_into src dst d).1 ≡ some cause
      → r ≡ (failed (not_copied cause), (sys.vacuum_into src dst d).0)
  pub whole :
      d dst ≡ none
      → sys.open_error src ≡ none
      → (sys.vacuum_into src dst d).1 ≡ none
      → sys.open_error dst ≡ none
      → sys.integrity_check ((sys.vacuum_into src dst d).0 dst) ≡ reported (text "ok")
      → r ≡ (succeeded, (sys.vacuum_into src dst d).0)
  pub discarded :
      d dst ≡ none
      → sys.open_error src ≡ none
      → (sys.vacuum_into src dst d).1 ≡ none
      → (sys.open_error dst ≢ none)
        ⊎ (sys.integrity_check ((sys.vacuum_into src dst d).0 dst) ≢ reported (text "ok"))
      → Discarded dst r
  pub elsewhere : Elsewhere dst d r.1

remove-Elsewhere : (p : Text) (d : Disk) → Elsewhere p d (remove p d)
unfolding remove
remove-Elsewhere p d q n = ground (arith, text_eq_iff p q)

module _ (sys : System) (removable : (p : Text) → sys.remove_works p ≡ true)
    (visible : (p : Text) → sys.stat_works p ≡ true) where
  removed-IsLeft :
      (dst : Text) (x : Failure) (d e : Disk)
      → d dst ≡ none
      → Elsewhere dst d e
      → IsLeft sys dst d (removed sys dst x e)
  unfolding removed
  removed-IsLeft dst x d e n h = rw (removable dst) (record {
    ended = taken_back x refl gone n;
    elsewhere = λ q m. remove-Elsewhere dst e q m ∙ h q m;
  })
    where
      gone : remove dst e dst ≡ none
      gone = unfold remove in rw (text_eq_refl dst) refl

  checked-IsLeft :
      (dst : Text) (c : Check) (d e : Disk)
      → sys.integrity_check (e dst) ≡ c
      → d dst ≡ none
      → Elsewhere dst d e
      → IsLeft sys dst d (checked sys dst c e)
  unfolding checked
  checked-IsLeft dst (unreadable cause) d e f n h = removed-IsLeft dst (not_checked cause) d e n h
  checked-IsLeft dst (reported result) d e f n h = elim (Bool-cases (text_eq result (text "ok"))) [
    | inl s ↦
        rw (s, checked)
          (record {
            ended = written refl n (f ∙ ap reported ((text_eq_iff result (text "ok")).0 s));
            elsewhere = h;
          })
    | inr s ↦ rw (s, checked) (removed-IsLeft dst (damaged result) d e n h)
  ]

  copied-IsLeft :
      (dst : Text) (d : Disk) (r : Disk × Option Text)
      → d dst ≡ none
      → Elsewhere dst d r.0
      → IsLeft sys dst d (copied sys dst r)
  unfolding copied
  copied-IsLeft dst d (e, some cause) n h = record { ended = half_way cause refl n; elsewhere = h }
  copied-IsLeft dst d (e, none) n h = elim (Option-cases (sys.open_error dst)) [
    | inl o ↦ rw (o, copied) (checked-IsLeft dst (sys.integrity_check (e dst)) d e refl n h)
    | inr (cause, o) ↦ rw (o, copied) (removed-IsLeft dst (not_opened cause) d e n h)
  ]

  opened-IsLeft :
      (src dst : Text) (o : Option Text) (d : Disk)
      → d dst ≡ none
      → Elsewhere dst d (sys.vacuum_into src dst d).0
      → IsLeft sys dst d (opened sys src dst o d)
  unfolding opened
  opened-IsLeft src dst (some cause) d n h = record {
    ended = refused (not_opened cause) refl refl;
    elsewhere = λ q m. refl;
  }
  opened-IsLeft src dst none d n h = copied-IsLeft dst d (sys.vacuum_into src dst d) n h

  -- A snapshot changes no file but its target, and ends in one of the ways.
  pub snapshot-IsLeft :
      (src dst : Text) (d : Disk)
      → Elsewhere dst d (sys.vacuum_into src dst d).0
      → IsLeft sys dst d (snapshot sys src dst d)
  unfolding snapshot
  snapshot-IsLeft src dst d h = elim (Option-cases (d dst)) [
    | inl n ↦ rw (n, snapshot) (opened-IsLeft src dst (sys.open_error src) d n h)
    | inr (content, n) ↦
        rw (n, visible dst, snapshot)
          (record { ended = refused (exists dst) refl refl; elsewhere = λ q m. refl })
  ]

  opened-copied :
      (src dst : Text) (d : Disk)
      → d dst ≡ none
      → sys.open_error src ≡ none
      → snapshot sys src dst d ≡ copied sys dst (sys.vacuum_into src dst d)
  unfolding snapshot opened
  opened-copied src dst d n o = rw (n, o, snapshot, opened) refl

  copied-not :
      (dst cause : Text) (r : Disk × Option Text)
      → r.1 ≡ some cause
      → copied sys dst r ≡ (failed (not_copied cause), r.0)
  unfolding copied
  copied-not dst cause (e, some c) v =
      ap (λ t. (failed (not_copied t), e)) (some-injective c cause v)
  copied-not dst cause (e, none) v = cc

  copied-whole :
      (dst : Text) (r : Disk × Option Text)
      → r.1 ≡ none
      → sys.open_error dst ≡ none
      → sys.integrity_check (r.0 dst) ≡ reported (text "ok")
      → copied sys dst r ≡ (succeeded, r.0)
  unfolding copied checked text_eq
  copied-whole dst (e, some c) v o i = cc
  copied-whole dst (e, none) v o i = rw (o, copied) (rw (i, checked) refl)

  removed-Discarded : (dst : Text) (x : Failure) (e : Disk) → Discarded dst (removed sys dst x e)
  unfolding removed remove
  removed-Discarded dst x e = rw (removable dst) (x, refl, rw (text_eq_refl dst) refl)

  checked-Discarded :
      (dst : Text) (c : Check) (e : Disk)
      → c ≢ reported (text "ok")
      → Discarded dst (checked sys dst c e)
  unfolding checked
  checked-Discarded dst (unreadable cause) e n = removed-Discarded dst (not_checked cause) e
  checked-Discarded dst (reported result) e n = elim (Bool-cases (text_eq result (text "ok"))) [
    | inl s ↦ absurd (n (ap reported ((text_eq_iff result (text "ok")).0 s)))
    | inr s ↦ rw (s, checked) (removed-Discarded dst (damaged result) e)
  ]

  copied-Discarded :
      (dst : Text) (r : Disk × Option Text)
      → r.1 ≡ none
      → (sys.open_error dst ≢ none) ⊎ (sys.integrity_check (r.0 dst) ≢ reported (text "ok"))
      → Discarded dst (copied sys dst r)
  unfolding copied
  copied-Discarded dst (e, some c) v n = cc
  copied-Discarded dst (e, none) v n = elim (Option-cases (sys.open_error dst)) [
    | inr (cause, o) ↦ rw (o, copied) (removed-Discarded dst (not_opened cause) e)
    | inl o ↦
        rw (o, copied)
          (elim n [
            | inl m ↦ absurd (m o)
            | inr m ↦ checked-Discarded dst (sys.integrity_check (e dst)) e m
          ])
  ]

  -- Where files can be seen and removed, and SQLite writes to the target alone: a snapshot changes no
  -- file but its target. If the target is there, or else if the database cannot be opened, it fails
  -- and no file has changed; if SQLite cannot write the copy, it fails with what SQLite has left. A
  -- copy that can be opened and passes the integrity check is the target, and the snapshot succeeds;
  -- any other copy is removed, and it fails.
  pub snapshot-IsTaken :
      (src dst : Text) (d : Disk)
      → Elsewhere dst d (sys.vacuum_into src dst d).0
      → IsTaken sys src dst d (snapshot sys src dst d)
  unfolding snapshot opened
  snapshot-IsTaken src dst d h = record {
    kept = λ content n. rw (n, visible dst, snapshot) refl;
    unopened = λ cause n o. rw (n, o, snapshot, opened) refl;
    uncopied = λ cause n o v.
        opened-copied src dst d n o ∙ copied-not dst cause (sys.vacuum_into src dst d) v;
    whole = λ n o v p i.
        opened-copied src dst d n o ∙ copied-whole dst (sys.vacuum_into src dst d) v p i;
    discarded = λ n o v b.
        subst (Discarded dst) (sym (opened-copied src dst d n o))
          (copied-Discarded dst (sys.vacuum_into src dst d) v b);
    elsewhere = (snapshot-IsLeft src dst d h).elsewhere;
  }
