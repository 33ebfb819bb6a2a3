-- ===== src/Link/Effect.antt =====
-- What an operation of internal/link/link.go that succeeds has done to the database.
use chzzk_djclass_chat.Base.{
  ℕ, ◌≡◌, refl, ap, ◌∙◌, ◌⊎◌, inl, inr, Bool, true, false, Option, none, some, List, [], ◌||◌,
  arith, Bool-cases,
}
use chzzk_djclass_chat.Base.Int.{ℤ}
use chzzk_djclass_chat.Base.Text.{Text, text, text_eq}
use chzzk_djclass_chat.Effects.{ok}
use chzzk_djclass_chat.Env.{Env, M, pure, ◌>>=◌, ◌>>◌, query, exec, write_tx, invalidate_user}
use chzzk_djclass_chat.Env.Laws.{continue-ok, exec-ok, write_tx-ok, invalidate-ok, query-ok}
use chzzk_djclass_chat.Link.{
  store_preferred, prefer_checked, prefer_parsed, set_preferred, has_class, parse_int,
}
use chzzk_djclass_chat.Store.{
  User, DjClass, Tables, set_preferred_button, write_preferred, list_dj_classes, active_link,
  delete_dj_classes, deactivate_link,
}

-- A transaction, and the drop of a badge, that both succeeded.
committed :
    {A : Type 0} (fn : Bool → M (Unit {0})) (k : Text) (b : A) (e : Env) (c : A)
    → ((write_tx false fn >>= λ _. invalidate_user k >> pure b) e).0 ≡ ok c
    → (g : Env) × (g.tables ≡ e.tables)
      × ((fn true g).0 ≡ ok tt)
      × (((write_tx false fn >>= λ _. invalidate_user k >> pure b) e).1.tables
          ≡ (fn true g).1.tables)
committed fn k b e c h =
    let (_, wrote, rest, end) = continue-ok (write_tx false fn e) _ c h in
    let (g, before, done, kept) = write_tx-ok fn e tt wrote in
    let w = (write_tx false fn e).1 in
    let (_, dropped, _, end') = continue-ok (invalidate_user k w) (λ _. pure b) c rest in
    (
      g,
      before,
      done,
      ap (λ x. x.tables) end ∙ ap (λ x. x.tables) end' ∙ invalidate-ok k w dropped ∙ kept,
    )

-- The rows that the transaction of `Unlink` leaves.
unlinked_tables : ℕ → Tables → Tables
unlinked_tables i t = record {
  users = write_preferred i none t.users;
  channels = t.channels;
  sessions = t.sessions;
  links = deactivate_link i t.links;
  classes = delete_dj_classes i t.classes;
}

-- The user has no active link; if there was one before, neither a stored class nor a preferred
-- button, and otherwise nothing has changed.
abbrev pub IsUnlinked : User → Tables → Tables → Type 0
IsUnlinked u t t' =
    (active_link u.id t'.links ≡ none)
    × (((active_link u.id t.links ≡ none) × (t' ≡ t))
        ⊎ ((list_dj_classes u.id t'.classes ≡ []) × (t'.users ≡ write_preferred u.id none t.users)))

-- What a successful `SetPreferredButton` has stored: nothing for "" and "auto", and otherwise the
-- number that was sent, which is the button of a class that the user has.
abbrev pub IsPreferred : User → Text → Tables → Option ℤ → Type 0
IsPreferred u raw t none = (text_eq raw [] || text_eq raw (text "auto")) ≡ true
IsPreferred u raw t (some b) =
    ((text_eq raw [] || text_eq raw (text "auto")) ≡ false)
    × (parse_int raw ≡ some b)
    × (has_class b (list_dj_classes u.id t.classes) ≡ true)

preferred_tables :
    (i : ℕ) (b : Option ℤ) (t u : Tables)
    → set_preferred_button i b t ≡ some u
    → u ≡ record t { users = write_preferred i b t.users }
unfolding set_preferred_button
preferred_tables i b t u h = ground arith

store_preferred-ok :
    (u : User) (b : Option ℤ) (e : Env)
    → (store_preferred u b e).0 ≡ ok tt
    → (store_preferred u b e).1.tables
      ≡ record e.tables { users = write_preferred u.id b e.tables.users }
unfolding store_preferred
store_preferred-ok u b e h =
    let (f, before, ran, after) =
      committed (λ ctx. exec (set_preferred_button u.id b)) u.chzzk_id tt e tt h in
    after
    ∙ preferred_tables u.id b f.tables _ (exec-ok (set_preferred_button u.id b) f ran)
    ∙ ap (λ (t : Tables). record t { users = write_preferred u.id b t.users }) before

prefer_checked-ok :
    (u : User) (b : ℤ) (rows : List DjClass) (g : Env)
    → (prefer_checked u b rows g).0 ≡ ok tt
    → (has_class b rows ≡ true)
      × ((prefer_checked u b rows g).1.tables
          ≡ record g.tables { users = write_preferred u.id (some b) g.tables.users })
unfolding prefer_checked
prefer_checked-ok u b rows g h = elim (Bool-cases (has_class b rows)) [
  | inl k ↦ (k, rw k (store_preferred-ok u (some b) g (rw k at h)))
  | inr k ↦ absurd (ground arith)
]

prefer_parsed-ok :
    (u : User) (o : Option ℤ) (e : Env)
    → (prefer_parsed u o e).0 ≡ ok tt
    → (b : ℤ) × (o ≡ some b)
      × (has_class b (list_dj_classes u.id e.tables.classes) ≡ true)
      × ((prefer_parsed u o e).1.tables
          ≡ record e.tables { users = write_preferred u.id (some b) e.tables.users })
unfolding prefer_parsed
prefer_parsed-ok u none e h = cc
prefer_parsed-ok u (some b) e h =
    let q : Tables → List DjClass = λ t. list_dj_classes u.id t.classes in
    let (rows, asked, rest, end) = continue-ok (query q e) (prefer_checked u b) tt h in
    let (answer, same) = query-ok q e rows asked in
    let (member, after) = prefer_checked-ok u b rows (query q e).1 rest in
    (
      b,
      refl,
      rw answer member,
      ap (λ x. x.tables) end
          ∙ after
          ∙ ap (λ (t : Tables). record t { users = write_preferred u.id (some b) t.users }) same,
    )

-- A successful `SetPreferredButton` has stored nothing for "" and "auto", and otherwise the number
-- that was sent, which is the button of a class that the user has. It has changed nothing else.
set_preferred-ok :
    (u : User) (raw : Text) (e : Env)
    → (set_preferred u raw e).0 ≡ ok tt
    → (b : Option ℤ) × IsPreferred u raw e.tables b
      × ((set_preferred u raw e).1.tables
          ≡ record e.tables { users = write_preferred u.id b e.tables.users })
unfolding set_preferred
set_preferred-ok u raw e h = elim (Bool-cases (text_eq raw [] || text_eq raw (text "auto"))) [
  | inl k ↦ (none, k, rw k (store_preferred-ok u none e (rw k at h)))
  | inr k ↦
      let (b, parsed, member, after) = prefer_parsed-ok u (parse_int raw) e (rw k at h) in
      (some b, (k, parsed, member), rw k after)
]
