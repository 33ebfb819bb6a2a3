-- ===== src/Link/Safety.antt =====
-- Each operation of internal/link/link.go keeps the badge cache coherent with the database, and a
-- failed one leaves the database as it was.
use chzzk_djclass_chat.Base.{
  ℕ, subst, ◌≡◌, ◌≢◌, refl, sym, ◌∙◌, ◌⊎◌, inl, inr, false, ◌||◌, Option, none, some, List, [], ◌∷◌,
  All, All-both, All-map, Bool-cases,
}
use chzzk_djclass_chat.Base.Int.{ℤ}
use chzzk_djclass_chat.Base.Text.{Text, text, text_eq}
use chzzk_djclass_chat.Effects.{Result, invalid_button, ok, err}
use chzzk_djclass_chat.Env.{Env, M, pure, ◌>>◌, continue, query, exec, write_tx, invalidate_user}
use chzzk_djclass_chat.Env.Laws.{Reads, query-Reads}
use chzzk_djclass_chat.Link.{
  VaClass, VArchive, replace_classes, sync_classes, unlink_rows, unlink_found, unlink,
  store_preferred, prefer_checked, prefer_parsed, set_preferred, has_class, parse_int, sync_linked,
  sync_user, sync,
}
use chzzk_djclass_chat.Link.Rows.{replace_classes-Confined, prefer-Only, unlink_rows-Confined}
use chzzk_djclass_chat.Link.Commits.{
  Only, Only-refl, same_truth, Committed, exec-Confined, write_tx-Committed,
}
use chzzk_djclass_chat.Resolver.Coherence.{Agrees, Coherent, Coherent-same}
use chzzk_djclass_chat.Store.{
  User, VarchiveLink, DjClass, Tables, set_preferred_button, list_dj_classes, active_link,
}
use chzzk_djclass_chat.Store.Frames.{idents, Foreign}
use chzzk_djclass_chat.TtlCache.Members.{All-erase, erase_no_key}
use chzzk_djclass_chat.TtlCache.Refines.{delete-erase_entry}
use chzzk_djclass_chat.TtlCache.Views.{entries, erase_entry}

-- The user's row has the Chzzk id that the caller's copy has.
abbrev pub Owns : Tables → User → Type 0
Owns t u = All (λ p. p.0 ≡ u.id → p.1 ≡ u.chzzk_id) (idents t.users)

pub owned-Foreign :
    (t : Tables) (u : User) (k : Text) → Owns t u → k ≢ u.chzzk_id → Foreign u.id k (idents t.users)
owned-Foreign t u k o other =
    All-map (λ p. p.0 ≡ u.id → p.1 ≡ u.chzzk_id) (λ p. p.1 ≡ k → p.0 ≢ u.id) (idents t.users)
      (λ p h e same. other (sym e ∙ h same)) o

-- A change of one user's rows leaves every user the ids.
pub Owns-kept : (u : User) (i : ℕ) (s t : Tables) → Only i s t → Owns s u → Owns t u
Owns-kept u i s t only o = subst (All (λ p. p.0 ≡ u.id → p.1 ≡ u.chzzk_id)) (sym only.same_idents) o

-- After a change of one user's rows, dropping that user's cached badge makes the cache coherent.
pub invalidate-Coherent :
    (u : User) (e g : Env)
    → Coherent e
    → Owns e.tables u
    → g.cache ≡ e.cache
    → Only u.id e.tables g.tables
    → (h : Env) × (invalidate_user u.chzzk_id g ≡ (ok tt, h)) × Coherent h × (h.tables ≡ g.tables)
unfolding invalidate_user
invalidate-Coherent u e g c o same only =
    let (d, gone, es, v, _) = delete-erase_entry e.cache u.chzzk_id c.cache_inv in
    (
      record g { cache = d },
      rw (same, gone, invalidate_user) refl,
      record {
        cache_inv = v;
        agree = rw es (
            All-both (Agrees e.tables) (λ x. x.key ≢ u.chzzk_id) (Agrees g.tables)
              (erase_entry u.chzzk_id (entries e.cache.order))
              (λ x a other.
                a
                ∙ sym (
                    same_truth u.id e.tables g.tables x.key only
                      (owned-Foreign e.tables u x.key o other)))
              (All-erase (Agrees e.tables) u.chzzk_id (entries e.cache.order) c.agree)
              (erase_no_key u.chzzk_id e.cache.order c.cache_inv.apart));
      },
      refl,
    )

-- A coherent environment in which the rows of user `i` alone have changed; after an error, none.
pub record Safe {A : Type 0} (i : ℕ) (e : Env) (r : Result A × Env) : Type 0 where
  pub coherent : Coherent r.1
  pub only : Only i e.tables r.1.tables
  pub rolled_back : ((a : A) × (r.0 ≡ ok a)) ⊎ (r.1.tables ≡ e.tables)

-- A transaction about one user, then the drop of that user's badge.
commit_then_invalidate :
    {A B : Type 0} (u : User) (e : Env) (r : Result A × Env) (b : B)
    → Coherent e
    → Owns e.tables u
    → Committed u.id e r
    → Safe u.id e (continue r.0 (λ _. invalidate_user u.chzzk_id >> pure b) r.1)
commit_then_invalidate u e (err x, g) b c o k = record {
  coherent = record {
    cache_inv = rw k.confined.cache_same c.cache_inv;
    agree = rw (k.confined.cache_same, k.rolled_back x refl) c.agree;
  };
  only = k.confined.only;
  rolled_back = inr (k.rolled_back x refl);
}
commit_then_invalidate u e (ok a, g) b c o k =
    let (h, done, coherent, same) =
      invalidate-Coherent u e g c o k.confined.cache_same k.confined.only in
    rw done (record {
      coherent = coherent;
      only = subst (Only u.id e.tables) (sym same) k.confined.only;
      rolled_back = inl (b, refl);
    })

-- A query before an operation.
after_query :
    {A B : Type 0} (i : ℕ) (e : Env) (r : Result A × Env) (a : A) (f : A → M B)
    → Coherent e
    → Reads e r a
    → ((g : Env) → Coherent g → g.tables ≡ e.tables → Safe i g (f a g))
    → Safe i e (continue r.0 f r.1)
after_query i e r a f c (inl h, same) k =
    let s = k r.1 (Coherent-same same c) same.tables_same in
    rw h (record {
      coherent = s.coherent;
      only = subst (λ t. Only i t (f a r.1).1.tables) same.tables_same s.only;
      rolled_back = elim s.rolled_back [
        | inl done ↦ inl done
        | inr kept ↦ inr (kept ∙ same.tables_same)
      ];
    })
after_query i e r a f c (inr h, same) k = rw h (record {
  coherent = Coherent-same same c;
  only = subst (Only i e.tables) (sym same.tables_same) (Only-refl i e.tables);
  rolled_back = inr same.tables_same;
})

unchanged : {A : Type 0} (i : ℕ) (e : Env) (r : Result A) → Coherent e → Safe i e (r, e)
unchanged i e r c = record { coherent = c; only = Only-refl i e.tables; rolled_back = inr refl }

module _ (u : User) where
  -- Storing fetched classes keeps the cache coherent with the tables and changes the rows of that
  -- user alone, for a user who has the Chzzk id of the caller's copy; if it fails the tables are
  -- as before.
  pub sync_classes-Safe :
      (classes : List VaClass) (e : Env)
      → Coherent e
      → Owns e.tables u
      → Safe u.id e (sync_classes u classes e)
  unfolding sync_classes
  sync_classes-Safe [] e c o =
      after_query u.id e (query (λ t. list_dj_classes u.id t.classes) e) _ _ c
        (query-Reads (λ t. list_dj_classes u.id t.classes) e) λ g c' same. unchanged u.id g _ c'
  sync_classes-Safe (x ∷ xs) e c o =
      commit_then_invalidate u e (write_tx false (replace_classes u.id (x ∷ xs)) e) _ c o (
        write_tx-Committed u.id (replace_classes u.id (x ∷ xs)) e
          (λ g. replace_classes-Confined u.id (x ∷ xs) g))

  unlink_found-Safe :
      (l : Option VarchiveLink) (e : Env)
      → Coherent e
      → Owns e.tables u
      → Safe u.id e (unlink_found u l e)
  unfolding unlink_found
  unlink_found-Safe none e c o = unchanged u.id e _ c
  unlink_found-Safe (some l) e c o =
      commit_then_invalidate u e (write_tx false (unlink_rows u.id) e) _ c o
        (write_tx-Committed u.id (unlink_rows u.id) e (λ g. unlink_rows-Confined u.id g))

  -- `Unlink` keeps the cache coherent with the tables and changes the rows of that user alone, for
  -- a user who has the Chzzk id of the caller's copy; if it fails the tables are as before.
  pub unlink-Safe : (e : Env) → Coherent e → Owns e.tables u → Safe u.id e (unlink u e)
  unfolding unlink
  unlink-Safe e c o =
      after_query u.id e (query (λ t. active_link u.id t.links) e) _ _ c
        (query-Reads (λ t. active_link u.id t.links) e)
        λ g c' same. unlink_found-Safe _ g c' (rw same o)

  store_preferred-Safe :
      (b : Option ℤ) (e : Env) → Coherent e → Owns e.tables u → Safe u.id e (store_preferred u b e)
  unfolding store_preferred
  store_preferred-Safe b e c o =
      commit_then_invalidate u e (write_tx false (λ ctx. exec (set_preferred_button u.id b)) e) _ c
        o
        (write_tx-Committed u.id (λ ctx. exec (set_preferred_button u.id b)) e
          (λ g. exec-Confined u.id (set_preferred_button u.id b) g (prefer-Only u.id b g.tables)))

  prefer_parsed-Safe :
      (b : Option ℤ) (e : Env) → Coherent e → Owns e.tables u → Safe u.id e (prefer_parsed u b e)
  unfolding prefer_parsed prefer_checked
  prefer_parsed-Safe none e c o = unchanged u.id e _ c
  prefer_parsed-Safe (some b) e c o =
      after_query u.id e (query (λ t. list_dj_classes u.id t.classes) e) _ _ c
        (query-Reads (λ t. list_dj_classes u.id t.classes) e) checked
    where
      rows : List DjClass
      rows = list_dj_classes u.id e.tables.classes

      checked :
          (g : Env) → Coherent g → g.tables ≡ e.tables → Safe u.id g (prefer_checked u b rows g)
      checked g c' same = elim (Bool-cases (has_class b rows)) [
        | inl h ↦ rw h (store_preferred-Safe (some b) g c' (rw same o))
        | inr h ↦ rw h (unchanged u.id g (err invalid_button) c')
      ]

  -- `SetPreferredButton` keeps the cache coherent with the tables and changes the rows of that
  -- user alone, for a user who has the Chzzk id of the caller's copy; if it fails the tables are
  -- as before.
  pub set_preferred-Safe :
      (raw : Text) (e : Env) → Coherent e → Owns e.tables u → Safe u.id e (set_preferred u raw e)
  unfolding set_preferred
  set_preferred-Safe raw e c o = elim (Bool-cases (text_eq raw [] || text_eq raw (text "auto"))) [
    | inl h ↦ rw h (store_preferred-Safe none e c o)
    | inr h ↦ rw h (prefer_parsed-Safe (parse_int raw) e c o)
  ]

  module _ (va : VArchive) where
    sync_linked-Safe :
        (l : Option VarchiveLink) (e : Env)
        → Coherent e
        → Owns e.tables u
        → Safe u.id e (sync_linked va u l e)
    unfolding sync_linked sync_user
    sync_linked-Safe none e c o = unchanged u.id e _ c
    sync_linked-Safe (some l) e c o =
        sync_classes-Safe (va.all_dj_classes l.varchive_nickname) e c o

    -- `Sync` keeps the cache coherent with the tables and changes the rows of that user alone, for
    -- a user who has the Chzzk id of the caller's copy; if it fails the tables are as before.
    pub sync-Safe : (e : Env) → Coherent e → Owns e.tables u → Safe u.id e (sync va u e)
    unfolding sync
    sync-Safe e c o =
        after_query u.id e (query (λ t. active_link u.id t.links) e) _ _ c
          (query-Reads (λ t. active_link u.id t.links) e)
          λ g c' same. sync_linked-Safe _ g c' (rw same o)
