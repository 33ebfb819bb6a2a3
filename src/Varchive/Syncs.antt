-- ===== src/Varchive/Syncs.antt =====
-- A sync of internal/link/link.go through the client of internal/varchive, when no call of the
-- database fails.
use mathlib.Core.List.{append-nil, append_assoc}
use chzzk_djclass_chat.Base.{
  ℕ, ◌≡◌, ◌≢◌, refl, ap, ◌∙◌, sym, subst, true, false, some, List, [], ◌∷◌, ◌++◌, map, All,
  All-both,
}
use chzzk_djclass_chat.Base.Int.{int_lt}
use chzzk_djclass_chat.Effects.{Result, ok}
use chzzk_djclass_chat.Env.{
  Env, exec, query, write_tx, invalidate_user, step_fault, next_fault, commit,
}
use chzzk_djclass_chat.Link.{
  VArchive, VaClass, SyncResult, to_dj_class, upsert_all, clear_classes, replace_classes,
  sync_classes, sync, sync_linked, sync_user,
}
use chzzk_djclass_chat.Store.{
  User, VarchiveLink, DjClass, Tables, active_link, is_button, list_dj_classes, delete_dj_classes,
  put_dj_class, has_user, upsert_dj_class,
}
use chzzk_djclass_chat.Store.Frames.{list-delete_self}
use chzzk_djclass_chat.TtlCache.Inv.{Inv}
use chzzk_djclass_chat.TtlCache.Refines.{delete-erase_entry}
use chzzk_djclass_chat.Varchive.{Http, all_dj_classes, client}
use chzzk_djclass_chat.Varchive.Buttons.{AreSorted, all_dj_classes-AreSorted}
use chzzk_djclass_chat.Varchive.Rows.{IsBelow, list-put_above, put-IsBelow, delete-IsBelow}

-- An environment without failures to come, with these tables.
abbrev at : Env → Tables → Env
at e t = record e { tables = t; faults = [] }

abbrev with_classes : Tables → List DjClass → Tables
with_classes t cs = record t { classes = cs }

module _ (i : ℕ) (e : Env) where
  upsert-clear :
      (c : VaClass) (t : Tables)
      → has_user i t ≡ true
      → is_button c.button ≡ true
      → exec (upsert_dj_class (to_dj_class i c)) (at e t)
        ≡ (ok tt, at e (with_classes t (put_dj_class (to_dj_class i c) t.classes)))
  unfolding exec step_fault next_fault upsert_dj_class to_dj_class
  upsert-clear c t h b = rw (h, b) refl

  later :
      (c : VaClass) (cs : List VaClass) (t : Tables)
      → All (λ (d : VaClass). int_lt c.button d.button ≡ true) cs
      → All (λ (d : VaClass). All (IsBelow i d.button) t.classes) cs
      → All
          (λ (d : VaClass). All (IsBelow i d.button) (put_dj_class (to_dj_class i c) t.classes))
          cs
  later c cs t h k =
      All-both (λ (d : VaClass). int_lt c.button d.button ≡ true)
        (λ (d : VaClass). All (IsBelow i d.button) t.classes) _ cs
        (λ d less below.
          put-IsBelow i d.button (to_dj_class i c) t.classes (λ s. unfold to_dj_class in less)
            below)
        h k

  -- The loop of upserts stores the classes in their order behind the user's rows.
  upsert_all-stores :
      (cs : List VaClass) (t : Tables)
      → has_user i t ≡ true
      → AreSorted cs
      → All (λ (c : VaClass). All (IsBelow i c.button) t.classes) cs
      → (ds : List DjClass) × (upsert_all i cs (at e t) ≡ (ok tt, at e (with_classes t ds)))
        × (list_dj_classes i ds ≡ list_dj_classes i t.classes ++ map (to_dj_class i) cs)
  unfolding upsert_all has_user
  upsert_all-stores [] t h s b = (t.classes, refl, sym (append-nil (list_dj_classes i t.classes)))
  upsert_all-stores (c ∷ cs) t h s b =
      let row = to_dj_class i c in
      let t' = with_classes t (put_dj_class row t.classes) in
      let (ds, ran, listed) = upsert_all-stores cs t' h s.2 (later c cs t s.1 b.1) in
      (
        ds,
        rw (upsert-clear c t h s.0) ran,
        listed
            ∙ ap (λ l. l ++ map (to_dj_class i) cs)
                (unfold to_dj_class in list-put_above i row t.classes refl b.0)
            ∙ append_assoc (list_dj_classes i t.classes) (row ∷ []) (map (to_dj_class i) cs),
      )

  -- The transaction leaves the fetched classes as the user's.
  replaced :
      (cs : List VaClass) (t : Tables)
      → has_user i t ≡ true
      → AreSorted cs
      → (ds : List DjClass) × (write_tx false (replace_classes i cs) (at e t)
          ≡ (ok tt, at e (with_classes t ds)))
        × (list_dj_classes i ds ≡ map (to_dj_class i) cs)
  unfolding write_tx exec commit step_fault next_fault replace_classes clear_classes has_user
  replaced cs t h s =
      let empty = with_classes t (delete_dj_classes i t.classes) in
      let (ds, ran, listed) = upsert_all-stores cs empty h s (all_below cs t) in
      (
        ds,
        rw ran refl,
        listed ∙ ap (λ l. l ++ map (to_dj_class i) cs) (list-delete_self i t.classes),
      )
    where
      all_below :
          (cs : List VaClass) (t : Tables)
          → All (λ (c : VaClass). All (IsBelow i c.button) (delete_dj_classes i t.classes)) cs
      all_below [] t = tt
      all_below (c ∷ cs) t = (delete-IsBelow i c.button t.classes, all_below cs t)

-- The result of a sync that stored the classes.
pub record IsSynced (u : User) (cs : List VaClass) (t : Tables) (r : Result SyncResult × Env)
    : Type 0 where
  pub result : SyncResult
  pub no_error : r.0 ≡ ok result
  pub done : result.done ≡ true
  pub users_kept : r.1.tables.users ≡ t.users
  pub links_kept : r.1.tables.links ≡ t.links
  pub calm : r.1.faults ≡ []
  pub stored : list_dj_classes u.id r.1.tables.classes ≡ map (to_dj_class u.id) cs

at-IsSynced :
    (u : User) (c : VaClass) (cs : List VaClass) (e : Env)
    → Inv e.cache
    → has_user u.id e.tables ≡ true
    → AreSorted (c ∷ cs)
    → IsSynced u (c ∷ cs) e.tables (sync_classes u (c ∷ cs) (at e e.tables))
unfolding sync_classes invalidate_user
at-IsSynced u c cs e v h s =
    let (ds, ran, listed) = replaced u.id e (c ∷ cs) e.tables h s in
    let (d, gone, _, _, _) = delete-erase_entry e.cache u.chzzk_id v in
    rw (ran) (
      rw (gone, invalidate_user)
        (record {
          result = _;
          no_error = refl;
          done = refl;
          users_kept = refl;
          links_kept = refl;
          calm = refl;
          stored = listed;
        }))

-- No call of the database fails.
pub sync_classes-IsSynced :
    (u : User) (cs : List VaClass) (e : Env)
    → cs ≢ []
    → e.faults ≡ []
    → Inv e.cache
    → has_user u.id e.tables ≡ true
    → AreSorted cs
    → IsSynced u cs e.tables (sync_classes u cs e)
sync_classes-IsSynced u [] e n f v h s = absurd (n refl)
sync_classes-IsSynced u (c ∷ cs) e n f v h s =
    subst (λ fs. IsSynced u (c ∷ cs) e.tables (sync_classes u (c ∷ cs) (record e { faults = fs })))
      (sym f) (at-IsSynced u c cs e v h s)

of_sorted :
    (va : VArchive) (u : User) (l : VarchiveLink) (e : Env)
    → e.faults ≡ []
    → Inv e.cache
    → has_user u.id e.tables ≡ true
    → active_link u.id e.tables.links ≡ some l
    → va.all_dj_classes l.varchive_nickname ≢ []
    → AreSorted (va.all_dj_classes l.varchive_nickname)
    → IsSynced u (va.all_dj_classes l.varchive_nickname) e.tables (sync va u e)
unfolding sync sync_linked sync_user query step_fault next_fault
of_sorted va u l e f v h a n s = rw f (
    rw (a, sync_linked)
      (sync_classes-IsSynced u (va.all_dj_classes l.varchive_nickname) (record e { faults = [] }) n
        refl v h s))

-- While no call of the database fails, a sync through the client of V-ARCHIVE of a user in the
-- tables whose link is active, over a sound badge cache and with a class fetched for some button
-- mode, ends without an error, and the user's stored classes are then exactly the fetched ones, in
-- the order of their modes.
pub sync-IsSynced :
    (http : Http) (u : User) (l : VarchiveLink) (e : Env)
    → e.faults ≡ []
    → Inv e.cache
    → has_user u.id e.tables ≡ true
    → active_link u.id e.tables.links ≡ some l
    → all_dj_classes http l.varchive_nickname ≢ []
    → IsSynced u (all_dj_classes http l.varchive_nickname) e.tables (sync (client http) u e)
unfolding client
sync-IsSynced http u l e f v h a n =
    of_sorted (client http) u l e f v h a n (all_dj_classes-AreSorted http l.varchive_nickname)
