-- ===== src/Link/Lawful.antt =====
-- The actions of internal/link/link.go keep the constraints on the rows, whichever call fails.
use chzzk_djclass_chat.Base.{
  ℕ, ◌≡◌, subst, inl, inr, Bool, true, false, Option, none, some, List, [], ◌∷◌, ◌||◌, Bool-cases,
  Option-cases,
}
use chzzk_djclass_chat.Base.Int.{ℤ}
use chzzk_djclass_chat.Base.Text.{Text, text, text_eq}
use chzzk_djclass_chat.Effects.{Result, ok, err}
use chzzk_djclass_chat.Env.{
  Env, M, continue, ◌>>=◌, query, exec, commit, write_tx, invalidate_user, step_fault, next_fault,
}
use chzzk_djclass_chat.Link.{
  VaUser, VaClass, VArchive, to_dj_class, clear_classes, drop_link, upsert_all, replace_classes,
  sync_classes, unlink_rows, unlink_found, unlink, store_preferred, prefer_checked, prefer_parsed,
  set_preferred, parse_int, has_class, sync_user, connect_verified, connect, sync_linked, sync,
}
use chzzk_djclass_chat.Store.{
  User, VarchiveLink, DjClass, Tables, active_link, list_dj_classes, upsert_dj_class,
  upsert_varchive_link, set_preferred_button,
}
use chzzk_djclass_chat.Store.Lawful.{
  Lawful, delete-Lawful, deactivate-Lawful, upsert_dj_class-Lawful, upsert_varchive_link-Lawful,
  set_preferred_button-Lawful,
}
use chzzk_djclass_chat.TtlCache
use mathlib.Core.Option.{some-injective}

-- The constraints on the rows hold at the end.
pub record Legal {A : Type 0} (r : Result A × Env) : Type 0 where
  pub rows : Lawful r.1.tables

-- The action keeps the constraints on the rows.
abbrev pub IsLawful : {A : Type 0} → M A → Type 0
IsLawful m = (e : Env) → Lawful e.tables → Legal (m e)

continue-Legal :
    {A B : Type 0} (r : Result A × Env) (f : A → M B)
    → Legal r
    → ((a : A) → IsLawful (f a))
    → Legal (continue r.0 f r.1)
continue-Legal (ok a, e) f l k = k a e l.rows
continue-Legal (err x, e) f l k = record { rows = l.rows }

query-IsLawful : {A : Type 0} (q : Tables → A) → IsLawful (query q)
unfolding query step_fault
query-IsLawful q e l = elim (Bool-cases (next_fault e.faults).0) [
  | inl f ↦ rw f (record { rows = l })
  | inr f ↦ rw f (record { rows = l })
]

exec-IsLawful :
    (q : Tables → Option Tables)
    → ((t u : Tables) → Lawful t → q t ≡ some u → Lawful u)
    → IsLawful (exec q)
unfolding exec step_fault
exec-IsLawful q h e l = elim (Bool-cases (next_fault e.faults).0) [
  | inl f ↦ rw f (record { rows = l })
  | inr f ↦ rw f (elim (Option-cases (q e.tables)) [
    | inl n ↦ rw (n, exec) (record { rows = l })
    | inr (u, n) ↦ rw (n, exec) (record { rows = h e.tables u l n })
  ])
]

commit-Legal :
    {A : Type 0} (t : Tables) (r : Result A) (e : Env)
    → Lawful t
    → Lawful e.tables
    → Legal (commit t r e)
unfolding commit step_fault
commit-Legal t (err x) e h k = record { rows = h }
commit-Legal t (ok a) e h k = elim (Bool-cases (next_fault e.faults).0) [
  | inl f ↦ rw f (record { rows = h })
  | inr f ↦ rw f (record { rows = k })
]

write_tx-IsLawful :
    {A : Type 0} (fn : Bool → M A) → IsLawful (fn true) → IsLawful (write_tx false fn)
unfolding write_tx step_fault
write_tx-IsLawful fn h e l = elim (Bool-cases (next_fault e.faults).0) [
  | inl f ↦ rw f (record { rows = l })
  | inr f ↦
      let g : Env = record e { faults = (next_fault e.faults).1 } in
      rw f (commit-Legal e.tables (fn true g).0 (fn true g).1 l (h g l).rows)
]

invalidate-IsLawful : (k : Text) → IsLawful (invalidate_user k)
unfolding invalidate_user
invalidate-IsLawful k e l = elim (Option-cases (TtlCache.delete e.cache k)) [
  | inl n ↦ rw (n, invalidate_user) (record { rows = l })
  | inr (c, n) ↦ rw (n, invalidate_user) (record { rows = l })
]

clear_classes-IsLawful : (i : ℕ) → IsLawful (clear_classes i)
unfolding clear_classes
clear_classes-IsLawful i =
    exec-IsLawful _ (λ t u l h. subst Lawful (some-injective _ u h) (delete-Lawful t l i))

upsert_all-IsLawful : (i : ℕ) (cs : List VaClass) → IsLawful (upsert_all i cs)
unfolding upsert_all
upsert_all-IsLawful i [] e l = record { rows = l }
upsert_all-IsLawful i (c ∷ cs) e l =
    continue-Legal (exec (upsert_dj_class (to_dj_class i c)) e) _
      (exec-IsLawful _ (λ t u m h. upsert_dj_class-Lawful t m (to_dj_class i c) u h) e l)
      (λ _. upsert_all-IsLawful i cs)

replace_classes-IsLawful : (i : ℕ) (cs : List VaClass) → IsLawful (replace_classes i cs true)
unfolding replace_classes
replace_classes-IsLawful i cs e l =
    continue-Legal (clear_classes i e) _ (clear_classes-IsLawful i e l)
      (λ _. upsert_all-IsLawful i cs)

-- What a transaction and an invalidation end with.
then-Legal :
    {A B : Type 0} (fn : Bool → M A) (k : Text) (m : M B) (e : Env)
    → IsLawful (fn true)
    → IsLawful m
    → Lawful e.tables
    → Legal ((write_tx false fn >>= λ _. invalidate_user k >>= λ _. m) e)
then-Legal fn k m e h n l =
    continue-Legal (write_tx false fn e) _ (write_tx-IsLawful fn h e l)
      (λ a g p. continue-Legal (invalidate_user k g) _ (invalidate-IsLawful k g p) (λ _. n))

sync_classes-IsLawful : (u : User) (cs : List VaClass) → IsLawful (sync_classes u cs)
unfolding sync_classes
sync_classes-IsLawful u [] e l =
    continue-Legal (query (λ t. list_dj_classes u.id t.classes) e) _ (query-IsLawful _ e l)
      (λ a g p. record { rows = p })
sync_classes-IsLawful u (c ∷ cs) e l =
    then-Legal (replace_classes u.id (c ∷ cs)) u.chzzk_id _ e
      (replace_classes-IsLawful u.id (c ∷ cs)) (λ g p. record { rows = p }) l

unlink_rows-IsLawful : (i : ℕ) → IsLawful (unlink_rows i true)
unfolding unlink_rows drop_link
unlink_rows-IsLawful i e l =
    continue-Legal (drop_link i e) _
      (exec-IsLawful _ (λ t v m h. subst Lawful (some-injective _ v h) (deactivate-Lawful t m i)) e
        l)
      λ _ g p.
        continue-Legal (clear_classes i g) _ (clear_classes-IsLawful i g p)
          (λ _. exec-IsLawful _ (λ t v m h. set_preferred_button-Lawful t m i none v h))

unlink_found-IsLawful : (u : User) (o : Option VarchiveLink) → IsLawful (unlink_found u o)
unfolding unlink_found
unlink_found-IsLawful u none e l = record { rows = l }
unlink_found-IsLawful u (some k) e l =
    then-Legal (unlink_rows u.id) u.chzzk_id _ e (unlink_rows-IsLawful u.id)
      (λ g p. record { rows = p }) l

pub unlink-IsLawful : (u : User) → IsLawful (unlink u)
unfolding unlink
unlink-IsLawful u e l =
    continue-Legal (query (λ t. active_link u.id t.links) e) _ (query-IsLawful _ e l)
      (unlink_found-IsLawful u)

store_preferred-IsLawful : (u : User) (b : Option ℤ) → IsLawful (store_preferred u b)
unfolding store_preferred
store_preferred-IsLawful u b e l =
    then-Legal (λ ctx. exec (set_preferred_button u.id b)) u.chzzk_id _ e
      (exec-IsLawful _ (λ t v m h. set_preferred_button-Lawful t m u.id b v h))
      (λ g p. record { rows = p }) l

prefer_checked-IsLawful :
    (u : User) (b : ℤ) (rows : List DjClass) → IsLawful (prefer_checked u b rows)
unfolding prefer_checked
prefer_checked-IsLawful u b rows e l = elim (Bool-cases (has_class b rows)) [
  | inl h ↦ rw (h, prefer_checked) (store_preferred-IsLawful u (some b) e l)
  | inr h ↦ rw (h, prefer_checked) (record { rows = l })
]

prefer_parsed-IsLawful : (u : User) (o : Option ℤ) → IsLawful (prefer_parsed u o)
unfolding prefer_parsed
prefer_parsed-IsLawful u none e l = record { rows = l }
prefer_parsed-IsLawful u (some b) e l =
    continue-Legal (query (λ t. list_dj_classes u.id t.classes) e) _ (query-IsLawful _ e l)
      (prefer_checked-IsLawful u b)

pub set_preferred-IsLawful : (u : User) (raw : Text) → IsLawful (set_preferred u raw)
unfolding set_preferred
set_preferred-IsLawful u raw e l = elim (Bool-cases (text_eq raw [] || text_eq raw (text "auto"))) [
  | inl h ↦ rw (h, set_preferred) (store_preferred-IsLawful u none e l)
  | inr h ↦ rw (h, set_preferred) (prefer_parsed-IsLawful u (parse_int raw) e l)
]

module _ (va : VArchive) (u : User) where
  connect_verified-IsLawful : (r : Result VaUser) → IsLawful (connect_verified va u r)
  unfolding connect_verified sync_user
  connect_verified-IsLawful (err x) e l = record { rows = l }
  connect_verified-IsLawful (ok v) e l =
      then-Legal (λ ctx. exec (upsert_varchive_link u.id v.nickname (some v.user_no))) u.chzzk_id _
        e
        (exec-IsLawful _
          (λ t w m h. upsert_varchive_link-Lawful t m u.id v.nickname (some v.user_no) w h))
        (sync_classes-IsLawful u (va.all_dj_classes v.nickname)) l

  pub connect-IsLawful : (token : Text) → IsLawful (connect va u token)
  unfolding connect
  connect-IsLawful token = connect_verified-IsLawful (va.lookup_user token)

  sync_linked-IsLawful : (o : Option VarchiveLink) → IsLawful (sync_linked va u o)
  unfolding sync_linked sync_user
  sync_linked-IsLawful none e l = record { rows = l }
  sync_linked-IsLawful (some k) e l =
      sync_classes-IsLawful u (va.all_dj_classes k.varchive_nickname) e l

  pub sync-IsLawful : IsLawful (sync va u)
  unfolding sync
  sync-IsLawful e l =
      continue-Legal (query (λ t. active_link u.id t.links) e) _ (query-IsLawful _ e l)
        sync_linked-IsLawful
