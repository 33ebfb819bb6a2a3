-- ===== src/Link/Commits.antt =====
-- What a transaction of internal/link/link.go about one user changes, and that a failed one changes
-- nothing.
use chzzk_djclass_chat.Base.{
  ℕ, ◌≡◌, ◌≢◌, refl, ap, ◌∙◌, inl, inr, Bool, true, false, Option, none, some, Bool-cases,
  Option-cases,
}
use chzzk_djclass_chat.Base.Text.{Text}
use chzzk_djclass_chat.Effects.{Error, Result, ok, err}
use chzzk_djclass_chat.Env.{Env, M, continue, exec, commit, write_tx, step_fault, next_fault}
use chzzk_djclass_chat.Resolver.{classify}
use chzzk_djclass_chat.Resolver.Truth.{truth, truth_found, truth_active}
use chzzk_djclass_chat.Store.{
  User, Tables, user_by_chzzk_id, active_link, has_active_link, list_dj_classes,
}
use chzzk_djclass_chat.Store.Frames.{idents, Foreign, found_other}

-- A change of the rows of user `i` alone: the users are the same people, and no query about
-- another sees it.
pub record Only (i : ℕ) (t u : Tables) : Type 0 where
  pub same_idents : idents u.users ≡ idents t.users
  pub same_user :
      (k : Text)
      → Foreign i k (idents t.users)
      → user_by_chzzk_id k u.users ≡ user_by_chzzk_id k t.users
  pub same_link : (j : ℕ) → j ≢ i → active_link j u.links ≡ active_link j t.links
  pub same_classes : (j : ℕ) → j ≢ i → list_dj_classes j u.classes ≡ list_dj_classes j t.classes

pub Only-refl : (i : ℕ) (t : Tables) → Only i t t
Only-refl i t = record {
  same_idents = refl;
  same_user = λ k f. refl;
  same_link = λ j d. refl;
  same_classes = λ j d. refl;
}

-- A change that no query about another user sees.
pub Only-of_queries :
    (i : ℕ) (t u : Tables)
    → idents u.users ≡ idents t.users
    → ((k : Text)
        → Foreign i k (idents t.users)
        → user_by_chzzk_id k u.users ≡ user_by_chzzk_id k t.users)
    → ((j : ℕ) → j ≢ i → active_link j u.links ≡ active_link j t.links)
    → ((j : ℕ) → j ≢ i → list_dj_classes j u.classes ≡ list_dj_classes j t.classes)
    → Only i t u
Only-of_queries i t u people users links classes = record {
  same_idents = people;
  same_user = users;
  same_link = links;
  same_classes = classes;
}

pub Only-trans : (i : ℕ) (t u v : Tables) → Only i t u → Only i u v → Only i t v
Only-trans i t u v p q = record {
  same_idents = q.same_idents ∙ p.same_idents;
  same_user = λ k f. q.same_user k (rw (p.same_idents) f) ∙ p.same_user k f;
  same_link = λ j d. q.same_link j d ∙ p.same_link j d;
  same_classes = λ j d. q.same_classes j d ∙ p.same_classes j d;
}

-- Each step of the resolver about another user gives what it gave before the change.
pub same_active :
    (i : ℕ) (t u : Tables) (a : User) (b : Bool)
    → Only i t u
    → a.id ≢ i
    → truth_active u a b ≡ truth_active t a b
unfolding truth_active
same_active i t u a false o d = refl
same_active i t u a true o d = ap (classify a) (o.same_classes a.id d)

pub same_found :
    (i : ℕ) (t u : Tables) (found : Option User)
    → Only i t u
    → ((a : User) → found ≡ some a → a.id ≢ i)
    → truth_found u found ≡ truth_found t found
unfolding truth_found has_active_link
same_found i t u none o other = refl
same_found i t u (some a) o other =
    let d = other a refl in rw (o.same_link a.id d, has_active_link) (same_active i t u a _ o d)

pub same_truth :
    (i : ℕ) (t u : Tables) (k : Text)
    → Only i t u
    → Foreign i k (idents t.users)
    → truth u k ≡ truth t k
unfolding truth
same_truth i t u k o f =
    ap (truth_found u) (o.same_user k f)
    ∙ same_found i t u (user_by_chzzk_id k t.users) o (λ a h. found_other i k t.users a h f)

-- What a part of a transaction about user `i` leaves.
pub record Confined {A : Type 0} (i : ℕ) (e : Env) (r : Result A × Env) : Type 0 where
  pub cache_same : r.1.cache ≡ e.cache
  pub now_same : r.1.now ≡ e.now
  pub only : Only i e.tables r.1.tables

pub exec-Confined :
    (i : ℕ) (q : Tables → Option Tables) (e : Env)
    → ((u : Tables) → q e.tables ≡ some u → Only i e.tables u)
    → Confined i e (exec q e)
unfolding exec step_fault
exec-Confined i q e h = elim (Bool-cases (next_fault e.faults).0) [
  | inl f ↦ rw f (record { cache_same = refl; now_same = refl; only = Only-refl i e.tables })
  | inr f ↦ rw f (elim (Option-cases (q e.tables)) [
    | inl n ↦
        rw (n, exec) (record { cache_same = refl; now_same = refl; only = Only-refl i e.tables })
    | inr (u, n) ↦ rw (n, exec) (record { cache_same = refl; now_same = refl; only = h u n })
  ])
]

pub continue-Confined :
    {A B : Type 0} (i : ℕ) (e : Env) (r : Result A × Env) (f : A → M B)
    → Confined i e r
    → ((a : A) → Confined i r.1 (f a r.1))
    → Confined i e (continue r.0 f r.1)
continue-Confined i e (ok a, g) f c k =
    let d = k a in
    record {
      cache_same = d.cache_same ∙ c.cache_same;
      now_same = d.now_same ∙ c.now_same;
      only = Only-trans i e.tables g.tables _ c.only d.only;
    }
continue-Confined i e (err x, g) f c k = record {
  cache_same = c.cache_same;
  now_same = c.now_same;
  only = c.only;
}

-- What a transaction about user `i` leaves: a failed one leaves the tables.
pub record Committed {A : Type 0} (i : ℕ) (e : Env) (r : Result A × Env) : Type 0 where
  pub confined : Confined i e r
  pub rolled_back : (x : Error) → r.0 ≡ err x → r.1.tables ≡ e.tables

commit-Committed :
    {A : Type 0} (i : ℕ) (e : Env) (r : Result A) (g : Env)
    → g.cache ≡ e.cache
    → g.now ≡ e.now
    → Only i e.tables g.tables
    → Committed i e (commit e.tables r g)
unfolding commit step_fault
commit-Committed i e (err x) g c n o = record {
  confined = record { cache_same = c; now_same = n; only = Only-refl i e.tables };
  rolled_back = λ y h. refl;
}
commit-Committed i e (ok a) g c n o = elim (Bool-cases (next_fault g.faults).0) [
  | inl f ↦ rw f (record {
    confined = record { cache_same = c; now_same = n; only = Only-refl i e.tables };
    rolled_back = λ y h. refl;
  })
  | inr f ↦ rw f (record {
    confined = record { cache_same = c; now_same = n; only = o };
    rolled_back = λ y h. cc;
  })
]

pub write_tx-Committed :
    {A : Type 0} (i : ℕ) (fn : Bool → M A) (e : Env)
    → ((g : Env) → Confined i g (fn true g))
    → Committed i e (write_tx false fn e)
unfolding write_tx step_fault
write_tx-Committed i fn e h = elim (Bool-cases (next_fault e.faults).0) [
  | inl f ↦ rw f (record {
    confined = record { cache_same = refl; now_same = refl; only = Only-refl i e.tables };
    rolled_back = λ y p. refl;
  })
  | inr f ↦
      let g : Env = record e { faults = (next_fault e.faults).1 } in
      let c = h g in
      rw f (commit-Committed i e (fn true g).0 (fn true g).1 c.cache_same c.now_same c.only)
]
