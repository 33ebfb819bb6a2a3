-- ===== src/Env/Laws.antt =====
-- How computations over the environment of Env compose.
use chzzk_djclass_chat.Base.{
  ◌≡◌, refl, ◌∙◌, ◌⊎◌, inl, inr, Bool, true, false, Option, some, arith, Bool-cases, Option-cases,
}
use chzzk_djclass_chat.Base.Text.{Text}
use chzzk_djclass_chat.Effects.{Error, db_failure, Result, ok, err}
use chzzk_djclass_chat.Env.{
  Env, M, continue, query, exec, exec_row, commit, write_tx, invalidate_user, step_fault,
  next_fault,
}
use chzzk_djclass_chat.Store.{Tables}

-- Everything but the faults to come is as it was.
pub record ReadsOnly (e f : Env) : Type 0 where
  pub tables_same : f.tables ≡ e.tables
  pub cache_same : f.cache ≡ e.cache
  pub now_same : f.now ≡ e.now

pub ReadsOnly-refl : (e : Env) → ReadsOnly e e
ReadsOnly-refl e = record { tables_same = refl; cache_same = refl; now_same = refl }

-- A computation gives the value or a failure of the database, and only reads.
abbrev pub Reads : {A : Type 0} → Env → Result A × Env → A → Type 0
Reads e r a = ((r.0 ≡ ok a) ⊎ (r.0 ≡ err db_failure)) × ReadsOnly e r.1

pub query-Reads : {A : Type 0} (q : Tables → A) (e : Env) → Reads e (query q e) (q e.tables)
unfolding query step_fault
query-Reads q e = ground arith

pub pure-Reads : {A : Type 0} (a : A) (e : Env) → Reads e (ok a, e) a
pure-Reads a e = (inl refl, ReadsOnly-refl e)

pub ReadsOnly-trans : {e f g : Env} → ReadsOnly e f → ReadsOnly f g → ReadsOnly e g
ReadsOnly-trans p q = record {
  tables_same = q.tables_same ∙ p.tables_same;
  cache_same = q.cache_same ∙ p.cache_same;
  now_same = q.now_same ∙ p.now_same;
}

pub continue-Reads :
    {A B : Type 0} (e : Env) (r : Result A × Env) (f : A → M B) (a : A) (b : B)
    → Reads e r a
    → ((g : Env) → g.tables ≡ e.tables → Reads g (f a g) b)
    → Reads e (continue r.0 f r.1) b
continue-Reads e r f a b (inl h, same) k =
    let (cases, later) = k r.1 same.tables_same in rw h (cases, ReadsOnly-trans same later)
continue-Reads e r f a b (inr h, same) k = rw h (inr refl, same)

-- What a computation that succeeded has done, part by part.
pub continue-ok :
    {A B : Type 0} (r : Result A × Env) (f : A → M B) (b : B)
    → (continue r.0 f r.1).0 ≡ ok b
    → (a : A) × (r.0 ≡ ok a) × ((f a r.1).0 ≡ ok b) × ((continue r.0 f r.1).1 ≡ (f a r.1).1)
continue-ok (ok a, g) f b h = (a, refl, h, refl)
continue-ok (err x, g) f b h = cc

pub exec-ok :
    (q : Tables → Option Tables) (e : Env)
    → (exec q e).0 ≡ ok tt
    → q e.tables ≡ some (exec q e).1.tables
unfolding exec step_fault
exec-ok q e h = elim (Bool-cases (next_fault e.faults).0) [
  | inl f ↦ absurd (ground arith)
  | inr f ↦ elim (Option-cases (q e.tables)) [
    | inl n ↦ absurd (ground arith)
    | inr (t, n) ↦ ground arith
  ]
]

commit-ok :
    {A : Type 0} (before : Tables) (r : Result A) (g : Env) (a : A)
    → (commit before r g).0 ≡ ok a
    → (r ≡ ok a) × ((commit before r g).1.tables ≡ g.tables)
unfolding commit step_fault
commit-ok before (err x) g a h = cc
commit-ok before (ok b) g a h = ground arith

-- A transaction that succeeded has run its statements on the tables, and kept what they left.
pub write_tx-ok :
    {A : Type 0} (fn : Bool → M A) (e : Env) (a : A)
    → (write_tx false fn e).0 ≡ ok a
    → (g : Env) × (g.tables ≡ e.tables)
      × ((fn true g).0 ≡ ok a)
      × ((write_tx false fn e).1.tables ≡ (fn true g).1.tables)
unfolding write_tx step_fault
write_tx-ok fn e a h = elim (Bool-cases (next_fault e.faults).0) [
  | inl f ↦ absurd (ground arith)
  | inr f ↦
      let g : Env = record e { faults = (next_fault e.faults).1 } in
      let k : (commit e.tables (fn true g).0 (fn true g).1).0 ≡ ok a = rw f at h in
      let (done, kept) = commit-ok e.tables (fn true g).0 (fn true g).1 a k in
      (g, refl, done, rw f kept)
]

pub invalidate-ok :
    (k : Text) (e : Env)
    → (invalidate_user k e).0 ≡ ok tt
    → (invalidate_user k e).1.tables ≡ e.tables
unfolding invalidate_user
invalidate-ok k e h = ground arith

pub query-ok :
    {A : Type 0} (q : Tables → A) (e : Env) (a : A)
    → (query q e).0 ≡ ok a
    → (q e.tables ≡ a) × ((query q e).1.tables ≡ e.tables)
unfolding query step_fault
query-ok q e a h = ground arith

pub query-ReadsOnly : {A : Type 0} (q : Tables → A) (e : Env) → ReadsOnly e (query q e).1
query-ReadsOnly q e = let (_, same) = query-Reads q e in same

pub continue-ReadsOnly :
    {A B : Type 0} (e : Env) (r : Result A × Env) (f : A → M B)
    → ReadsOnly e r.1
    → ((a : A) (g : Env) → ReadsOnly g (f a g).1)
    → ReadsOnly e (continue r.0 f r.1).1
continue-ReadsOnly e (ok a, g) f h k = ReadsOnly-trans h (k a g)
continue-ReadsOnly e (err x, g) f h k = h

commit-keeps :
    {A : Type 0} (R : Tables → Tables → Type 0) (e : Env) (r : Result A) (g : Env)
    → ((t : Tables) → R t t)
    → g.cache ≡ e.cache
    → R e.tables g.tables
    → ((commit e.tables r g).1.cache ≡ e.cache) × R e.tables (commit e.tables r g).1.tables
unfolding commit step_fault
commit-keeps R e (err x) g same c t = (c, same e.tables)
commit-keeps R e (ok a) g same c t = elim (Bool-cases (next_fault g.faults).0) [
  | inl f ↦ rw f (c, same e.tables)
  | inr f ↦ rw f (c, t)
]

-- A transaction leaves the tables as they were, or as its statements leave them.
pub write_tx-keeps :
    {A : Type 0} (R : Tables → Tables → Type 0) (fn : Bool → M A) (e : Env)
    → ((t : Tables) → R t t)
    → ((g : Env) → ((fn true g).1.cache ≡ g.cache) × R g.tables (fn true g).1.tables)
    → ((write_tx false fn e).1.cache ≡ e.cache) × R e.tables (write_tx false fn e).1.tables
unfolding write_tx step_fault
write_tx-keeps R fn e same h = elim (Bool-cases (next_fault e.faults).0) [
  | inl f ↦ rw f (refl, same e.tables)
  | inr f ↦
      let g : Env = record e { faults = (next_fault e.faults).1 } in
      rw f (commit-keeps R e (fn true g).0 (fn true g).1 same (h g).0 (h g).1)
]

pub exec_row-ok :
    {A : Type 0} (q : Tables → A × Tables) (e : Env) (a : A)
    → (exec_row q e).0 ≡ ok a
    → ((q e.tables).0 ≡ a) × ((exec_row q e).1.tables ≡ (q e.tables).1)
unfolding exec_row step_fault
exec_row-ok q e a h = ground arith

commit-err :
    {A : Type 0} (before : Tables) (r : Result A) (g : Env) (x : Error)
    → (commit before r g).0 ≡ err x
    → (commit before r g).1.tables ≡ before
unfolding commit step_fault
commit-err before (err y) g x h = refl
commit-err before (ok a) g x h = ground arith

-- A transaction that failed has rolled back.
pub write_tx-err :
    {A : Type 0} (fn : Bool → M A) (e : Env) (x : Error)
    → (write_tx false fn e).0 ≡ err x
    → (write_tx false fn e).1.tables ≡ e.tables
unfolding write_tx step_fault
write_tx-err fn e x h = elim (Bool-cases (next_fault e.faults).0) [
  | inl f ↦ rw f refl
  | inr f ↦
      let g : Env = record e { faults = (next_fault e.faults).1 } in
      rw f (commit-err e.tables (fn true g).0 (fn true g).1 x (rw f at h))
]
