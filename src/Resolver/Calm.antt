-- ===== src/Resolver/Calm.antt =====
-- internal/resolver/resolver.go while no call of the database fails.
use chzzk_djclass_chat.Base.{
  ◌≡◌, ◌≢◌, refl, inl, inr, Bool, true, false, Option, none, some, [], arith, Bool-cases,
  Option-cases,
}
use chzzk_djclass_chat.Base.Text.{Text, text_eq}
use chzzk_djclass_chat.Effects.{Result, db_failure, ok, err}
use chzzk_djclass_chat.Env.{
  Env, M, BadgeResult, continue, query, step_fault, next_fault, cache_get, cache_set, pure,
}
use chzzk_djclass_chat.Resolver.{
  resolve, resolve_missed, resolve_stored, resolve_found, resolve_active, ttl,
}
use chzzk_djclass_chat.Store.{Tables, User, user_by_chzzk_id, has_active_link, list_dj_classes}
use chzzk_djclass_chat.TtlCache
use chzzk_djclass_chat.TtlCache.{Cache}

-- No failure of the database, and none to come.
abbrev pub IsCalm {ℓ} : {A : Type ℓ} → Result A × Env → Type ℓ
IsCalm r = (r.0 ≢ err db_failure) × (r.1.faults ≡ [])

continue-IsCalm :
    {A B : Type 0} (r : Result A × Env) (f : A → M B)
    → IsCalm r
    → ((a : A) (g : Env) → g.faults ≡ [] → IsCalm (f a g))
    → IsCalm (continue r.0 f r.1)
continue-IsCalm (ok a, g) f h k = k a g h.1
continue-IsCalm (err x, g) f h k = (λ e. h.0 (ground (arith, e)), h.1)

query-IsCalm : {A : Type 0} (q : Tables → A) (e : Env) → e.faults ≡ [] → IsCalm (query q e)
unfolding query step_fault next_fault
query-IsCalm q e h = rw h (λ x. cc, refl)

pure-IsCalm : {A : Type 0} (a : A) (e : Env) → e.faults ≡ [] → IsCalm (pure a e)
pure-IsCalm a e h = (λ x. cc, h)

cache_get-IsCalm : (k : Text) (e : Env) → e.faults ≡ [] → IsCalm (cache_get k e)
unfolding cache_get
cache_get-IsCalm k e h = elim (Option-cases (TtlCache.get e.cache e.now k)) [
  | inl f ↦ rw (f, cache_get) (λ x. ground (arith, x), h)
  | inr (v, f) ↦ rw (f, cache_get) (λ x. cc, h)
]

cache_set-IsCalm :
    (k : Text) (r : BadgeResult) (e : Env) → e.faults ≡ [] → IsCalm (cache_set k r (ttl r.status) e)
unfolding cache_set
cache_set-IsCalm k r e h = elim (Option-cases (TtlCache.set e.cache e.now k r (ttl r.status))) [
  | inl f ↦ rw (f, cache_set) (λ x. ground (arith, x), h)
  | inr (v, f) ↦ rw (f, cache_set) (λ x. cc, h)
]

active-IsCalm :
    (u : User) (active : Bool) (e : Env) → e.faults ≡ [] → IsCalm (resolve_active u active e)
unfolding resolve_active
active-IsCalm u false e h = pure-IsCalm _ e h
active-IsCalm u true e h =
    continue-IsCalm (query (λ t. list_dj_classes u.id t.classes) e) _ (query-IsCalm _ e h)
      (λ a g k. pure-IsCalm _ g k)

found-IsCalm : (o : Option User) (e : Env) → e.faults ≡ [] → IsCalm (resolve_found o e)
unfolding resolve_found
found-IsCalm none e h = pure-IsCalm _ e h
found-IsCalm (some u) e h =
    continue-IsCalm (query (λ t. has_active_link u.id t.links) e) _ (query-IsCalm _ e h)
      (λ a g k. active-IsCalm u a g k)

stored-IsCalm : (k : Text) (e : Env) → e.faults ≡ [] → IsCalm (resolve_stored k e)
unfolding resolve_stored
stored-IsCalm k e h =
    continue-IsCalm (query (λ t. user_by_chzzk_id k t.users) e) _ (query-IsCalm _ e h)
      (λ a g f. found-IsCalm a g f)

missed-IsCalm :
    (k : Text) (hit : Option BadgeResult) (e : Env)
    → e.faults ≡ []
    → IsCalm (resolve_missed k hit e)
unfolding resolve_missed
missed-IsCalm k (some r) e h = pure-IsCalm r e h
missed-IsCalm k none e h = continue-IsCalm (resolve_stored k e) _ (stored-IsCalm k e h) (λ r g f.
    continue-IsCalm (cache_set k r (ttl r.status) g) _ (cache_set-IsCalm k r g f)
      (λ u g' f'. pure-IsCalm r g' f'))

pub resolve-IsCalm : (k : Text) (e : Env) → e.faults ≡ [] → IsCalm (resolve k e)
unfolding resolve
resolve-IsCalm k e h = elim (Bool-cases (text_eq k [])) [
  | inl a ↦ rw a (pure-IsCalm _ e h)
  | inr a ↦ rw a (
      continue-IsCalm (cache_get k e) _ (cache_get-IsCalm k e h)
        (λ hit g f. missed-IsCalm k hit g f))
]
