-- ===== src/Env.antt =====
-- What the services share: the database of internal/store/store.go, the badge cache of
-- internal/resolver/resolver.go and the clock. Whether each coming call of the database fails is a
-- list of Booleans; when the list is over no call fails.
pub mod Laws
use chzzk_djclass_chat.Base.{
  ℕ, ◌+◌, ◌≡◌, Bool, true, false, Option, none, some, List, [], ◌∷◌, if◌then◌else◌,
}
use chzzk_djclass_chat.Base.Text.{Text}
use chzzk_djclass_chat.Djclass.{Badge}
use chzzk_djclass_chat.Effects.{Error, db_failure, nested_write, panic, Result, ok, err}
use chzzk_djclass_chat.Store.{Tables}
use chzzk_djclass_chat.TtlCache
use chzzk_djclass_chat.TtlCache.{Cache}

pub data Status : Type 0 where
  linked unsynced unlinked : Status

pub record Badges : Type 0 where
  pub auto : Badge
  pub viewer : Badge

-- `Result` of the resolver.
pub record BadgeResult : Type 0 where
  pub status : Status
  pub badge : Option Badges

pub record Env : Type 0 where
  pub tables : Tables
  pub faults : List Bool
  pub cache : Cache BadgeResult
  pub now : ℕ

abbrev pub M : Type 0 → Type 0
M A = Env → Result A × Env

abbrev pub pure : {A : Type 0} → A → M A
pure a e = (ok a, e)

abbrev pub fail : {A : Type 0} → Error → M A
fail x e = (err x, e)

abbrev pub continue : {A B : Type 0} → Result A → (A → M B) → M B
continue (ok a) f e = f a e
continue (err x) f e = (err x, e)

infixl 5 ◌>>=◌ ◌>>◌
abbrev pub ◌>>=◌ : {A B : Type 0} → M A → (A → M B) → M B
◌>>=◌ m f e = continue (m e).0 f (m e).1

abbrev pub ◌>>◌ : {B : Type 0} → M (Unit {0}) → M B → M B
m >> k = m >>= λ _. k

-- The next call of the database: whether it fails, and the calls after it.
unfoldable pub next_fault : List Bool → Bool × List Bool
next_fault [] = (false, [])
next_fault (b ∷ bs) = (b, bs)

unfoldable pub step_fault : Env → Bool × Env
unfolding next_fault
step_fault e = let f = next_fault e.faults in (f.0, record e { faults = f.1 })

-- A query: the tables are as they were.
unfoldable pub query : {A : Type 0} → (Tables → A) → M A
unfolding step_fault
query q e = let f = step_fault e in if f.0 then (err db_failure, f.1) else (ok (q e.tables), f.1)

-- A statement; a violated constraint is an error.
unfoldable pub exec : (Tables → Option Tables) → M (Unit {0})
unfolding step_fault
exec q e =
    let f = step_fault e in
    if f.0 then (err db_failure, f.1) else elim (q e.tables) [
      | none ↦ (err db_failure, f.1)
      | some t ↦ (ok tt, record f.1 { tables = t })
    ]

-- A statement that returns a row.
unfoldable pub exec_row : {A : Type 0} → (Tables → A × Tables) → M A
unfolding step_fault
exec_row q e =
    let f = step_fault e in
    if f.0
    then (err db_failure, f.1)
    else (ok (q e.tables).0, record f.1 { tables = (q e.tables).1 })

-- `tx.Commit()`, after which a failure rolls back to the tables before.
unfoldable pub commit : {A : Type 0} → Tables → Result A → M A
unfolding step_fault
commit before (err x) e = (err x, record e { tables = before })
commit before (ok a) e =
    let f = step_fault e in
    if f.0 then (err db_failure, record f.1 { tables = before }) else (ok a, f.1)

-- `WriteTx`. The flag is the context's mark of a transaction, which `fn` is given set.
unfoldable pub write_tx : {A : Type 0} → Bool → (Bool → M A) → M A
unfolding step_fault commit
write_tx true fn e = (err nested_write, e)
write_tx false fn e =
    let f = step_fault e in
    if f.0 then (err db_failure, f.1) else (let r = fn true f.1 in commit e.tables r.0 r.1)

-- Calls of the cache.
unfoldable pub cache_get : Text → M (Option BadgeResult)
cache_get key e = elim (TtlCache.get e.cache e.now key) [
  | none ↦ (err panic, e)
  | some (c, v) ↦ (ok v, record e { cache = c })
]

unfoldable pub cache_set : Text → BadgeResult → ℕ → M (Unit {0})
cache_set key v ttl e = elim (TtlCache.set e.cache e.now key v ttl) [
  | none ↦ (err panic, e)
  | some c ↦ (ok tt, record e { cache = c })
]

-- `InvalidateUser`
unfoldable pub invalidate_user : Text → M (Unit {0})
invalidate_user key e = elim (TtlCache.delete e.cache key) [
  | none ↦ (err panic, e)
  | some c ↦ (ok tt, record e { cache = c })
]
