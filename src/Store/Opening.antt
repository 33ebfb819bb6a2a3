-- ===== src/Store/Opening.antt =====
-- `Open` and `migrate` of internal/store/store.go. What database/sql and goose answer is a
-- parameter. A pool has a limit of connections, and is over a migrated database or not.
use chzzk_djclass_chat.Base.{
  ℕ, ◌≡◌, refl, ◌⊎◌, inl, inr, Bool, true, false, Option, none, some, ltb, if◌then◌else◌,
}

pub record Pool : Type 0 where
  pub limit : ℕ
  pub migrated : Bool

-- The pools that are open.
pub record Pools : Type 0 where
  pub write : Option Pool
  pub read : Option Pool

-- Which call fails, and the number of processors.
pub record Answers : Type 0 where
  pub write_fails : Bool
  pub files_fail : Bool
  pub provider_fails : Bool
  pub up_fails : Bool
  pub read_fails : Bool
  pub num_cpu : ℕ

abbrev pub nothing_open : Pools
nothing_open = record { write = none; read = none }

-- `migrate`: whether it fails.
unfoldable pub migrate : Bool → Bool → Bool → Bool
migrate true p u = true
migrate false true u = true
migrate false false u = u

-- `max(4, runtime.NumCPU())`
unfoldable pub readers : ℕ → ℕ
readers cpus = if ltb 4 cpus then cpus else 4

-- `Open` once the migrations are applied; and before, once the write pool is open.
unfoldable pub open_read : Bool → ℕ → Pools
unfolding readers
open_read true cpus = nothing_open
open_read false cpus = record {
  write = some (record { limit = 1; migrated = true });
  read = some (record { limit = readers cpus; migrated = true });
}

unfoldable pub after_migrate : Bool → Answers → Pools
unfolding open_read
after_migrate true a = nothing_open
after_migrate false a = open_read a.read_fails a.num_cpu

unfoldable pub after_write : Bool → Answers → Pools
unfolding migrate after_migrate
after_write true a = nothing_open
after_write false a = after_migrate (migrate a.files_fail a.provider_fails a.up_fails) a

-- `Open`
unfoldable pub open_store : Answers → Pools
unfolding after_write
open_store a = after_write a.write_fails a

-- A store with its two pools, over a migrated database and with one connection that writes.
pub record IsOpen (p : Pools) : Type 0 where
  pub write : p.write ≡ some (record { limit = 1; migrated = true })
  pub limit : ℕ
  pub read : p.read ≡ some (record { limit = limit; migrated = true })

open_read-IsOpen : (f : Bool) (n : ℕ) → (open_read f n ≡ nothing_open) ⊎ IsOpen (open_read f n)
unfolding open_read
open_read-IsOpen true n = inl refl
open_read-IsOpen false n = inr (record { write = refl; limit = readers n; read = refl })

after_migrate-IsOpen :
    (f : Bool) (a : Answers) → (after_migrate f a ≡ nothing_open) ⊎ IsOpen (after_migrate f a)
unfolding after_migrate
after_migrate-IsOpen true a = inl refl
after_migrate-IsOpen false a = open_read-IsOpen a.read_fails a.num_cpu

after_write-IsOpen :
    (f : Bool) (a : Answers) → (after_write f a ≡ nothing_open) ⊎ IsOpen (after_write f a)
unfolding after_write
after_write-IsOpen true a = inl refl
after_write-IsOpen false a =
    after_migrate-IsOpen (migrate a.files_fail a.provider_fails a.up_fails) a

-- `Open` fails and leaves no pool open, or gives the two pools of a migrated database.
open_store-IsOpen : (a : Answers) → (open_store a ≡ nothing_open) ⊎ IsOpen (open_store a)
unfolding open_store
open_store-IsOpen a = after_write-IsOpen a.write_fails a
