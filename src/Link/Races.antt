-- ===== src/Link/Races.antt =====
-- internal/resolver/resolver.go beside internal/link/link.go: calls of `Resolve` in goroutines,
-- whose queries of the database interleave with the commits and invalidations of others.
pub mod Keeps
pub mod Bounded
use chzzk_djclass_chat.Base.{
  ℕ, ◌+◌, Bool, true, false, Option, none, some, List, [], ◌∷◌, ◌++◌, map, set, get_elem?, any_of,
  if◌then◌else◌,
}
use chzzk_djclass_chat.Base.Text.{Text, text_eq}
use chzzk_djclass_chat.Env.{BadgeResult, unlinked}
use chzzk_djclass_chat.Link.Commits.{Only}
use chzzk_djclass_chat.Link.Safety.{Owns}
use chzzk_djclass_chat.Resolver.{ttl, plain, classify}
use chzzk_djclass_chat.Store.{User, Tables, user_by_chzzk_id, has_active_link, list_dj_classes}
use chzzk_djclass_chat.TtlCache
use chzzk_djclass_chat.TtlCache.{Cache}

-- Where a call is: before its first query, after each query, with a result, and at its end.
pub data Stage : Type 0 where
  asking : Stage
  found : Option User → Stage
  checked : User → Bool → Stage
  done : BadgeResult → Stage
  over : Stage

-- A call that missed the cache; `overtaken` if a commit about its key came since it began.
pub record Flight : Type 0 where
  pub key : Text
  pub stage : Stage
  pub overtaken : Bool

-- What the goroutines share, and two lists of keys that the program does not keep: `owed`, of
-- which a commit has no invalidation after it yet, and `raced`, which a call that was overtaken
-- has written to the cache since the last invalidation.
pub record World : Type 0 where
  pub tables : Tables
  pub cache : Cache BadgeResult
  pub now : ℕ
  pub flights : List Flight
  pub owed : List Text
  pub raced : List Text

-- One query of `resolve`, or a step without one.
unfoldable pub next_stage : Tables → Text → Stage → Stage
next_stage t key asking = found (user_by_chzzk_id key t.users)
next_stage t key (found none) = done (plain unlinked)
next_stage t key (found (some u)) = checked u (has_active_link u.id t.links)
next_stage t key (checked u false) = done (plain unlinked)
next_stage t key (checked u true) = done (classify u (list_dj_classes u.id t.classes))
next_stage t key (done r) = done r
next_stage t key over = over

-- The cache missed.
unfoldable pub take_off : Text → Option BadgeResult → List Flight → List Flight
take_off key (some r) fs = fs
take_off key none fs = fs ++ record { key = key; stage = asking; overtaken = false } ∷ []

-- `Resolve` up to the read of the cache.
unfoldable pub begin : Text → World → World
unfolding take_off
begin key w = if text_eq key [] then w else elim (TtlCache.get w.cache w.now key) [
  | none ↦ w
  | some (c, hit) ↦ record w { cache = c; flights = take_off key hit w.flights }
]

unfoldable pub advance : ℕ → World → World
unfolding next_stage
advance i w = elim (get_elem? w.flights i) [
  | none ↦ w
  | some f ↦ record w {
    flights = set w.flights i (record f { stage = next_stage w.tables f.key f.stage });
  }
]

-- A query failed.
unfoldable pub abandon : ℕ → World → World
abandon i w = elim (get_elem? w.flights i) [
  | none ↦ w
  | some f ↦ record w { flights = set w.flights i (record f { stage = over }) }
]

-- The write of the cache by a call that has its result.
unfoldable pub land : ℕ → Flight → Stage → World → World
land i f (done r) w = elim (TtlCache.set w.cache w.now f.key r (ttl r.status)) [
  | none ↦ w
  | some c ↦ record w {
    cache = c;
    flights = set w.flights i (record f { stage = over });
    raced = if f.overtaken then f.key ∷ w.raced else w.raced;
  }
]
land i f asking w = w
land i f (found u) w = w
land i f (checked u b) w = w
land i f over w = w

unfoldable pub finish : ℕ → World → World
unfolding land
finish i w = elim (get_elem? w.flights i) [ none ↦ w | some f ↦ land i f f.stage w ]

abbrev pub overtake : Text → Flight → Flight
overtake key f = if text_eq f.key key then record f { overtaken = true } else f

-- A transaction about a user is committed, with the tables it leaves.
unfoldable pub commit : Text → Tables → World → World
commit key t w = record w {
  tables = t;
  flights = map (overtake key) w.flights;
  owed = key ∷ w.owed;
}

abbrev pub without : Text → List Text → List Text
without key [] = []
without key (k ∷ ks) = let rest = without key ks in if text_eq k key then rest else k ∷ rest

-- `InvalidateUser`
unfoldable pub invalidate : Text → World → World
invalidate key w = elim (TtlCache.delete w.cache key) [
  | none ↦ w
  | some c ↦ record w { cache = c; owed = without key w.owed; raced = without key w.raced }
]

unfoldable pub tick : ℕ → World → World
tick d w = record w { now = w.now + d }

-- One step of some goroutine. A commit changes the rows of one user, who has the Chzzk id of the
-- caller's copy.
pub data Step : World → World → Type 0 where
  begins : {w : World} (key : Text) → Step w (begin key w)
  advances : {w : World} (i : ℕ) → Step w (advance i w)
  abandons : {w : World} (i : ℕ) → Step w (abandon i w)
  finishes : {w : World} (i : ℕ) → Step w (finish i w)
  commits :
      {w : World} (u : User) (t : Tables)
      → Owns w.tables u
      → Only u.id w.tables t
      → Step w (commit u.chzzk_id t w)
  invalidates : {w : World} (key : Text) → Step w (invalidate key w)
  ticks : {w : World} (d : ℕ) → Step w (tick d w)

-- The states that steps lead to, in any order.
pub data Reach (w : World) : World → Type 0 where
  here : Reach w w
  next : {x y : World} → Reach w x → Step x y → Reach w y
