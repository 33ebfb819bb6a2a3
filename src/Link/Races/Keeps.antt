-- ===== src/Link/Races/Keeps.antt =====
-- What the interleavings of Link.Races keep of the badge cache.
use chzzk_djclass_chat.Base.{
  ℕ, ◌+◌, ◌*◌, ◌≤◌, ◌≡◌, ◌≢◌, refl, ◌∙◌, ◌⊎◌, inl, inr, Bool, true, false, if◌then◌else◌, Option,
  none, some, List, [], ◌∷◌, set, get_elem?, any_of, All, All-map, All-set, All-append, All-get,
  arith, Bool-cases, Option-cases,
}
use chzzk_djclass_chat.Base.Text.{Text, text_eq, text_eq_iff, text_eq_refl}
use chzzk_djclass_chat.Env.{BadgeResult, Status, linked, unsynced, unlinked}
use chzzk_djclass_chat.Link.Commits.{Only, same_truth}
use chzzk_djclass_chat.Link.Races.{
  Stage, asking, found, checked, done, over, Flight, World, next_stage, take_off, begin, advance,
  abandon, land, finish, without,
}
use chzzk_djclass_chat.Resolver.{ttl, second}
use chzzk_djclass_chat.Resolver.Truth.{truth, truth_found, truth_active}
use chzzk_djclass_chat.Store.{Tables, user_by_chzzk_id, has_active_link}
use chzzk_djclass_chat.Store.Frames.{idents, Foreign, found_other}
use chzzk_djclass_chat.TtlCache.{Entry}
use chzzk_djclass_chat.TtlCache.Inv.{Inv}
use chzzk_djclass_chat.TtlCache.Members.{All-read, All-write}
use chzzk_djclass_chat.TtlCache.Refines.{get-read_entries, set-write_entries}
use chzzk_djclass_chat.TtlCache.Views.{entries, write_entries}

-- What a call that no commit about its key overtook has read is still what the tables say.
abbrev pub IsCurrent : Tables → Text → Stage → Type 0
IsCurrent t key asking = Unit
IsCurrent t key (found o) = user_by_chzzk_id key t.users ≡ o
IsCurrent t key (checked u b) =
    (user_by_chzzk_id key t.users ≡ some u) × (has_active_link u.id t.links ≡ b)
IsCurrent t key (done r) = truth t key ≡ r
IsCurrent t key over = Unit

abbrev pub IsPromised : Tables → Flight → Type 0
IsPromised t f = (f.overtaken ≡ true) ⊎ IsCurrent t f.key f.stage

abbrev pub Within : Text → List Text → Type 0
Within key ks = any_of (λ k. text_eq k key) ks ≡ true

-- An entry agrees with the tables, or a commit about its key has no invalidation after it yet, or
-- a call that such a commit overtook has written it.
abbrev pub IsFresh : Tables → List Text → List Text → Entry BadgeResult → Type 0
IsFresh t owed raced x = (truth t x.key ≡ x.value) ⊎ (Within x.key owed ⊎ Within x.key raced)

-- The longest time that an entry is kept.
abbrev pub longest : ℕ
longest = 300 * second

pub record Sound (w : World) : Type 0 where
  pub cache_inv : Inv w.cache
  pub fresh : All (IsFresh w.tables w.owed w.raced) (entries w.cache.order)
  pub timely : All (λ x. x.expires ≤ w.now + longest) (entries w.cache.order)
  pub promised : All (IsPromised w.tables) w.flights

next_stage-IsCurrent :
    (t : Tables) (key : Text) (s : Stage) → IsCurrent t key s → IsCurrent t key (next_stage t key s)
unfolding next_stage truth truth_found truth_active
next_stage-IsCurrent t key asking c = refl
next_stage-IsCurrent t key (found none) c = rw c refl
next_stage-IsCurrent t key (found (some u)) c = (c, refl)
next_stage-IsCurrent t key (checked u false) c = rw (c.0) (rw (c.1, truth_active) refl)
next_stage-IsCurrent t key (checked u true) c = rw (c.0) (rw (c.1, truth_active) refl)
next_stage-IsCurrent t key (done r) c = c
next_stage-IsCurrent t key over c = tt

-- A commit about another user leaves it so.
pub other-IsCurrent :
    (i : ℕ) (t u : Tables) (key : Text) (s : Stage)
    → Only i t u
    → Foreign i key (idents t.users)
    → IsCurrent t key s
    → IsCurrent u key s
unfolding has_active_link
other-IsCurrent i t u key asking o f c = tt
other-IsCurrent i t u key (found a) o f c = o.same_user key f ∙ c
other-IsCurrent i t u key (checked a b) o f c = (
  o.same_user key f ∙ c.0,
  rw (o.same_link a.id (found_other i key t.users a c.0 f), has_active_link) (c.1),
)
other-IsCurrent i t u key (done r) o f c = same_truth i t u key o f ∙ c
other-IsCurrent i t u key over o f c = tt

pub Within-without :
    (key k : Text) (ks : List Text) → key ≢ k → Within key ks → Within key (without k ks)
Within-without key k [] d h = h
Within-without key k (x ∷ ks) d h = elim (Bool-cases (text_eq x key)) [
  | inl e ↦
      let other : text_eq x k ≡ false = ground (arith, text_eq_iff x key, text_eq_iff x k) in
      rw other (ground arith)
  | inr e ↦ ground (arith, Within-without key k ks d)
]

ttl-le : (s : Status) → ttl s ≤ longest
unfolding ttl
ttl-le linked = omega arith
ttl-le unsynced = omega arith
ttl-le unlinked = omega arith

take_off-IsPromised :
    (t : Tables) (key : Text) (hit : Option BadgeResult) (fs : List Flight)
    → All (IsPromised t) fs
    → All (IsPromised t) (take_off key hit fs)
unfolding take_off
take_off-IsPromised t key (some r) fs h = h
take_off-IsPromised t key none fs h = All-append (IsPromised t) fs _ h (inr tt, tt)

pub begin-Sound : (key : Text) (w : World) → Sound w → Sound (begin key w)
unfolding begin
begin-Sound key w s = elim (Bool-cases (text_eq key [])) [
  | inl e ↦ rw (e, begin) s
  | inr e ↦
      let es = entries w.cache.order in
      let (d, got, same, v, _) = get-read_entries w.cache w.now key s.cache_inv in
      rw (e, got, begin)
        (record {
          cache_inv = v;
          fresh = rw same (All-read (IsFresh w.tables w.owed w.raced) w.now key es s.fresh);
          timely = rw same (All-read (λ x. x.expires ≤ w.now + longest) w.now key es s.timely);
          promised = take_off-IsPromised w.tables key _ w.flights s.promised;
        })
]

-- A step of one call that leaves the rest.
staged-Sound :
    (i : ℕ) (f : Flight) (to : Stage) (w : World)
    → Sound w
    → IsPromised w.tables (record f { stage = to })
    → Sound (record w { flights = set w.flights i (record f { stage = to }) })
staged-Sound i f to w s p = record {
  cache_inv = s.cache_inv;
  fresh = s.fresh;
  timely = s.timely;
  promised = All-set (IsPromised w.tables) w.flights i _ p s.promised;
}

pub advance-Sound : (i : ℕ) (w : World) → Sound w → Sound (advance i w)
unfolding advance
advance-Sound i w s = elim (Option-cases (get_elem? w.flights i)) [
  | inl gone ↦ rw (gone, advance) s
  | inr (f, at_i) ↦
      rw (at_i, advance)
        (staged-Sound i f _ w s
          (elim (All-get (IsPromised w.tables) w.flights i f at_i s.promised) [
            | inl late ↦ inl late
            | inr c ↦ inr (next_stage-IsCurrent w.tables f.key f.stage c)
          ]))
]

pub abandon-Sound : (i : ℕ) (w : World) → Sound w → Sound (abandon i w)
unfolding abandon
abandon-Sound i w s = elim (Option-cases (get_elem? w.flights i)) [
  | inl gone ↦ rw (gone, abandon) s
  | inr (f, at_i) ↦ rw (at_i, abandon) (staged-Sound i f over w s (inr tt))
]

-- What a call writes agrees with the tables, or it is noted that a commit overtook the call.
landed-IsFresh :
    (t : Tables) (owed raced : List Text) (max : ℕ) (late : Bool) (x : Entry BadgeResult)
    (es : List (Entry BadgeResult))
    → (late ≡ true) ⊎ (truth t x.key ≡ x.value)
    → All (IsFresh t owed raced) es
    → All (IsFresh t owed (if late then x.key ∷ raced else raced)) (write_entries max x es)
landed-IsFresh t owed raced max true x es p h =
    All-write (IsFresh t owed (x.key ∷ raced)) max x es
      (inr (inr (ground (arith, text_eq_refl x.key))))
      (All-map (IsFresh t owed raced) (IsFresh t owed (x.key ∷ raced)) es
        (λ y f. elim f [
          | inl a ↦ inl a
          | inr (inl o) ↦ inr (inl o)
          | inr (inr r) ↦ inr (inr (ground arith))
        ])
        h)
landed-IsFresh t owed raced max false x es p h =
    All-write (IsFresh t owed raced) max x es (elim p [ inl e ↦ cc | inr a ↦ inl a ]) h

land-Sound :
    (i : ℕ) (f : Flight) (s : Stage) (w : World)
    → Sound w
    → (f.overtaken ≡ true) ⊎ IsCurrent w.tables f.key s
    → Sound (land i f s w)
unfolding land
land-Sound i f asking w s p = s
land-Sound i f (found u) w s p = s
land-Sound i f (checked u b) w s p = s
land-Sound i f over w s p = s
land-Sound i f (done r) w s p =
    let es = entries w.cache.order in
    let x : Entry BadgeResult = record { key = f.key; value = r; expires = w.now + ttl r.status } in
    let (d, put, same, v, _) = set-write_entries w.cache w.now f.key r (ttl r.status) s.cache_inv in
    rw (put, land)
      (record {
        cache_inv = v;
        fresh =
            rw same (landed-IsFresh w.tables w.owed w.raced w.cache.max f.overtaken x es p s.fresh);
        timely = rw same (
            All-write (λ y. y.expires ≤ w.now + longest) w.cache.max x es
              (omega (arith, ttl-le r.status)) s.timely);
        promised = All-set (IsPromised w.tables) w.flights i _ (inr tt) s.promised;
      })

pub finish-Sound : (i : ℕ) (w : World) → Sound w → Sound (finish i w)
unfolding finish
finish-Sound i w s = elim (Option-cases (get_elem? w.flights i)) [
  | inl gone ↦ rw (gone, finish) s
  | inr (f, at_i) ↦
      rw (at_i, finish)
        (land-Sound i f f.stage w s (All-get (IsPromised w.tables) w.flights i f at_i s.promised))
]
