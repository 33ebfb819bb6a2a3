-- ===== src/Link/Races/Bounded.antt =====
-- How stale the badge cache can be when `Resolve` races with the operations of internal/link.
use chzzk_djclass_chat.Base.{
  ℕ, ◌+◌, ◌≤◌, ◌≢◌, refl, ◌∙◌, inl, inr, ◌∷◌, All-map, All-both, All-mapped, arith, Bool-cases,
}
use chzzk_djclass_chat.Base.Text.{Text, text_eq, text_eq_iff}
use chzzk_djclass_chat.Env.{BadgeResult}
use chzzk_djclass_chat.Link.Commits.{Only, same_truth}
use chzzk_djclass_chat.Link.Races.{
  Flight, World, overtake, commit, without, invalidate, tick, Step, begins, advances, abandons,
  finishes, commits, invalidates, ticks, Reach, here, next,
}
use chzzk_djclass_chat.Link.Races.Keeps.{
  IsPromised, IsFresh, longest, Sound, other-IsCurrent, Within-without, begin-Sound, advance-Sound,
  abandon-Sound, finish-Sound,
}
use chzzk_djclass_chat.Link.Safety.{Owns, owned-Foreign}
use chzzk_djclass_chat.Store.{User, Tables}
use chzzk_djclass_chat.TtlCache.{Entry}
use chzzk_djclass_chat.TtlCache.Members.{All-erase, erase_no_key}
use chzzk_djclass_chat.TtlCache.Refines.{delete-erase_entry}
use chzzk_djclass_chat.TtlCache.Views.{entries, erase_entry}

module _ (u : User) (t : Tables) (w : World) (o : Owns w.tables u)
    (only : Only u.id w.tables t) where
  commit-IsFresh :
      (x : Entry BadgeResult)
      → IsFresh w.tables w.owed w.raced x
      → IsFresh t (u.chzzk_id ∷ w.owed) w.raced x
  commit-IsFresh x f = elim (Bool-cases (text_eq u.chzzk_id x.key)) [
    | inl e ↦ inr (inl (ground arith))
    | inr e ↦ elim f [
      | inl a ↦ inl (
          same_truth u.id w.tables t x.key only
            (owned-Foreign w.tables u x.key o (λ k. ground (arith, text_eq_iff u.chzzk_id x.key)))
          ∙ a)
      | inr (inl p) ↦ inr (inl (ground arith))
      | inr (inr p) ↦ inr (inr p)
    ]
  ]

  commit-IsPromised : (f : Flight) → IsPromised w.tables f → IsPromised t (overtake u.chzzk_id f)
  commit-IsPromised f p = elim (Bool-cases (text_eq f.key u.chzzk_id)) [
    | inl e ↦ rw e (inl refl)
    | inr e ↦ rw e (elim p [
      | inl late ↦ inl late
      | inr c ↦ inr (
          other-IsCurrent u.id w.tables t f.key f.stage only
            (owned-Foreign w.tables u f.key o (λ k. ground (arith, text_eq_iff f.key u.chzzk_id)))
            c)
    ])
  ]

  commit-Sound : Sound w → Sound (commit u.chzzk_id t w)
  unfolding commit
  commit-Sound s = record {
    cache_inv = s.cache_inv;
    fresh = All-map _ _ (entries w.cache.order) commit-IsFresh s.fresh;
    timely = s.timely;
    promised =
        All-mapped (overtake u.chzzk_id) (IsPromised t) w.flights
          (All-map (IsPromised w.tables) _ w.flights commit-IsPromised s.promised);
  }

invalidate-IsFresh :
    (key : Text) (w : World) (x : Entry BadgeResult)
    → IsFresh w.tables w.owed w.raced x
    → x.key ≢ key
    → IsFresh w.tables (without key w.owed) (without key w.raced) x
invalidate-IsFresh key w x f other = elim f [
  | inl a ↦ inl a
  | inr (inl p) ↦ inr (inl (Within-without x.key key w.owed other p))
  | inr (inr p) ↦ inr (inr (Within-without x.key key w.raced other p))
]

invalidate-Sound : (key : Text) (w : World) → Sound w → Sound (invalidate key w)
unfolding invalidate
invalidate-Sound key w s =
    let es = entries w.cache.order in
    let (d, gone, same, v, _) = delete-erase_entry w.cache key s.cache_inv in
    rw (gone, invalidate)
      (record {
        cache_inv = v;
        fresh = rw same (
            All-both (IsFresh w.tables w.owed w.raced) (λ x. x.key ≢ key) _ (erase_entry key es)
              (invalidate-IsFresh key w)
              (All-erase (IsFresh w.tables w.owed w.raced) key es s.fresh)
              (erase_no_key key w.cache.order s.cache_inv.apart));
        timely = rw same (All-erase (λ x. x.expires ≤ w.now + longest) key es s.timely);
        promised = s.promised;
      })

tick-Sound : (d : ℕ) (w : World) → Sound w → Sound (tick d w)
unfolding tick
tick-Sound d w s = record {
  cache_inv = s.cache_inv;
  fresh = s.fresh;
  timely =
      All-map (λ x. x.expires ≤ w.now + longest) (λ x. x.expires ≤ w.now + d + longest)
        (entries w.cache.order) (λ x h. omega arith) s.timely;
  promised = s.promised;
}

Step-Sound : (w x : World) → Step w x → Sound w → Sound x
Step-Sound w x (begins key) s = begin-Sound key w s
Step-Sound w x (advances i) s = advance-Sound i w s
Step-Sound w x (abandons i) s = abandon-Sound i w s
Step-Sound w x (finishes i) s = finish-Sound i w s
Step-Sound w x (commits u t o only) s = commit-Sound u t w o only s
Step-Sound w x (invalidates key) s = invalidate-Sound key w s
Step-Sound w x (ticks d) s = tick-Sound d w s

-- From a sound state every interleaving of calls of `Resolve` with failing queries, commits about
-- a user, invalidations and the passing of time leads to sound states only: no entry outlives
-- five minutes, each agrees with the tables unless a commit about its key has no invalidation
-- after it yet or a call that such a commit overtook has written it, and what a call that no commit
-- overtook has read is what the tables say now.
pub Reach-Sound : (w x : World) → Reach w x → Sound w → Sound x
Reach-Sound w x here s = s
Reach-Sound w x (next {x = y} r p) s = Step-Sound y x p (Reach-Sound w y r s)
