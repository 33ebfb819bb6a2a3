-- ===== src/Tests/Races.antt =====
-- A call of `Resolve` of internal/resolver that an operation of internal/link overtakes.
use chzzk_djclass_chat.Base.{◌≡◌, refl, [], ◌∷◌, map, arith}
use chzzk_djclass_chat.Base.Text.{text, text_eq}
use chzzk_djclass_chat.Base.Int.{int_lt}
use chzzk_djclass_chat.Djclass
use chzzk_djclass_chat.Resolver.{classify}
use chzzk_djclass_chat.Env.{linked, unlinked}
use chzzk_djclass_chat.Link.Commits.{Only, Only-of_queries}
use chzzk_djclass_chat.Link.Races.{
  over, World, begin, advance, finish, commit, invalidate, begins, advances, finishes, commits,
  invalidates, Reach, here, next,
}
use chzzk_djclass_chat.Link.Races.Keeps.{Sound}
use chzzk_djclass_chat.Link.Races.Bounded.{Reach-Sound}
use chzzk_djclass_chat.Resolver.Truth.{truth, truth_active}
use chzzk_djclass_chat.Store.{
  Tables, user_by_chzzk_id, has_active_link, list_dj_classes, deactivate_link,
}
use chzzk_djclass_chat.Store.Frames.{active-deactivate_other}
use chzzk_djclass_chat.TtlCache
use chzzk_djclass_chat.TtlCache.Refines.{new-Inv}
use chzzk_djclass_chat.TtlCache.Views.{entries}
use chzzk_djclass_chat.Tests.Services.{tables, viewer, viewer-Owns}

abbrev fresh : World
fresh = record {
  tables = tables;
  cache = TtlCache.new 2;
  now = 0;
  flights = [];
  owed = [];
  raced = [];
}

abbrev unlinked_tables : Tables
unlinked_tables = record tables { links = deactivate_link 1 tables.links }

-- The call has read everything; the user unlinks, and the badge is dropped; then the call ends.
abbrev read : World
read = advance 0 (advance 0 (advance 0 (begin (text "abc") fresh)))

abbrev stale : World
stale = finish 0 (invalidate (text "abc") (commit (text "abc") unlinked_tables read))

unlinked_Only : Only 1 tables unlinked_tables
unlinked_Only =
    Only-of_queries 1 tables unlinked_tables refl (λ k f. refl)
      (λ j d. active-deactivate_other 1 j d tables.links) (λ j d. refl)

read-Reach : Reach fresh read
read-Reach =
    next (next (next (next here (begins (text "abc"))) (advances 0)) (advances 0)) (advances 0)

stale-Reach : Reach fresh stale
unfolding advance begin text_eq TtlCache.get TtlCache.new
stale-Reach =
    next
      (next (next read-Reach (commits viewer unlinked_tables viewer-Owns unlinked_Only))
        (invalidates (text "abc")))
      (finishes 0)

fresh-Sound : Sound fresh
unfolding TtlCache.new
fresh-Sound = record { cache_inv = new-Inv 2 (omega arith); fresh = tt; timely = tt; promised = tt }

Reach-Sound_example : Sound stale
Reach-Sound_example = Reach-Sound fresh stale stale-Reach fresh-Sound

-- Nothing is running and nothing is owed, the user has no link, and the cache holds a badge.
stale_after_unlink :
    ((truth stale.tables (text "abc")).status ≡ unlinked)
    × (map (λ x. x.value.status) (entries stale.cache.order) ≡ linked ∷ [])
    × (map (λ f. f.stage) stale.flights ≡ over ∷ [])
    × (stale.owed ≡ [])
    × (stale.raced ≡ text "abc" ∷ [])
unfolding truth user_by_chzzk_id finish invalidate TtlCache.delete commit advance begin text_eq
    TtlCache.get TtlCache.new has_active_link TtlCache.set truth_active deactivate_link classify
    Djclass.resolve list_dj_classes int_lt
stale_after_unlink = (refl, refl, refl, refl, refl)
