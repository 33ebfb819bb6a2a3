-- ===== src/Resolver.antt =====
-- internal/resolver/resolver.go: the badge of a chat sender, cached for a time that depends on the
-- status.
pub mod Truth
pub mod Coherence
pub mod Logins
pub mod Calm
use chzzk_djclass_chat.Base.{
  ℕ, ◌*◌, Bool, true, false, Option, none, some, List, [], ◌∷◌, map, if◌then◌else◌,
}
use chzzk_djclass_chat.Base.Int.{pos}
use chzzk_djclass_chat.Base.Text.{Text, text_eq}
use chzzk_djclass_chat.Djclass
use chzzk_djclass_chat.Djclass.{Row, auto, viewer, build_badge}
use chzzk_djclass_chat.Env.{
  Status, linked, unsynced, unlinked, BadgeResult, M, pure, ◌>>=◌, ◌>>◌, query, cache_get,
  cache_set,
}
use chzzk_djclass_chat.Store.{
  User, DjClass, Tables, user_by_chzzk_id, has_active_link, list_dj_classes,
}

abbrev pub second : ℕ
second = 1000000000

unfoldable pub ttl : Status → ℕ
ttl linked = 300 * second
ttl unsynced = 15 * second
ttl unlinked = 10 * second

unfoldable pub to_row : DjClass → Row
to_row c = record { button = c.button; class = c.dj_class; conversion = c.dj_power_conversion }

-- A result with no badge.
abbrev pub plain : Status → BadgeResult
plain s = record { status = s; badge = none }

-- `Row{}`
abbrev pub zero_row : Row
zero_row = record { button = pos 0; class = []; conversion = none }

abbrev pub row_of : Option Row → Row
row_of none = zero_row
row_of (some r) = r

-- The end of `resolve`, from the stored classes on.
unfoldable pub classify : User → List DjClass → BadgeResult
unfolding to_row
classify user stored =
    let rows = map to_row stored in
    elim (Djclass.resolve rows none auto) [
      | none ↦ plain unsynced
      | some best ↦ record {
        status = linked;
        badge = some (record {
          auto = build_badge best;
          viewer = build_badge (row_of (Djclass.resolve rows user.preferred_button viewer));
        });
      }
    ]

-- `resolve` once the link is known.
unfoldable pub resolve_active : User → Bool → M BadgeResult
unfolding classify
resolve_active user false = pure (plain unlinked)
resolve_active user true = do
  stored ← query (λ t. list_dj_classes user.id t.classes)
  pure (classify user stored)

-- `resolve` once the user is known.
unfoldable pub resolve_found : Option User → M BadgeResult
unfolding resolve_active
resolve_found none = pure (plain unlinked)
resolve_found (some user) = do
  active ← query (λ t. has_active_link user.id t.links)
  resolve_active user active

-- The source's unexported `resolve`.
unfoldable pub resolve_stored : Text → M BadgeResult
unfolding resolve_found
resolve_stored sender = do found ← query (λ t. user_by_chzzk_id sender t.users); resolve_found found

-- `Resolve` once the cache has been read.
unfoldable pub resolve_missed : Text → Option BadgeResult → M BadgeResult
unfolding resolve_stored ttl
resolve_missed sender (some r) = pure r
resolve_missed sender none = do r ← resolve_stored sender; cache_set sender r (ttl r.status); pure r

unfoldable pub resolve : Text → M BadgeResult
unfolding resolve_missed
resolve sender =
    if text_eq sender []
    then pure (plain unlinked)
    else do hit ← cache_get sender; resolve_missed sender hit
