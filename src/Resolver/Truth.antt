-- ===== src/Resolver/Truth.antt =====
-- What internal/resolver/resolver.go computes from the tables when no call of the database fails.
use chzzk_djclass_chat.Base.{◌≡◌, ◌∙◌, Bool, true, false, Option, none, some}
use chzzk_djclass_chat.Base.Text.{Text}
use chzzk_djclass_chat.Env.{Env, BadgeResult, unlinked, query}
use chzzk_djclass_chat.Env.Laws.{Reads, query-Reads, pure-Reads, continue-Reads}
use chzzk_djclass_chat.Resolver.{plain, classify, resolve_active, resolve_found, resolve_stored}
use chzzk_djclass_chat.Store.{User, Tables, user_by_chzzk_id, has_active_link, list_dj_classes}

-- The result for a user: unlinked without an active link, else by the stored classes.
unfoldable pub truth_active : Tables → User → Bool → BadgeResult
truth_active t user false = plain unlinked
truth_active t user true = classify user (list_dj_classes user.id t.classes)

unfoldable pub truth_found : Tables → Option User → BadgeResult
truth_found t none = plain unlinked
truth_found t (some user) = truth_active t user (has_active_link user.id t.links)

-- The result for a sender.
unfoldable pub truth : Tables → Text → BadgeResult
unfolding truth_found
truth t sender = truth_found t (user_by_chzzk_id sender t.users)

active-truth :
    (user : User) (active : Bool) (e : Env) (t : Tables)
    → e.tables ≡ t
    → Reads e (resolve_active user active e) (truth_active t user active)
unfolding resolve_active truth_active
active-truth user false e t h = pure-Reads (plain unlinked) e
active-truth user true e t h =
    continue-Reads e (query (λ t. list_dj_classes user.id t.classes) e) _
      (list_dj_classes user.id t.classes) _
      (rw (← h) (query-Reads (λ t. list_dj_classes user.id t.classes) e))
      λ g same. pure-Reads (classify user (list_dj_classes user.id t.classes)) g

found-truth :
    (found : Option User) (e : Env) (t : Tables)
    → e.tables ≡ t
    → Reads e (resolve_found found e) (truth_found t found)
unfolding resolve_found truth_found
found-truth none e t h = pure-Reads (plain unlinked) e
found-truth (some user) e t h =
    continue-Reads e (query (λ t. has_active_link user.id t.links) e) _
      (has_active_link user.id t.links) _
      (rw (← h) (query-Reads (λ t. has_active_link user.id t.links) e))
      λ g same. active-truth user (has_active_link user.id t.links) g t (same ∙ h)

-- Without the cache the resolver gives the truth or a failure of the database, and only reads.
pub resolve_stored-truth :
    (sender : Text) (e : Env) → Reads e (resolve_stored sender e) (truth e.tables sender)
unfolding resolve_stored truth
resolve_stored-truth sender e =
    continue-Reads e (query (λ t. user_by_chzzk_id sender t.users) e) _
      (user_by_chzzk_id sender e.tables.users) _
      (query-Reads (λ t. user_by_chzzk_id sender t.users) e)
      λ g same. found-truth (user_by_chzzk_id sender e.tables.users) g e.tables same
