-- ===== src/Realtime/Badges/Syncs.antt =====
-- From a sync of internal/link/link.go to the next flush of internal/realtime/hub.go.
use chzzk_djclass_chat.Base.{
  ℕ, ◌≡◌, ◌≢◌, refl, ap, ◌∙◌, inl, inr, true, false, some, List, [], ◌∷◌, map, any_of, arith, ◌==◌,
  Bool-cases, if◌then◌else◌,
}
use mathlib.Core.Path.{fun_ext}
use chzzk_djclass_chat.Base.Text.{Text, text_eq, text_eq_iff}
use chzzk_djclass_chat.Env.{Env, BadgeResult, unlinked}
use chzzk_djclass_chat.Link.{VaClass, to_dj_class, sync}
use chzzk_djclass_chat.Link.Commits.{same_truth}
use chzzk_djclass_chat.Link.Safety.{Owns, owned-Foreign, sync-Safe}
use chzzk_djclass_chat.Realtime.Badges.{badge_batch}
use chzzk_djclass_chat.Realtime.Badges.Truth.{shown, badge_batch-number}
use chzzk_djclass_chat.Realtime.Batch.{ChatMessage, capped}
use chzzk_djclass_chat.Realtime.Batch.Laws.{number}
use chzzk_djclass_chat.Resolver.{plain, classify}
use chzzk_djclass_chat.Resolver.Coherence.{Coherent}
use chzzk_djclass_chat.Resolver.Truth.{truth, truth_found, truth_active}
use chzzk_djclass_chat.Store.{
  User, VarchiveLink, Tables, user_by_chzzk_id, active_link, has_active_link, has_user,
  list_dj_classes,
}
use chzzk_djclass_chat.Varchive.{Http, all_dj_classes, client}
use chzzk_djclass_chat.Varchive.Syncs.{IsSynced, sync-IsSynced}

found-has_user :
    (k : Text) (us : List User) (u : User)
    → user_by_chzzk_id k us ≡ some u
    → any_of (λ (v : User). v.id == u.id) us ≡ true
unfolding user_by_chzzk_id
found-has_user k [] u h = cc
found-has_user k (v ∷ us) u h = elim (Bool-cases (text_eq v.chzzk_id k)) [
  | inl e ↦ ground (arith, h, e)
  | inr e ↦ let rest = found-has_user k us u (ground (arith, h, e)) in ground (arith, rest)
]

-- What the tables say of a user with an active link.
linked-truth :
    (t : Tables) (u : User) (l : VarchiveLink)
    → user_by_chzzk_id u.chzzk_id t.users ≡ some u
    → active_link u.id t.links ≡ some l
    → truth t u.chzzk_id ≡ classify u (list_dj_classes u.id t.classes)
unfolding truth truth_found truth_active has_active_link
linked-truth t u l h a = rw (h, truth_found) (rw (a, has_active_link) refl)

-- What a message shows once the user's classes have been fetched: the new badge, and for the other
-- senders what it showed before.
abbrev pub renewed : Tables → User → List VaClass → Text → BadgeResult
renewed t u cs k =
    if text_eq k u.chzzk_id then classify u (map (to_dj_class u.id) cs) else shown t k

module _ (http : Http) (u : User) (l : VarchiveLink) (e : Env) (calm : e.faults ≡ [])
    (c : Coherent e) (named : u.chzzk_id ≢ []) (owns : Owns e.tables u)
    (stored : user_by_chzzk_id u.chzzk_id e.tables.users ≡ some u)
    (active : active_link u.id e.tables.links ≡ some l)
    (fetched : all_dj_classes http l.varchive_nickname ≢ []) where
  synced : IsSynced u (all_dj_classes http l.varchive_nickname) e.tables (sync (client http) u e)
  unfolding has_user
  synced =
      sync-IsSynced http u l e calm c.cache_inv (found-has_user u.chzzk_id e.tables.users u stored)
        active fetched

  own_truth :
      truth (sync (client http) u e).1.tables u.chzzk_id
      ≡ classify u (map (to_dj_class u.id) (all_dj_classes http l.varchive_nickname))
  own_truth =
      let t = (sync (client http) u e).1.tables in
      linked-truth t u l (ap (user_by_chzzk_id u.chzzk_id) synced.users_kept ∙ stored)
        (ap (active_link u.id) synced.links_kept ∙ active)
      ∙ ap (classify u) synced.stored

  shown_after :
      (k : Text)
      → shown (sync (client http) u e).1.tables k
        ≡ renewed e.tables u (all_dj_classes http l.varchive_nickname) k
  unfolding shown
  shown_after k = elim (Bool-cases (text_eq k u.chzzk_id)) [
    | inl h ↦
        let same = (text_eq_iff k u.chzzk_id).0 h in
        let here : text_eq k [] ≡ false = ground (arith, text_eq_iff k [], named, same) in
        rw (h) (rw here (ap (truth (sync (client http) u e).1.tables) same ∙ own_truth))
    | inr h ↦ rw (h) (
        ap (λ r. if text_eq k [] then plain unlinked else r)
          (same_truth u.id e.tables (sync (client http) u e).1.tables k
            (sync-Safe u (client http) e c owns).only
            (owned-Foreign e.tables u k owns (λ s. ground (arith, text_eq_iff k u.chzzk_id)))))
  ]

  -- While no call of the database fails: after a sync, through the client of V-ARCHIVE, of a stored
  -- viewer whose link is active, over a coherent cache and with a class fetched for some button
  -- mode, each message of the next flush from that viewer shows the badge of the fetched classes,
  -- whatever was cached, and each from another sender what the tables said of that sender before.
  pub sync-badge_batch :
      (last : ℕ) (raw : List ChatMessage)
      → (badge_batch last raw (sync (client http) u e).1).0
        ≡ number last (renewed e.tables u (all_dj_classes http l.varchive_nickname)) (capped raw)
  sync-badge_batch last raw =
      badge_batch-number (sync (client http) u e).1 last raw
        (sync-Safe u (client http) e c owns).coherent synced.calm
      ∙ ap (λ f. number last f (capped raw)) (fun_ext shown_after)
