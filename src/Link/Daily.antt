-- ===== src/Link/Daily.antt =====
-- `SyncAll` of internal/link/link.go: the daily sync of every active link in turn.
use chzzk_djclass_chat.Base.{
  ℕ, suc, ◌+◌, ◌≤◌, ◌≡◌, ◌⊎◌, Bool, true, List, [], ◌∷◌, any_of, if◌then◌else◌,
}
use chzzk_djclass_chat.Base.Text.{Text}
use chzzk_djclass_chat.Effects.{Result, ok, err}
use chzzk_djclass_chat.Env.{Env, query, next_fault}
use chzzk_djclass_chat.Link.{VArchive, SyncResult, sync_user}
use chzzk_djclass_chat.Resolver.Coherence.{Coherent}
use chzzk_djclass_chat.Store.{User, list_active_links}
use chzzk_djclass_chat.Store.Frames.{idents}

-- The users synced, and those that failed.
abbrev pub Counts : Type 0
Counts = ℕ × ℕ

unfoldable pub tally : Result SyncResult → Counts → Counts
tally (err x) (success, failed) = (success, suc failed)
tally (ok r) (success, failed) = if r.done then (suc success, failed) else (success, suc failed)

module _ (va : VArchive) where
  -- The loop; the flags are what `ctx.Err()` says before each user.
  unfoldable pub sync_each : List (User × Text) → List Bool → Counts → Env → Counts × Env
  unfolding next_fault tally sync_user
  sync_each [] flags n e = (n, e)
  sync_each ((u, nickname) ∷ links) flags n e =
      let r = sync_user va u nickname e in
      let rest = sync_each links (next_fault flags).1 (tally r.0 n) r.1 in
      if (next_fault flags).0 then (n, e) else rest

  unfoldable pub sync_listed : Result (List (User × Text)) → List Bool → Env → Counts × Env
  unfolding sync_each
  sync_listed (err x) flags e = ((0, 0), e)
  sync_listed (ok links) flags e = sync_each links flags (0, 0) e

  unfoldable pub sync_all : List Bool → Env → Counts × Env
  unfolding sync_listed
  sync_all flags e =
      let r = query (λ t. list_active_links t.users t.links) e in sync_listed r.0 flags r.1

  -- After a batch over some users: the cache is coherent, the people are the same, and no user is
  -- counted twice; without cancellation each is counted.
  pub record Batched (e : Env) (users : ℕ) (flags : List Bool) (n : Counts) (r : Counts × Env)
      : Type 0 where
    pub coherent : Coherent r.1
    pub people : idents r.1.tables.users ≡ idents e.tables.users
    pub at_most : r.0.0 + r.0.1 ≤ n.0 + n.1 + users
    pub all_counted : (any_of (λ b. b) flags ≡ true) ⊎ (r.0.0 + r.0.1 ≡ n.0 + n.1 + users)
