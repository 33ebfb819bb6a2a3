-- ===== src/Link/Connects.antt =====
-- `Connect` of internal/link/link.go: the link is committed and the badge dropped before the first
-- sync, whose failure leaves the link.
use chzzk_djclass_chat.Base.{ℕ, ◌≡◌, refl, sym, subst, true, false, Option, some, arith}
use chzzk_djclass_chat.Base.Int.{ℤ}
use chzzk_djclass_chat.Base.Text.{Text}
use chzzk_djclass_chat.Effects.{Result, ok, err}
use chzzk_djclass_chat.Env.{Env, M, continue, ◌>>◌, exec, write_tx, invalidate_user}
use chzzk_djclass_chat.Link.{VaUser, VArchive, connect, connect_verified, sync_user}
use chzzk_djclass_chat.Link.Commits.{
  Only, Only-refl, Only-trans, Only-of_queries, Committed, exec-Confined, write_tx-Committed,
}
use chzzk_djclass_chat.Link.Safety.{Owns, Owns-kept, Safe, invalidate-Coherent, sync_classes-Safe}
use chzzk_djclass_chat.Resolver.Coherence.{Coherent}
use chzzk_djclass_chat.Store.{User, VarchiveLink, Tables, put_link, upsert_varchive_link}
use chzzk_djclass_chat.Store.Frames.{active-put_other}

link-Only :
    (i : ℕ) (nickname : Text) (user_no : Option ℤ) (t u : Tables)
    → upsert_varchive_link i nickname user_no t ≡ some u
    → Only i t u
unfolding upsert_varchive_link
link-Only i nickname user_no t u h =
    let l : VarchiveLink = record {
      user_id = i;
      varchive_nickname = nickname;
      varchive_user_no = user_no;
      is_active = true;
    } in
    let e : record t { links = put_link l t.links } ≡ u = ground arith in
    subst (Only i t) e (
      Only-of_queries i t _ refl (λ k f. refl) (λ j d. active-put_other i j d l t.links refl)
        (λ j d. refl))

-- A coherent environment in which the rows of user `i` alone have changed.
abbrev pub Kept : {A : Type 0} → ℕ → Env → Result A × Env → Type 0
Kept i e r = Coherent r.1 × Only i e.tables r.1.tables

then-Kept :
    {A B : Type 0} (u : User) (e : Env) (r : Result A × Env) (k : M B)
    → Coherent e
    → Owns e.tables u
    → Committed u.id e r
    → ((g : Env) → Coherent g → Owns g.tables u → Safe u.id g (k g))
    → Kept u.id e (continue r.0 (λ _. invalidate_user u.chzzk_id >> k) r.1)
then-Kept u e (err x, g) k c o w f = (
  record {
    cache_inv = rw (w.confined.cache_same) c.cache_inv;
    agree = rw (w.confined.cache_same, w.rolled_back x refl) c.agree;
  },
  w.confined.only,
)
then-Kept u e (ok a, g) k c o w f =
    let (h, done, coherent, same) =
      invalidate-Coherent u e g c o w.confined.cache_same w.confined.only in
    let only = subst (Only u.id e.tables) (sym same) w.confined.only in
    let s = f h coherent (Owns-kept u u.id e.tables h.tables only o) in
    rw done (s.coherent, Only-trans u.id e.tables h.tables _ only s.only)

module _ (va : VArchive) (u : User) where
  verified-Kept :
      (v : Result VaUser) (e : Env)
      → Coherent e
      → Owns e.tables u
      → Kept u.id e (connect_verified va u v e)
  unfolding connect_verified sync_user
  verified-Kept (err x) e c o = (c, Only-refl u.id e.tables)
  verified-Kept (ok v) e c o =
      then-Kept u e
        (write_tx false (λ ctx. exec (upsert_varchive_link u.id v.nickname (some v.user_no))) e) _ c
        o
        (write_tx-Committed u.id
          (λ ctx. exec (upsert_varchive_link u.id v.nickname (some v.user_no))) e
          (λ g.
            exec-Confined u.id (upsert_varchive_link u.id v.nickname (some v.user_no)) g
              (link-Only u.id v.nickname (some v.user_no) g.tables)))
        (λ g c' o'. sync_classes-Safe u (va.all_dj_classes v.nickname) g c' o')

  -- `Connect`, however it ends, keeps the cache coherent with the tables and changes the rows of
  -- that user alone, for a user who has the Chzzk id of the caller's copy.
  pub connect-Kept :
      (token : Text) (e : Env) → Coherent e → Owns e.tables u → Kept u.id e (connect va u token e)
  unfolding connect
  connect-Kept token e c o = verified-Kept (va.lookup_user token) e c o
