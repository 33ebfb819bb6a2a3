-- ===== src/Link/Rows.antt =====
-- The statements of internal/link/link.go about one user change the rows of that user alone.
use chzzk_djclass_chat.Base.{ℕ, ◌≡◌, refl, subst, true, Option, none, some, List, [], ◌∷◌, arith}
use mathlib.Core.Option.{some-injective}
use chzzk_djclass_chat.Base.Int.{ℤ}
use chzzk_djclass_chat.Env.{Env, exec}
use chzzk_djclass_chat.Link.{
  VaClass, to_dj_class, clear_classes, drop_link, upsert_all, replace_classes, unlink_rows,
}
use chzzk_djclass_chat.Link.Commits.{
  Only, Only-of_queries, Confined, exec-Confined, continue-Confined, Only-refl,
}
use chzzk_djclass_chat.Store.{
  Tables, upsert_dj_class, put_dj_class, write_preferred, set_preferred_button,
}
use chzzk_djclass_chat.Store.Frames.{
  list-delete_other, list-put_other, active-deactivate_other, user-write_preferred,
  idents-write_preferred,
}

clear_classes-Confined : (i : ℕ) (e : Env) → Confined i e (clear_classes i e)
unfolding clear_classes
clear_classes-Confined i e = exec-Confined i _ e λ t h.
    subst (Only i e.tables) (some-injective _ t h) (
      Only-of_queries i e.tables _ refl (λ k f. refl) (λ j d. refl)
        (λ j d. list-delete_other i j d e.tables.classes))

upsert-Only :
    (i : ℕ) (c : VaClass) (t u : Tables) → upsert_dj_class (to_dj_class i c) t ≡ some u → Only i t u
unfolding upsert_dj_class to_dj_class
upsert-Only i c t u h =
    let e : record t { classes = put_dj_class (to_dj_class i c) t.classes } ≡ u = ground arith in
    subst (Only i t) e (
      Only-of_queries i t _ refl (λ k f. refl) (λ j d. refl)
        (λ j d. list-put_other i j d (to_dj_class i c) t.classes refl))

upsert_all-Confined : (i : ℕ) (cs : List VaClass) (e : Env) → Confined i e (upsert_all i cs e)
unfolding upsert_all
upsert_all-Confined i [] e = record {
  cache_same = refl;
  now_same = refl;
  only = Only-refl i e.tables;
}
upsert_all-Confined i (c ∷ cs) e =
    continue-Confined i e (exec (upsert_dj_class (to_dj_class i c)) e) (λ _. upsert_all i cs)
      (exec-Confined i (upsert_dj_class (to_dj_class i c)) e (upsert-Only i c e.tables))
      (λ _. upsert_all-Confined i cs _)

pub replace_classes-Confined :
    (i : ℕ) (cs : List VaClass) (e : Env) → Confined i e (replace_classes i cs true e)
unfolding replace_classes
replace_classes-Confined i cs e =
    continue-Confined i e (clear_classes i e) (λ _. upsert_all i cs) (clear_classes-Confined i e)
      (λ _. upsert_all-Confined i cs _)

pub prefer-Only :
    (i : ℕ) (b : Option ℤ) (t u : Tables) → set_preferred_button i b t ≡ some u → Only i t u
unfolding set_preferred_button
prefer-Only i b t u h =
    let e : record t { users = write_preferred i b t.users } ≡ u = ground arith in
    subst (Only i t) e (
      Only-of_queries i t _ (idents-write_preferred i b t.users)
        (λ k f. user-write_preferred i b k t.users f) (λ j d. refl) (λ j d. refl))

pub unlink_rows-Confined : (i : ℕ) (e : Env) → Confined i e (unlink_rows i true e)
unfolding unlink_rows drop_link
unlink_rows-Confined i e =
    continue-Confined i e (drop_link i e) _
      (exec-Confined i _ e λ t h. subst (Only i e.tables) (some-injective _ t h) (
        Only-of_queries i e.tables _ refl (λ k f. refl)
          (λ j d. active-deactivate_other i j d e.tables.links) (λ j d. refl)))
      λ _.
        continue-Confined i _ (clear_classes i _) _ (clear_classes-Confined i _)
          λ _. exec-Confined i (set_preferred_button i none) _ (prefer-Only i none _)
