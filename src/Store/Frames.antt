-- ===== src/Store/Frames.antt =====
-- The queries of internal/store about one user do not see the writes about another.
use chzzk_djclass_chat.Base.{
  ℕ, ◌≡◌, ◌≢◌, refl, Option, none, some, List, [], ◌∷◌, All, arith, inl, inr, Bool-cases,
}
use chzzk_djclass_chat.Base.Int.{ℤ}
use chzzk_djclass_chat.Base.Text.{Text, text_eq, text_eq_iff}
use chzzk_djclass_chat.Store.{
  User, VarchiveLink, DjClass, user_by_chzzk_id, active_link, list_dj_classes, delete_dj_classes,
  put_dj_class, put_link, deactivate_link, write_preferred,
}

-- What identifies a user; no statement changes it.
abbrev pub idents : List User → List (ℕ × Text)
idents [] = []
idents (u ∷ us) = (u.id, u.chzzk_id) ∷ idents us

-- No user with the Chzzk id has this id.
abbrev pub Foreign : ℕ → Text → List (ℕ × Text) → Type 0
Foreign i k = All (λ p. p.1 ≡ k → p.0 ≢ i)

module _ (i j : ℕ) (other : j ≢ i) where
  pub list-delete_other :
      (cs : List DjClass) → list_dj_classes j (delete_dj_classes i cs) ≡ list_dj_classes j cs
  unfolding list_dj_classes delete_dj_classes
  list-delete_other [] = refl
  list-delete_other (c ∷ cs) = ground (arith, list-delete_other cs)

  pub list-put_other :
      (c : DjClass) (cs : List DjClass)
      → c.user_id ≡ i
      → list_dj_classes j (put_dj_class c cs) ≡ list_dj_classes j cs
  unfolding list_dj_classes put_dj_class
  list-put_other c [] h = ground arith
  list-put_other c (d ∷ ds) h = ground (arith, list-put_other c ds h)

  pub active-put_other :
      (l : VarchiveLink) (ls : List VarchiveLink)
      → l.user_id ≡ i
      → active_link j (put_link l ls) ≡ active_link j ls
  unfolding active_link put_link
  active-put_other l [] h = ground arith
  active-put_other l (k ∷ ks) h = ground (arith, active-put_other l ks h)

  pub active-deactivate_other :
      (ls : List VarchiveLink) → active_link j (deactivate_link i ls) ≡ active_link j ls
  unfolding active_link deactivate_link
  active-deactivate_other [] = refl
  active-deactivate_other (l ∷ ls) = ground (arith, active-deactivate_other ls)

pub active-deactivate_self :
    (i : ℕ) (ls : List VarchiveLink) → active_link i (deactivate_link i ls) ≡ none
unfolding active_link deactivate_link
active-deactivate_self i [] = refl
active-deactivate_self i (l ∷ ls) = ground (arith, active-deactivate_self i ls)

pub list-delete_self : (i : ℕ) (cs : List DjClass) → list_dj_classes i (delete_dj_classes i cs) ≡ []
unfolding list_dj_classes delete_dj_classes
list-delete_self i [] = refl
list-delete_self i (c ∷ cs) = ground (arith, list-delete_self i cs)

pub user-write_preferred :
    (i : ℕ) (b : Option ℤ) (k : Text) (us : List User)
    → Foreign i k (idents us)
    → user_by_chzzk_id k (write_preferred i b us) ≡ user_by_chzzk_id k us
unfolding user_by_chzzk_id write_preferred
user-write_preferred i b k [] f = refl
user-write_preferred i b k (u ∷ us) f =
    ground (arith, text_eq_iff u.chzzk_id k, f.0, user-write_preferred i b k us f.1)

pub idents-write_preferred :
    (i : ℕ) (b : Option ℤ) (us : List User) → idents (write_preferred i b us) ≡ idents us
unfolding write_preferred
idents-write_preferred i b [] = refl
idents-write_preferred i b (u ∷ us) = ground (arith, idents-write_preferred i b us)

-- A user found by a Chzzk id that is foreign to an id has another id.
pub found_other :
    (i : ℕ) (k : Text) (us : List User) (u : User)
    → user_by_chzzk_id k us ≡ some u
    → Foreign i k (idents us)
    → u.id ≢ i
unfolding user_by_chzzk_id
found_other i k [] u h f = cc
found_other i k (v ∷ us) u h f = elim (Bool-cases (text_eq v.chzzk_id k)) [
  | inl e ↦ λ same. f.0 ((text_eq_iff v.chzzk_id k).0 e) (ground arith)
  | inr e ↦ found_other i k us u (ground arith) f.1
]
