-- ===== src/Store/Consistent.antt =====
-- The constraints of migrations/00001_init.sql that the queries of internal/store rely on, and
-- what the statements of a login keep.
use chzzk_djclass_chat.Base.{
  ℕ, ◌<◌, ◌≡◌, ◌≢◌, refl, sym, ap, ◌∙◌, inl, inr, none, some, List, [], ◌∷◌, ◌++◌, ◌==◌, All,
  All-map, All-both, All-append, subst, arith, Bool-cases, Option-cases, ==_refl,
}
use chzzk_djclass_chat.Base.Text.{Text, text_eq, text_eq_iff}
use chzzk_djclass_chat.Store.{User, Tables, user_by_chzzk_id, user_by_id, active_link}
use chzzk_djclass_chat.Store.Accounts.{next_id, rename, upsert_user}
use chzzk_djclass_chat.Store.Frames.{idents}

-- `id` is the primary key and `chzzk_id` is UNIQUE.
abbrev pub IsApart : ℕ × Text → ℕ × Text → Type 0
IsApart p q = (q.0 ≢ p.0) × (q.1 ≢ p.1)

abbrev pub AllApart : List (ℕ × Text) → Type 0
AllApart [] = Unit
AllApart (p ∷ ps) = All (IsApart p) ps × AllApart ps

abbrev pub NoId : ℕ → List (ℕ × Text) → Type 0
NoId i = All (λ p. p.0 ≢ i)

pub record Consistent (t : Tables) : Type 0 where
  pub apart : AllApart (idents t.users)
  -- A rowid that SQLite gives is positive, and 0 in a session means no user.
  pub positive : NoId 0 (idents t.users)
  -- A link refers to a user.
  pub owned : (i : ℕ) → NoId i (idents t.users) → active_link i t.links ≡ none

-- A user found by id is the only one with the id and the Chzzk id.
pub found-apart :
    (i : ℕ) (us : List User) (u : User)
    → AllApart (idents us)
    → user_by_id i us ≡ some u
    → (u.id ≡ i) × All (λ p. p.0 ≡ i → p.1 ≡ u.chzzk_id) (idents us)
unfolding user_by_id
found-apart i [] u d h = cc
found-apart i (v ∷ us) u d h = elim (Bool-cases (v.id == i)) [
  | inl e ↦
      let same : v ≡ u = ground arith in
      (
        ground arith,
        (
          (λ k. ap (λ w. w.chzzk_id) same),
          All-map (IsApart (v.id, v.chzzk_id)) (λ p. p.0 ≡ i → p.1 ≡ u.chzzk_id) (idents us)
              (λ p a k. absurd (a.0 (ground arith))) d.0,
        ),
      )
  | inr e ↦
      let (j, rest) = found-apart i us u d.1 (ground arith) in (j, ((λ k. ground arith), rest))
]

pub idents-rename : (k n : Text) (us : List User) → idents (rename k n us) ≡ idents us
unfolding rename
idents-rename k n [] = refl
idents-rename k n (u ∷ us) = ground (arith, idents-rename k n us)

idents-append :
    (us : List User) (v : User) → idents (us ++ v ∷ []) ≡ idents us ++ (v.id, v.chzzk_id) ∷ []
idents-append [] v = refl
idents-append (u ∷ us) v = ap (◌∷◌ (u.id, u.chzzk_id)) (idents-append us v)

next_id-pos : (us : List User) → 0 < next_id us
unfolding next_id
next_id-pos [] = omega arith
next_id-pos (u ∷ us) = ground (arith, next_id-pos us)

next_id-lt : (us : List User) → All (λ p. p.0 < next_id us) (idents us)
unfolding next_id
next_id-lt [] = tt
next_id-lt (u ∷ us) = (
  ground arith,
  All-map (λ p. p.0 < next_id us) (λ p. p.0 < next_id (u ∷ us)) (idents us) (λ p h. ground arith)
      (next_id-lt us),
)

-- A Chzzk id that is not found is no user's.
unknown :
    (k : Text) (us : List User) → user_by_chzzk_id k us ≡ none → All (λ p. p.1 ≢ k) (idents us)
unfolding user_by_chzzk_id
unknown k [] h = tt
unknown k (u ∷ us) h = elim (Bool-cases (text_eq u.chzzk_id k)) [
  | inl e ↦ absurd (ground arith)
  | inr e ↦ ((λ s. ground (arith, text_eq_iff u.chzzk_id k)), unknown k us (ground arith))
]

AllApart-append :
    (ps : List (ℕ × Text)) (q : ℕ × Text)
    → AllApart ps
    → All (λ p. IsApart p q) ps
    → AllApart (ps ++ q ∷ [])
AllApart-append [] q d h = (tt, tt)
AllApart-append (p ∷ ps) q d h =
    (All-append (IsApart p) ps (q ∷ []) d.0 (h.0, tt), AllApart-append ps q d.1 h.1)

-- The id of a new user is no user's, and no link's.
pub fresh_id : (us : List User) → NoId (next_id us) (idents us)
fresh_id us =
    All-map (λ p. p.0 < next_id us) (λ p. p.0 ≢ next_id us) (idents us) (λ p h e. omega arith)
      (next_id-lt us)

added-Consistent :
    (t : Tables) (u : User)
    → Consistent t
    → u.id ≡ next_id t.users
    → user_by_chzzk_id u.chzzk_id t.users ≡ none
    → Consistent (record t { users = t.users ++ u ∷ [] })
added-Consistent t u c i h = record {
  apart = rw (idents-append t.users u) (
      AllApart-append (idents t.users) (u.id, u.chzzk_id) c.apart
        (All-both (λ p. p.0 < next_id t.users) (λ p. p.1 ≢ u.chzzk_id) _ (idents t.users)
          (λ p a b. ((λ e. omega arith), (λ e. b (sym e)))) (next_id-lt t.users)
          (unknown u.chzzk_id t.users h)));
  positive = rw (idents-append t.users u) (
      All-append (λ p. p.0 ≢ 0) (idents t.users) ((u.id, u.chzzk_id) ∷ []) c.positive
        ((λ e. omega (arith, next_id-pos t.users)), tt));
  owned =
      λ j n. c.owned j (All-init j (idents t.users) _ (subst (NoId j) (idents-append t.users u) n));
}
  where
    All-init : (j : ℕ) (ps qs : List (ℕ × Text)) → NoId j (ps ++ qs) → NoId j ps
    All-init j [] qs a = tt
    All-init j (p ∷ ps) qs a = (a.0, All-init j ps qs a.1)

-- `UpsertUser` keeps the constraints.
pub upsert_user-Consistent :
    (k n : Text) (t : Tables) → Consistent t → Consistent (upsert_user k n t).1
unfolding upsert_user
upsert_user-Consistent k n t c = elim (Option-cases (user_by_chzzk_id k t.users)) [
  | inl h ↦ rw (h, upsert_user) (added-Consistent t _ c refl h)
  | inr (u, h) ↦
      rw (h, upsert_user)
        (record {
          apart = rw (idents-rename k n t.users) c.apart;
          positive = rw (idents-rename k n t.users) c.positive;
          owned = λ j n'. c.owned j (subst (NoId j) (idents-rename k n t.users) n');
        })
]

pub found-exists :
    (i : ℕ) (us : List User) (u : User) → user_by_id i us ≡ some u → ¬ NoId i (idents us)
unfolding user_by_id
found-exists i [] u h n = cc
found-exists i (v ∷ us) u h n = elim (Bool-cases (v.id == i)) [
  | inl e ↦ n.0 (ground arith)
  | inr e ↦ found-exists i us u (ground arith) n.1
]

pub other_id :
    (i j : ℕ) (us : List User) (u : User) → user_by_id j us ≡ some u → NoId i (idents us) → i ≢ j
other_id i j us u h n e = found-exists j us u h (subst (λ k. NoId k (idents us)) e n)

-- Where Chzzk ids and ids are apart, a user found by the one is found by the other.
pub found_by_id :
    (k : Text) (us : List User) (u : User)
    → AllApart (idents us)
    → user_by_chzzk_id k us ≡ some u
    → (user_by_id u.id us ≡ some u) × (u.chzzk_id ≡ k)
unfolding user_by_chzzk_id user_by_id
found_by_id k [] u d h = cc
found_by_id k (v ∷ us) u d h = elim (Bool-cases (text_eq v.chzzk_id k)) [
  | inl e ↦
      let same : v ≡ u = ground arith in
      (
        rw (← same) (rw (==_refl v.id) refl),
        ap (λ (w : User). w.chzzk_id) (sym same) ∙ (text_eq_iff v.chzzk_id k).0 e,
      )
  | inr e ↦
      let (there, key) = found_by_id k us u d.1 (ground arith) in
      (
        ground (
          arith,
          other_id v.id u.id us u there
              (All-map (IsApart (v.id, v.chzzk_id)) (λ p. p.0 ≢ v.id) (idents us) (λ p a. a.0) d.0),
        ),
        key,
      )
]
