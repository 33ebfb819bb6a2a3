-- ===== src/Resolver/Logins.antt =====
-- A login (internal/web/auth.go) writes a user and a channel; no badge of internal/resolver changes.
use chzzk_djclass_chat.Base.{
  ◌≡◌, refl, sym, ap, ◌∙◌, inl, inr, Bool, true, false, Option, none, some, List, [], ◌∷◌, ◌++◌,
  map, subst, arith, Bool-cases, Option-cases, if◌then◌else◌,
}
use chzzk_djclass_chat.Base.Text.{Text, text_eq}
use chzzk_djclass_chat.Djclass
use chzzk_djclass_chat.Resolver.{to_row, classify}
use chzzk_djclass_chat.Resolver.Truth.{truth, truth_found, truth_active}
use chzzk_djclass_chat.Store.{
  User, DjClass, Channel, Tables, user_by_chzzk_id, has_active_link, list_dj_classes,
}
use chzzk_djclass_chat.Store.Accounts.{next_id, rename, upsert_user, upsert_channel, put_channel}
use chzzk_djclass_chat.Store.Lawful.{Lawful, upsert_user-Lawful, upsert_channel-Lawful}
use chzzk_djclass_chat.Store.Consistent.{Consistent, upsert_user-Consistent, fresh_id}

-- A change that keeps the constraints and every badge.
pub record Unseen (t u : Tables) : Type 0 where
  pub constraints : Consistent t → Consistent u
  pub same_law : Lawful t → Lawful u
  pub same_truth : Consistent t → (k : Text) → truth u k ≡ truth t k

pub Unseen-refl : (t : Tables) → Unseen t t
Unseen-refl t = record { constraints = λ c. c; same_law = λ l. l; same_truth = λ c k. refl }

pub Unseen-trans : (t u v : Tables) → Unseen t u → Unseen u v → Unseen t v
Unseen-trans t u v p q = record {
  constraints = λ c. q.constraints (p.constraints c);
  same_law = λ l. q.same_law (p.same_law l);
  same_truth = λ c k. q.same_truth (p.constraints c) k ∙ p.same_truth c k;
}

-- The same user but for the nickname.
abbrev IsAlike : Option User → Option User → Type 0
IsAlike none none = Unit
IsAlike none (some v) = ⊥
IsAlike (some u) none = ⊥
IsAlike (some u) (some v) = (v.id ≡ u.id) × (v.preferred_button ≡ u.preferred_button)

IsAlike-refl : (o : Option User) → IsAlike o o
IsAlike-refl none = tt
IsAlike-refl (some u) = (refl, refl)

rename-IsAlike :
    (k n q : Text) (us : List User)
    → IsAlike (user_by_chzzk_id q us) (user_by_chzzk_id q (rename k n us))
unfolding rename user_by_chzzk_id
rename-IsAlike k n q [] = tt
rename-IsAlike k n q (u ∷ us) = elim (Bool-cases (text_eq u.chzzk_id k)) [
  | inl e ↦ rw e (elim (Bool-cases (text_eq u.chzzk_id q)) [
    | inl f ↦ rw f (refl, refl)
    | inr f ↦ rw f (IsAlike-refl (user_by_chzzk_id q us))
  ])
  | inr e ↦ rw e (elim (Bool-cases (text_eq u.chzzk_id q)) [
    | inl f ↦ rw f (refl, refl)
    | inr f ↦ rw f (rename-IsAlike k n q us)
  ])
]

classify-alike :
    (u v : User) (rows : List DjClass)
    → v.preferred_button ≡ u.preferred_button
    → classify v rows ≡ classify u rows
unfolding classify
classify-alike u v rows h =
    elim (Option-cases (Djclass.resolve (map to_row rows) none Djclass.auto)) [
      | inl none_best ↦ rw (none_best, classify) refl
      | inr (b, best) ↦ rw (best, classify) (rw h refl)
    ]

active-alike :
    (t : Tables) (u v : User) (active : Bool)
    → IsAlike (some u) (some v)
    → truth_active t v active ≡ truth_active t u active
unfolding truth_active
active-alike t u v false a = refl
active-alike t u v true a = simp (a.0) (classify-alike u v (list_dj_classes u.id t.classes) a.1)

same_active :
    (s t : Tables) (u : User) (active : Bool)
    → s.classes ≡ t.classes
    → truth_active s u active ≡ truth_active t u active
unfolding truth_active
same_active s t u false k = refl
same_active s t u true k = ap (λ cs. classify u (list_dj_classes u.id cs)) k

alike-truth : (t : Tables) (o p : Option User) → IsAlike o p → truth_found t p ≡ truth_found t o
unfolding truth_found
alike-truth t none none a = refl
alike-truth t none (some v) a = absurd a
alike-truth t (some u) none a = absurd a
alike-truth t (some u) (some v) a = simp (a.0) (active-alike t u v (has_active_link u.id t.links) a)

pub find-append :
    (q : Text) (us : List User) (v : User)
    → user_by_chzzk_id q (us ++ v ∷ []) ≡ (elim (user_by_chzzk_id q us) [
      | none ↦ if text_eq v.chzzk_id q then some v else none
      | some u ↦ some u
    ])
unfolding user_by_chzzk_id
find-append q [] v = refl
find-append q (u ∷ us) v = ground (arith, find-append q us v)

-- The badge of a user that was found is read from the links and the classes.
same_rows :
    (s t : Tables) (o : Option User)
    → s.links ≡ t.links
    → s.classes ≡ t.classes
    → truth_found s o ≡ truth_found t o
unfolding truth_found
same_rows s t none h k = refl
same_rows s t (some u) h k = simp h (same_active s t u (has_active_link u.id t.links) k)

-- A new user has no link, so the badge is the one of a sender who is no user.
added-truth :
    (t : Tables) (v : User) (q : Text)
    → has_active_link v.id t.links ≡ false
    → truth_found t (user_by_chzzk_id q (t.users ++ v ∷ []))
      ≡ truth_found t (user_by_chzzk_id q t.users)
unfolding truth_found truth_active
added-truth t v q h =
    rw (find-append q t.users v) (elim (Option-cases (user_by_chzzk_id q t.users)) [
      | inr (u, e) ↦ rw e refl
      | inl e ↦ rw e (elim (Bool-cases (text_eq v.chzzk_id q)) [
        | inl f ↦ rw f (rw h refl)
        | inr f ↦ rw f refl
      ])
    ])

-- `UpsertUser` keeps the constraints and every badge.
pub upsert_user-Unseen : (k n : Text) (t : Tables) → Unseen t (upsert_user k n t).1
unfolding upsert_user truth has_active_link
upsert_user-Unseen k n t = record {
  constraints = upsert_user-Consistent k n t;
  same_law = λ l. upsert_user-Lawful t l k n;
  same_truth = λ c q. elim (Option-cases (user_by_chzzk_id k t.users)) [
    | inr (u, e) ↦
        rw (e, upsert_user)
          (same_rows _ t _ refl refl
            ∙ alike-truth t (user_by_chzzk_id q t.users) _ (rename-IsAlike k n q t.users))
    | inl e ↦
        rw (e, upsert_user)
          (same_rows _ t _ refl refl
            ∙ added-truth t _ q
                (rw (c.owned (next_id t.users) (fresh_id t.users), has_active_link) refl))
  ];
}

pub upsert_channel-Unseen : (c : Channel) (t u : Tables) → upsert_channel c t ≡ some u → Unseen t u
unfolding upsert_channel
upsert_channel-Unseen c t u h =
    let e : record t { channels = put_channel c t.channels } ≡ u = ground arith in
    subst (Unseen t) e (record {
      constraints = λ k. record { apart = k.apart; positive = k.positive; owned = k.owned };
      same_law = λ l. unfold upsert_channel in upsert_channel-Lawful t l c _ (h ∙ ap some (sym e));
      same_truth = λ k q. unfold truth in same_rows _ t (user_by_chzzk_id q t.users) refl refl;
    })
