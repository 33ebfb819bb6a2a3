-- ===== src/Store/Rows.antt =====
-- The keys, the UNIQUE and the CHECK constraints of migrations/00001_init.sql on lists of rows, and
-- what the writes of internal/store keep of them.
use chzzk_djclass_chat.Base.{
  ℕ, ◌≡◌, ◌≢◌, sym, ◌∙◌, inl, inr, true, false, Option, none, some, List, [], ◌∷◌, ◌==◌, ◌&&◌,
  any_of, All, All-map, All-both, arith, Bool-cases,
}
use chzzk_djclass_chat.Base.Int.{ℤ, int_eq, int_eq_iff}
use chzzk_djclass_chat.Base.Text.{Text, text_eq, text_eq_iff}
use chzzk_djclass_chat.Store.{
  User, Channel, VarchiveLink, DjClass, is_button, put_dj_class, put_link, delete_dj_classes,
  deactivate_link, write_preferred,
}
use chzzk_djclass_chat.Store.Accounts.{rename, put_channel, is_taken}

-- A row is apart from every later one.
abbrev pub Pairwise : {A : Type 0} → (A → A → Type 0) → List A → Type 0
Pairwise R [] = Unit
Pairwise R (x ∷ xs) = All (R x) xs × Pairwise R xs

-- `UNIQUE (user_id)` and `UNIQUE (chzzk_channel_id)`
abbrev pub ChannelsApart : Channel → Channel → Type 0
ChannelsApart c d = (d.user_id ≢ c.user_id) × (d.chzzk_channel_id ≢ c.chzzk_channel_id)

-- `UNIQUE (user_id)`
abbrev pub LinksApart : VarchiveLink → VarchiveLink → Type 0
LinksApart k l = l.user_id ≢ k.user_id

-- `UNIQUE (user_id, button)`
abbrev pub ClassesApart : DjClass → DjClass → Type 0
ClassesApart c d = d.user_id ≡ c.user_id → d.button ≢ c.button

-- `CHECK (button IN (4, 5, 6, 8))`
abbrev pub IsPlayable : DjClass → Type 0
IsPlayable c = is_button c.button ≡ true

-- `CHECK (preferred_button IN (4, 5, 6, 8))`, or NULL.
abbrev pub IsAllowed : Option ℤ → Type 0
IsAllowed none = Unit
IsAllowed (some b) = is_button b ≡ true

module _ (P : Channel → Type 0) (c : Channel) (h : P c) where
  All-put_channel : (ds : List Channel) → All P ds → All P (put_channel c ds)
  unfolding put_channel
  All-put_channel [] a = (h, tt)
  All-put_channel (d ∷ ds) a = ground (arith, All-put_channel ds)

module _ (P : VarchiveLink → Type 0) (l : VarchiveLink) (h : P l) where
  All-put_link : (ks : List VarchiveLink) → All P ks → All P (put_link l ks)
  unfolding put_link
  All-put_link [] a = (h, tt)
  All-put_link (k ∷ ks) a = ground (arith, All-put_link ks)

module _ (P : DjClass → Type 0) (c : DjClass) (h : P c) where
  pub All-put_dj_class : (ds : List DjClass) → All P ds → All P (put_dj_class c ds)
  unfolding put_dj_class
  All-put_dj_class [] a = (h, tt)
  All-put_dj_class (d ∷ ds) a = ground (arith, All-put_dj_class ds)

pub All-delete :
    (P : DjClass → Type 0) (i : ℕ) (cs : List DjClass) → All P cs → All P (delete_dj_classes i cs)
unfolding delete_dj_classes
All-delete P i [] a = tt
All-delete P i (c ∷ cs) a = ground (arith, All-delete P i cs)

pub put_link-Pairwise :
    (l : VarchiveLink) (ks : List VarchiveLink)
    → Pairwise LinksApart ks
    → Pairwise LinksApart (put_link l ks)
unfolding put_link
put_link-Pairwise l [] p = (tt, tt)
put_link-Pairwise l (k ∷ ks) p = elim (Bool-cases (k.user_id == l.user_id)) [
  | inl e ↦
      let i : k.user_id ≡ l.user_id = ground arith in
      rw e (All-map (LinksApart k) (LinksApart l) ks (λ m h s. h (s ∙ sym i)) p.0, p.1)
  | inr e ↦
      rw e (All-put_link (LinksApart k) l (λ s. ground arith) ks p.0, put_link-Pairwise l ks p.1)
]

pub put_channel-Pairwise :
    (c : Channel) (ds : List Channel)
    → All (λ d. d.chzzk_channel_id ≡ c.chzzk_channel_id → d.user_id ≡ c.user_id) ds
    → Pairwise ChannelsApart ds
    → Pairwise ChannelsApart (put_channel c ds)
unfolding put_channel
put_channel-Pairwise c [] f p = (tt, tt)
put_channel-Pairwise c (d ∷ ds) f p = elim (Bool-cases (d.user_id == c.user_id)) [
  | inl e ↦
      let i : d.user_id ≡ c.user_id = ground arith in
      rw e (
        All-both (ChannelsApart d)
            (λ x. x.chzzk_channel_id ≡ c.chzzk_channel_id → x.user_id ≡ c.user_id) (ChannelsApart c)
            ds (λ x a b. ((λ s. a.0 (s ∙ sym i)), (λ s. a.0 (b s ∙ sym i)))) p.0 f.1,
        p.1,
      )
  | inr e ↦ rw e (
    All-put_channel (ChannelsApart d) c
        ((λ s. ground arith), (λ s. let i = f.0 (sym s) in ground arith)) ds p.0,
    put_channel-Pairwise c ds f.1 p.1,
  )
]

-- A channel that is not taken has no other user's Chzzk id.
pub free :
    (c : Channel) (ds : List Channel)
    → is_taken c ds ≡ false
    → All (λ d. d.chzzk_channel_id ≡ c.chzzk_channel_id → d.user_id ≡ c.user_id) ds
unfolding is_taken
free c [] h = tt
free c (d ∷ ds) h = (
  (λ s. ground (arith, text_eq_iff d.chzzk_channel_id c.chzzk_channel_id)),
  free c ds (ground arith),
)

pub put_dj_class-Pairwise :
    (c : DjClass) (ds : List DjClass)
    → Pairwise ClassesApart ds
    → Pairwise ClassesApart (put_dj_class c ds)
unfolding put_dj_class
put_dj_class-Pairwise c [] p = (tt, tt)
put_dj_class-Pairwise c (d ∷ ds) p =
    elim (Bool-cases (d.user_id == c.user_id && int_eq d.button c.button)) [
      | inl e ↦
          let i : d.user_id ≡ c.user_id = ground arith in
          let b : d.button ≡ c.button = ground (arith, int_eq_iff d.button c.button) in
          rw e (
            All-map (ClassesApart d) (ClassesApart c) ds (λ x h s t. h (s ∙ sym i) (t ∙ sym b)) p.0,
            p.1,
          )
      | inr e ↦ rw e (
        All-put_dj_class (ClassesApart d) c (λ s t. ground (arith, int_eq_iff d.button c.button)) ds
            p.0,
        put_dj_class-Pairwise c ds p.1,
      )
    ]

pub delete-Pairwise :
    (i : ℕ) (cs : List DjClass)
    → Pairwise ClassesApart cs
    → Pairwise ClassesApart (delete_dj_classes i cs)
unfolding delete_dj_classes
delete-Pairwise i [] p = tt
delete-Pairwise i (c ∷ cs) p = elim (Bool-cases (c.user_id == i)) [
  | inl e ↦ rw e (delete-Pairwise i cs p.1)
  | inr e ↦ rw e (All-delete (ClassesApart c) i cs p.0, delete-Pairwise i cs p.1)
]

All-deactivate :
    (i j : ℕ) (ls : List VarchiveLink)
    → All (λ l. l.user_id ≢ j) ls
    → All (λ l. l.user_id ≢ j) (deactivate_link i ls)
unfolding deactivate_link
All-deactivate i j [] a = tt
All-deactivate i j (l ∷ ls) a = elim (Bool-cases (l.user_id == i)) [
  | inl e ↦ rw e (a.0, All-deactivate i j ls a.1)
  | inr e ↦ rw e (a.0, All-deactivate i j ls a.1)
]

pub deactivate-Pairwise :
    (i : ℕ) (ls : List VarchiveLink)
    → Pairwise LinksApart ls
    → Pairwise LinksApart (deactivate_link i ls)
unfolding deactivate_link
deactivate-Pairwise i [] p = tt
deactivate-Pairwise i (l ∷ ls) p = elim (Bool-cases (l.user_id == i)) [
  | inl e ↦ rw e (All-deactivate i l.user_id ls p.0, deactivate-Pairwise i ls p.1)
  | inr e ↦ rw e (All-deactivate i l.user_id ls p.0, deactivate-Pairwise i ls p.1)
]

abbrev AllAllowed : List User → Type 0
AllAllowed = All (λ u. IsAllowed u.preferred_button)

pub write_preferred-AllAllowed :
    (i : ℕ) (b : Option ℤ) (us : List User)
    → (any_of (λ (u : User). u.id == i) us ≡ true → IsAllowed b)
    → AllAllowed us
    → AllAllowed (write_preferred i b us)
unfolding write_preferred
write_preferred-AllAllowed i b [] h a = tt
write_preferred-AllAllowed i b (u ∷ us) h a = elim (Bool-cases (u.id == i)) [
  | inl e ↦ rw e (h (ground arith), write_preferred-AllAllowed i b us (λ x. h (ground arith)) a.1)
  | inr e ↦ rw e (a.0, write_preferred-AllAllowed i b us (λ x. h (ground arith)) a.1)
]

pub rename-AllAllowed : (k n : Text) (us : List User) → AllAllowed us → AllAllowed (rename k n us)
unfolding rename
rename-AllAllowed k n [] a = tt
rename-AllAllowed k n (u ∷ us) a = elim (Bool-cases (text_eq u.chzzk_id k)) [
  | inl e ↦ rw e a
  | inr e ↦ rw e (a.0, rename-AllAllowed k n us a.1)
]
