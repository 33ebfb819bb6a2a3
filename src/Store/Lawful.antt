-- ===== src/Store/Lawful.antt =====
-- The keys, the UNIQUE and the CHECK constraints of migrations/00001_init.sql on the rows of the
-- channels, the links, the classes and the preferences; and that every statement keeps them.
use chzzk_djclass_chat.Base.{
  ℕ, ◌≡◌, inl, inr, true, false, Option, none, some, ◌==◌, any_of, All, All-append, subst, arith,
  Option-cases,
}
use chzzk_djclass_chat.Base.Int.{ℤ}
use chzzk_djclass_chat.Base.Text.{Text}
use chzzk_djclass_chat.Store.{
  User, Channel, VarchiveLink, DjClass, Tables, is_button, put_dj_class, put_link,
  delete_dj_classes, deactivate_link, write_preferred, may_prefer, has_user, user_by_chzzk_id,
  set_preferred_button, upsert_dj_class, upsert_varchive_link,
}
use chzzk_djclass_chat.Store.Accounts.{upsert_user, upsert_channel, put_channel, is_taken}
use chzzk_djclass_chat.Store.Rows.{
  Pairwise, ChannelsApart, LinksApart, ClassesApart, IsPlayable, IsAllowed, All-put_dj_class,
  All-delete, put_link-Pairwise, put_channel-Pairwise, free, put_dj_class-Pairwise, delete-Pairwise,
  deactivate-Pairwise, write_preferred-AllAllowed, rename-AllAllowed,
}

pub record Lawful (t : Tables) : Type 0 where
  pub channels_apart : Pairwise ChannelsApart t.channels
  pub links_apart : Pairwise LinksApart t.links
  pub classes_apart : Pairwise ClassesApart t.classes
  pub playable : All IsPlayable t.classes
  pub allowed : All (λ u. IsAllowed u.preferred_button) t.users

module _ (t : Tables) (law : Lawful t) where
  pub delete-Lawful : (i : ℕ) → Lawful (record t { classes = delete_dj_classes i t.classes })
  delete-Lawful i = record {
    channels_apart = law.channels_apart;
    links_apart = law.links_apart;
    classes_apart = delete-Pairwise i t.classes law.classes_apart;
    playable = All-delete IsPlayable i t.classes law.playable;
    allowed = law.allowed;
  }

  pub deactivate-Lawful : (i : ℕ) → Lawful (record t { links = deactivate_link i t.links })
  deactivate-Lawful i = record {
    channels_apart = law.channels_apart;
    links_apart = deactivate-Pairwise i t.links law.links_apart;
    classes_apart = law.classes_apart;
    playable = law.playable;
    allowed = law.allowed;
  }

  pub upsert_dj_class-Lawful : (c : DjClass) (u : Tables) → upsert_dj_class c t ≡ some u → Lawful u
  unfolding upsert_dj_class
  upsert_dj_class-Lawful c u h =
      let e : record t { classes = put_dj_class c t.classes } ≡ u = ground arith in
      let b : is_button c.button ≡ true = ground arith in
      subst Lawful e (record {
        channels_apart = law.channels_apart;
        links_apart = law.links_apart;
        classes_apart = put_dj_class-Pairwise c t.classes law.classes_apart;
        playable = All-put_dj_class IsPlayable c b t.classes law.playable;
        allowed = law.allowed;
      })

  pub upsert_varchive_link-Lawful :
      (i : ℕ) (n : Text) (user_no : Option ℤ) (u : Tables)
      → upsert_varchive_link i n user_no t ≡ some u
      → Lawful u
  unfolding upsert_varchive_link
  upsert_varchive_link-Lawful i n user_no u h =
      let l : VarchiveLink = record {
        user_id = i;
        varchive_nickname = n;
        varchive_user_no = user_no;
        is_active = true;
      } in
      let e : record t { links = put_link l t.links } ≡ u = ground arith in
      subst Lawful e (record {
        channels_apart = law.channels_apart;
        links_apart = put_link-Pairwise l t.links law.links_apart;
        classes_apart = law.classes_apart;
        playable = law.playable;
        allowed = law.allowed;
      })

  pub set_preferred_button-Lawful :
      (i : ℕ) (b : Option ℤ) (u : Tables) → set_preferred_button i b t ≡ some u → Lawful u
  unfolding set_preferred_button has_user may_prefer
  set_preferred_button-Lawful i b u h =
      let e : record t { users = write_preferred i b t.users } ≡ u = ground arith in
      subst Lawful e (record {
        channels_apart = law.channels_apart;
        links_apart = law.links_apart;
        classes_apart = law.classes_apart;
        playable = law.playable;
        allowed = write_preferred-AllAllowed i b t.users (permitted b h) law.allowed;
      })
    where
      permitted :
          (b : Option ℤ)
          → set_preferred_button i b t ≡ some u
          → any_of (λ (v : User). v.id == i) t.users ≡ true
          → IsAllowed b
      permitted none h x = tt
      permitted (some b) h x = ground arith

  pub upsert_user-Lawful : (k n : Text) → Lawful (upsert_user k n t).1
  unfolding upsert_user
  upsert_user-Lawful k n = elim (Option-cases (user_by_chzzk_id k t.users)) [
    | inl h ↦
        rw (h, upsert_user)
          (record {
            channels_apart = law.channels_apart;
            links_apart = law.links_apart;
            classes_apart = law.classes_apart;
            playable = law.playable;
            allowed = All-append (λ u. IsAllowed u.preferred_button) t.users _ law.allowed (tt, tt);
          })
    | inr (u, h) ↦
        rw (h, upsert_user)
          (record {
            channels_apart = law.channels_apart;
            links_apart = law.links_apart;
            classes_apart = law.classes_apart;
            playable = law.playable;
            allowed = rename-AllAllowed k n t.users law.allowed;
          })
  ]

  pub upsert_channel-Lawful : (c : Channel) (u : Tables) → upsert_channel c t ≡ some u → Lawful u
  unfolding upsert_channel
  upsert_channel-Lawful c u h =
      let e : record t { channels = put_channel c t.channels } ≡ u = ground arith in
      let f : is_taken c t.channels ≡ false = ground arith in
      subst Lawful e (record {
        channels_apart = put_channel-Pairwise c t.channels (free c t.channels f) law.channels_apart;
        links_apart = law.links_apart;
        classes_apart = law.classes_apart;
        playable = law.playable;
        allowed = law.allowed;
      })
