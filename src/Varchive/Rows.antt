-- ===== src/Varchive/Rows.antt =====
-- Where the upserts of internal/link put the classes of internal/varchive among the user's rows.
use chzzk_djclass_chat.Base.{
  ℕ, ◌≡◌, refl, ap, ◌∙◌, inl, inr, true, false, ◌&&◌, List, [], ◌∷◌, ◌++◌, All, arith, ◌==◌, ==_iff,
  Bool-cases,
}
use chzzk_djclass_chat.Base.Int.{ℤ, int_eq, int_lt, int_eq_iff, int_lt_irrefl, int_lt_trans}
use chzzk_djclass_chat.Store.{
  DjClass, insert_by_button, list_dj_classes, delete_dj_classes, put_dj_class,
}

module _ (i : ℕ) where
  -- The user's rows are of smaller button modes.
  abbrev pub IsBelow : ℤ → DjClass → Type 0
  IsBelow b d = d.user_id ≡ i → int_lt d.button b ≡ true

  insert-append :
      (d c : DjClass) (l : List DjClass)
      → int_lt d.button c.button ≡ true
      → insert_by_button d (l ++ c ∷ []) ≡ insert_by_button d l ++ c ∷ []
  unfolding insert_by_button
  insert-append d c [] h = elim (Bool-cases (int_lt c.button d.button)) [
    | inl e ↦
        absurd (ground (arith, int_lt_trans d.button c.button d.button h e, int_lt_irrefl d.button))
    | inr e ↦ rw e refl
  ]
  insert-append d c (x ∷ l) h = ground (arith, insert-append d c l h)

  -- A row above the user's others goes to their end.
  pub list-put_above :
      (c : DjClass) (ds : List DjClass)
      → c.user_id ≡ i
      → All (IsBelow c.button) ds
      → list_dj_classes i (put_dj_class c ds) ≡ list_dj_classes i ds ++ c ∷ []
  unfolding list_dj_classes put_dj_class insert_by_button
  list-put_above c [] h below = ground arith
  list-put_above c (d ∷ ds) h below = elim (Bool-cases (d.user_id == i)) [
    | inr e ↦
        let other : (d.user_id == c.user_id) ≡ false = ground arith in
        rw other (rw e (list-put_above c ds h below.1))
    | inl e ↦
        let less = below.0 ((==_iff d.user_id i).0 e) in
        let apart : (d.user_id == c.user_id && int_eq d.button c.button) ≡ false =
          ground (arith, int_eq_iff d.button c.button, int_lt_irrefl c.button, less) in
        rw apart (
          rw e (
            ap (insert_by_button d) (list-put_above c ds h below.1)
            ∙ insert-append d c (list_dj_classes i ds) less))
  ]

  pub put-IsBelow :
      (b : ℤ) (c : DjClass) (ds : List DjClass)
      → IsBelow b c
      → All (IsBelow b) ds
      → All (IsBelow b) (put_dj_class c ds)
  unfolding put_dj_class
  put-IsBelow b c [] h k = (h, tt)
  put-IsBelow b c (d ∷ ds) h k =
      elim (Bool-cases (d.user_id == c.user_id && int_eq d.button c.button)) [
        | inl e ↦ rw e (h, k.1)
        | inr e ↦ rw e (k.0, put-IsBelow b c ds h k.1)
      ]

  pub delete-IsBelow : (b : ℤ) (ds : List DjClass) → All (IsBelow b) (delete_dj_classes i ds)
  unfolding delete_dj_classes
  delete-IsBelow b [] = tt
  delete-IsBelow b (d ∷ ds) = elim (Bool-cases (d.user_id == i)) [
    | inl e ↦ rw e (delete-IsBelow b ds)
    | inr e ↦ rw e ((λ h. absurd (ground (arith, h, ==_iff d.user_id i))), delete-IsBelow b ds)
  ]
