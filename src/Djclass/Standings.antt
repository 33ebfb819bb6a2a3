-- ===== src/Djclass/Standings.antt =====
-- How the rows of internal/djclass/djclass.go rank: rank, level, button, each by its place, best first.
use chzzk_djclass_chat.Base.{
  ℕ, suc, ◌+◌, ◌-◌, ◌<◌, ◌≤◌, ◌≡◌, refl, sym, ◌∙◌, subst, ◌⊎◌, inl, inr, Bool, true, false, none,
  some, List, [], ◌∷◌, ◌&&◌, ltb, ◌==◌, if◌then◌else◌, arith, Bool-cases, length,
}
use chzzk_djclass_chat.Base.Int.{ℤ, pos, negsuc, minus_one, int_lt}
use chzzk_djclass_chat.Base.Maps.{lookup}
use chzzk_djclass_chat.Base.Text.{Text, text, text_eq, text_eq_iff}
use chzzk_djclass_chat.Djclass.{
  Row, is_theory_conversion, rank_ord_of, level_ord_of, button_pref_of, sort_key, greater_or,
  key_gt,
}
use chzzk_djclass_chat.Djclass.Names.{parse_rank_name, extract_level}
use chzzk_djclass_chat.Djclass.Tables.{rank_order, rank_ordinal, index_from, lord, level_values}

-- How many names stand before the name; all of them, if it is not in the list.
unfoldable pub place : Text → List Text → ℕ
place t [] = 0
place t (n ∷ ns) = if text_eq n t then 0 else suc (place t ns)

abbrev level_order : List Text
level_order = text "I" ∷ text "II" ∷ text "III" ∷ text "IV" ∷ []

abbrev pub rank_place : Row → ℕ
rank_place r = place (parse_rank_name r.class) rank_order

-- A class at its theoretical best, then I, II, III and IV, then no level.
unfoldable pub level_place : Row → ℕ
unfolding place
level_place r =
    if text_eq (parse_rank_name r.class) lord && is_theory_conversion r.conversion
    then 0
    else suc (place (extract_level r.class) level_order)

-- 8, 5, 6 and 4 buttons, then any other number.
unfoldable pub button_place : ℤ → ℕ
button_place (negsuc n) = 4
button_place (pos n) =
    if n == 8 then 0 else if n == 5 then 1 else if n == 6 then 2 else if n == 4 then 3 else 4

-- The first row has the better rank, or the same rank and the better level, or the same of both
-- and the better button.
abbrev pub Better : Row → Row → Type 0
Better r s =
    (rank_place r < rank_place s)
    ⊎ ((rank_place r ≡ rank_place s)
        × ((level_place r < level_place s)
            ⊎ ((level_place r ≡ level_place s) × (button_place r.button < button_place s.button))))

-- The number that `SortKey` gives to the place among `n`.
mirror : ℕ → ℕ → ℤ
mirror n p = if ltb p n then pos (n - 1 - p) else minus_one

mirror_gt :
    (n p q : ℕ) (b : Bool)
    → p ≤ n
    → q ≤ n
    → greater_or (mirror n p) (mirror n q) b ≡ true
    → (p < q) ⊎ ((p ≡ q) × (b ≡ true))
unfolding mirror greater_or int_lt
mirror_gt n p q b h k e = ground arith

mirror_not_gt :
    (n p q : ℕ) (b : Bool)
    → p ≤ n
    → q ≤ n
    → greater_or (mirror n p) (mirror n q) b ≡ false
    → (q < p) ⊎ ((p ≡ q) × (b ≡ false))
unfolding mirror greater_or int_lt
mirror_not_gt n p q b h k e = ground arith

index_from-place :
    (i : ℕ) (t : Text) (ns : List Text)
    → ((index_from i t ns ≡ some (i + place t ns)) × (place t ns < length ns))
      ⊎ ((index_from i t ns ≡ none) × (place t ns ≡ length ns))
unfolding index_from place
index_from-place i t [] = inr (refl, refl)
index_from-place i t (n ∷ ns) = ground (arith, index_from-place (suc i) t ns)

mirror_of : (n p : ℕ) → p < n → pos (n - 1 - (0 + p)) ≡ mirror n p
unfolding mirror
mirror_of n p h = ground arith

rank_ord-mirror : (t : Text) → rank_ord_of t ≡ mirror 14 (place t rank_order)
unfolding rank_ord_of rank_ordinal mirror
rank_ord-mirror t = elim (index_from-place 0 t rank_order) [
  | inl (e, h) ↦ rw (e, rank_ord_of, rank_ordinal) (mirror_of 14 (place t rank_order) h)
  | inr (e, h) ↦ rw (e, h, rank_ord_of, rank_ordinal, mirror) refl
]

place-le : (t : Text) (ns : List Text) → place t ns ≤ length ns
unfolding place
place-le t [] = omega arith
place-le t (n ∷ ns) = ground (arith, place-le t ns)

button_pref-mirror : (b : ℤ) → button_pref_of b ≡ mirror 4 (button_place b)
unfolding button_pref_of button_place mirror
button_pref-mirror (negsuc n) = refl
button_pref-mirror (pos n) = ground arith

button_place-le : (b : ℤ) → button_place b ≤ 4
unfolding button_place
button_place-le (negsuc n) = omega arith
button_place-le (pos n) = ground arith

abbrev Mirrored : Text → Type 0
Mirrored l =
    (elim (lookup l level_values) [ some v ↦ pos v | none ↦ pos 0 ])
    ≡ mirror 6 (suc (place l level_order))

is-Mirrored : (n l : Text) → text_eq n l ≡ true → Mirrored n → Mirrored l
is-Mirrored n l e = subst Mirrored ((text_eq_iff n l).0 e)

level-mirror : (l : Text) → Mirrored l
unfolding lookup level_values place mirror text_eq
level-mirror l = elim (Bool-cases (text_eq (text "IV") l)) [
  | inl e ↦ is-Mirrored (text "IV") l e refl
  | inr a ↦ elim (Bool-cases (text_eq (text "III") l)) [
    | inl e ↦ is-Mirrored (text "III") l e refl
    | inr b ↦ elim (Bool-cases (text_eq (text "II") l)) [
      | inl e ↦ is-Mirrored (text "II") l e refl
      | inr c ↦ elim (Bool-cases (text_eq (text "I") l)) [
        | inl e ↦ is-Mirrored (text "I") l e refl
        | inr d ↦ rw (a, b, c, d, lookup, place) refl
      ]
    ]
  ]
]

level_ord-mirror : (r : Row) → level_ord_of (parse_rank_name r.class) r ≡ mirror 6 (level_place r)
unfolding level_ord_of level_place mirror
level_ord-mirror r =
    elim (Bool-cases
      (text_eq (parse_rank_name r.class) lord && is_theory_conversion r.conversion)) [
        | inl e ↦ rw (e, level_ord_of, level_place, mirror) refl
        | inr e ↦ rw (e, level_ord_of, level_place) (level-mirror (extract_level r.class))
      ]

level_place-le : (r : Row) → level_place r ≤ 6
unfolding level_place
level_place-le r = ground (arith, place-le (extract_level r.class) level_order)

key_gt-mirrored :
    (r s : Row)
    → key_gt (sort_key r) (sort_key s)
      ≡ greater_or (mirror 14 (rank_place r)) (mirror 14 (rank_place s)) (
          greater_or (mirror 6 (level_place r)) (mirror 6 (level_place s)) (
            greater_or (mirror 4 (button_place r.button)) (mirror 4 (button_place s.button)) false))
unfolding key_gt sort_key
key_gt-mirrored r s = simp (
  rank_ord-mirror (parse_rank_name r.class),
  rank_ord-mirror (parse_rank_name s.class),
  level_ord-mirror r,
  level_ord-mirror s,
  button_pref-mirror r.button,
  button_pref-mirror s.button,
)

-- What beats a row by its key is better.
pub key_gt-Better : (r s : Row) → key_gt (sort_key r) (sort_key s) ≡ true → Better r s
key_gt-Better r s h =
    elim (mirror_gt 14 _ _ _ (place-le _ rank_order) (place-le _ rank_order)
      (sym (key_gt-mirrored r s) ∙ h)) [
        | inl a ↦ inl a
        | inr (a, h') ↦ inr (
          a,
          (elim (mirror_gt 6 _ _ _ (level_place-le r) (level_place-le s) h') [
            | inl b ↦ inl b
            | inr (b, h'') ↦
                elim (mirror_gt 4 _ _ _ (button_place-le r.button) (button_place-le s.button) h'') [
                  | inl c ↦ inr (b, c)
                  | inr (c, f) ↦ absurd (ground arith)
                ]
          ]),
        )
      ]

-- What does not beat a row by its key is not better.
pub key_gt-not_Better : (r s : Row) → key_gt (sort_key r) (sort_key s) ≡ false → ¬ Better r s
key_gt-not_Better r s h better =
    elim (mirror_not_gt 14 _ _ _ (place-le _ rank_order) (place-le _ rank_order)
      (sym (key_gt-mirrored r s) ∙ h)) [
        | inl a ↦ ground arith
        | inr (a, h') ↦ elim (mirror_not_gt 6 _ _ _ (level_place-le r) (level_place-le s) h') [
          | inl b ↦ ground arith
          | inr (b, h'') ↦
              elim (mirror_not_gt 4 _ _ _ (button_place-le r.button) (button_place-le s.button)
                h'') [ inl c ↦ ground arith | inr (c, f) ↦ ground arith ]
        ]
      ]
