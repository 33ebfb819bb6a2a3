-- ===== src/Djclass/Selects.antt =====
-- What `Resolve` (internal/djclass/djclass.go) selects.
use chzzk_djclass_chat.Base.{
  ◌≡◌, refl, ap, ◌≢◌, ◌⊎◌, true, false, Option, none, some, List, [], ◌∷◌, ◌++◌, All, All-map,
  arith, inl, inr, Bool-cases,
}
use chzzk_djclass_chat.Base.Int.{ℤ, int_eq, int_eq_iff}
use chzzk_djclass_chat.Djclass.{
  Row, Selection, auto, viewer, sort_key, key_gt, find_button, best_row, preferred_row, resolve,
}
use chzzk_djclass_chat.Djclass.Standings.{Better, key_gt-Better, key_gt-not_Better}
use chzzk_djclass_chat.Djclass.Order.{key_gt_of_not_gt, key_gt_asymm}

abbrev Beats : Row → Row → Type 0
Beats r s = key_gt (sort_key r) (sort_key s) ≡ true

abbrev NotBeats : Row → Row → Type 0
NotBeats r s = key_gt (sort_key r) (sort_key s) ≡ false

-- By the keys of the code, the row beats every row before it, and no row after it beats it.
abbrev FirstByKey : Row → List Row → Type 0
FirstByKey best rows =
    (before : List Row) × (after : List Row) × (rows ≡ before ++ best ∷ after)
    × All (λ r. Beats best r) before
    × All (λ r. NotBeats r best) after

take_lead :
    (b r : Row) (rows : List Row) (best : Row)
    → Beats r b
    → FirstByKey best (r ∷ rows)
    → FirstByKey best (b ∷ r ∷ rows)
take_lead b r rows best h ([], after, e, w, l) =
    (b ∷ [], after, ap (◌∷◌ b) e, (ground arith, tt), l)
take_lead b r rows best h (x ∷ before, after, e, w, l) = (
  b ∷ x ∷ before,
  after,
  ap (◌∷◌ b) e,
  (key_gt_of_not_gt _ (sort_key r) _ (ground arith) (key_gt_asymm _ _ h), w),
  l,
)

Beats-lead :
    (b x best : Row) (rows before after : List Row)
    → b ∷ rows ≡ (x ∷ before) ++ best ∷ after
    → All (λ r. Beats best r) (x ∷ before)
    → Beats best b
Beats-lead b x best rows before after e w = ground arith

keep_lead :
    (b r : Row) (rows : List Row) (best : Row)
    → NotBeats r b
    → FirstByKey best (b ∷ rows)
    → FirstByKey best (b ∷ r ∷ rows)
keep_lead b r rows best h ([], after, e, w, l) =
    ([], r ∷ after, ground arith, tt, (ground arith, l))
keep_lead b r rows best h (x ∷ before, after, e, w, l) = (
  x ∷ r ∷ before,
  after,
  ground arith,
  (w.0, (key_gt_of_not_gt _ (sort_key b) _ (Beats-lead b x best rows before after e w) h, w.1)),
  l,
)

best_row-FirstByKey : (b : Row) (rows : List Row) → FirstByKey (best_row b rows) (b ∷ rows)
unfolding best_row
best_row-FirstByKey b [] = ([], [], refl, tt, tt)
best_row-FirstByKey b (r ∷ rows) = elim (Bool-cases (key_gt (sort_key r) (sort_key b))) [
  | inl h ↦ rw h (take_lead b r rows _ h (best_row-FirstByKey r rows))
  | inr h ↦ rw h (keep_lead b r rows _ h (best_row-FirstByKey b rows))
]

-- The row is the first of the best: it is better than every row before it, and no row after it is
-- better.
abbrev pub FirstBest : Row → List Row → Type 0
FirstBest best rows =
    (before : List Row) × (after : List Row) × (rows ≡ before ++ best ∷ after)
    × All (λ r. Better best r) before
    × All (λ r. ¬ Better r best) after

FirstByKey-FirstBest : (best : Row) (rows : List Row) → FirstByKey best rows → FirstBest best rows
FirstByKey-FirstBest best rows (before, after, e, w, l) = (
  before,
  after,
  e,
  All-map (Beats best) (Better best) before (key_gt-Better best) w,
  All-map (λ r. NotBeats r best) (λ r. ¬ Better r best) after (λ r. key_gt-not_Better r best) l,
)

-- A selection by class, and one by a preference that no row meets, is the first of the best rows:
-- it is better than every row before it, and no row after it is better. The better row has the
-- rank that stands first in the list of ranks; with the same rank, the level that comes first of a
-- theoretical best, I, II, III, IV and none; with both the same, the button that comes first of 8,
-- 5, 6, 4 and any other.
pub resolve-auto :
    (r : Row) (rows : List Row) (preferred : Option ℤ) (sel : Selection)
    → preferred_row (r ∷ rows) preferred sel ≡ none
    → (best : Row) × (resolve (r ∷ rows) preferred sel ≡ some best) × FirstBest best (r ∷ rows)
unfolding resolve
resolve-auto r rows preferred sel h =
    (best_row r rows, rw (h, resolve) refl, FirstByKey-FirstBest _ _ (best_row-FirstByKey r rows))

-- The row is the first with the button.
abbrev pub FirstWith : ℤ → Row → List Row → Type 0
FirstWith b row rows =
    (before : List Row) × (after : List Row) × (rows ≡ before ++ row ∷ after)
    × (row.button ≡ b)
    × All (λ r. r.button ≢ b) before

find_button-cases :
    (b : ℤ) (rows : List Row)
    → ((row : Row) × (find_button b rows ≡ some row) × FirstWith b row rows)
      ⊎ ((find_button b rows ≡ none) × All (λ r. r.button ≢ b) rows)
unfolding find_button
find_button-cases b [] = inr (refl, tt)
find_button-cases b (r ∷ rows) = elim (Bool-cases (int_eq r.button b)) [
  | inl h ↦ inl (r, rw h, ([], rows, refl, (int_eq_iff r.button b).0 h, tt))
  | inr h ↦ elim (find_button-cases b rows) [
    | inl (row, e, (before, after, split, hit, miss)) ↦
        inl (row, rw h e, (r ∷ before, after, ap (◌∷◌ r) split, hit, (other r h, miss)))
    | inr (e, miss) ↦ inr (rw h e, (other r h, miss))
  ]
]
  where
    other : (q : Row) → int_eq q.button b ≡ false → q.button ≢ b
    other q h e = ground (arith, int_eq_iff q.button b)

-- A viewer's preference selects the first row with that button if there is one; otherwise the
-- selection is the one by class.
resolve-viewer :
    (b : ℤ) (r : Row) (rows : List Row)
    → ((row : Row) × (resolve (r ∷ rows) (some b) viewer ≡ some row) × FirstWith b row (r ∷ rows))
      ⊎ ((resolve (r ∷ rows) (some b) viewer ≡ resolve (r ∷ rows) none auto)
          × All (λ q. q.button ≢ b) (r ∷ rows))
unfolding resolve
resolve-viewer b r rows = elim (find_button-cases b (r ∷ rows)) [
  | inl (row, e, f) ↦ inl (row, rw (e, resolve) refl, f)
  | inr (e, miss) ↦ inr (rw (e, resolve) refl, miss)
]
