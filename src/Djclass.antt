-- ===== src/Djclass.antt =====
-- internal/djclass/djclass.go: which of a player's per-button classes to show, and the badge.
-- A `*float64` is an `Option ℤ` that counts units of 2⁻¹⁰⁷⁴, of which every finite float64 is a
-- multiple. The regular expressions are matchers by hand over the code points.
pub mod Tables
pub mod Names
pub mod Order
pub mod Standings
pub mod Selects
pub mod Badges
use chzzk_djclass_chat.Base.{
  ℕ, suc, ◌*◌, ◌/◌, ◌-◌, ◌+◌, Bool, true, false, ◌&&◌, Option, none, some, List, [], ◌∷◌, ◌++◌, map,
  ltb, leb, ◌==◌, if◌then◌else◌, any_of,
}
use chzzk_djclass_chat.Base.Int.{ℤ, pos, negsuc, minus_one, int_eq, int_lt}
use chzzk_djclass_chat.Base.Maps.{lookup}
use chzzk_djclass_chat.Base.Text.{Text, text, text_eq}
use Tables.{
  float_unit, theory_power, theory_conversion, rank_ordinal, short_names, level_values,
  rank_thresholds, lord,
}
use Names.{parse_rank_name, extract_level}

pub record Row : Type 0 where
  pub button : ℤ
  pub class : Text
  pub conversion : Option ℤ

pub record Badge : Type 0 where
  pub button : ℤ
  pub class : Text
  pub rank : Text
  pub power : Option ℤ
  pub threshold : Option ℕ
  pub is_theory : Bool

-- `power != nil && *power >= TheoryPower`
unfoldable pub is_theory_power : Option ℤ → Bool
is_theory_power none = false
is_theory_power (some (pos p)) = leb theory_power p
is_theory_power (some (negsuc p)) = false

-- `conv != nil && *conv >= TheoryConversion`
unfoldable pub is_theory_conversion : Option ℤ → Bool
is_theory_conversion none = false
is_theory_conversion (some (pos x)) = leb theory_conversion x
is_theory_conversion (some (negsuc x)) = false

-- `int(math.Floor(x))`: the quotient by the unit, rounded down.
unfoldable pub floor : ℤ → ℤ
floor (pos x) = pos (x / float_unit)
floor (negsuc x) = negsuc (x / float_unit)

unfoldable pub to_power_integer : Option ℤ → Option ℤ
unfolding is_theory_conversion floor
to_power_integer none = none
to_power_integer (some x) =
    if is_theory_conversion (some x) then some (pos theory_power) else some (floor x)

-- `t["default"]` first, then `t[level]` if there is a level.
threshold_of : List (Text × ℕ) → Text → Option ℕ
unfolding lookup
threshold_of t level = elim (lookup (text "default") t) [
  | some v ↦ some v
  | none ↦ if text_eq level [] then none else lookup level t
]

unfoldable pub threshold : Text → Text → Option ℕ
unfolding threshold_of lookup rank_thresholds
threshold rank level = elim (lookup rank rank_thresholds) [
  | none ↦ none
  | some t ↦ threshold_of t level
]

-- The key's three parts are compared in this order, and bigger is better.
pub record SortKey : Type 0 where
  pub rank_ord : ℤ
  pub level_ord : ℤ
  pub button_pref : ℤ

-- `len(RankOrder) - 1 - i`, or -1 for an unknown rank.
unfoldable pub rank_ord_of : Text → ℤ
unfolding rank_ordinal
rank_ord_of rank = elim (rank_ordinal rank) [ some i ↦ pos (14 - 1 - i) | none ↦ minus_one ]

unfoldable pub level_ord_of : Text → Row → ℤ
unfolding lookup level_values extract_level is_theory_conversion
level_ord_of rank r =
    if text_eq rank lord && is_theory_conversion r.conversion
    then pos 5
    else elim (lookup (extract_level r.class) level_values) [ some v ↦ pos v | none ↦ pos 0 ]

-- `buttonPreference`, or -1.
unfoldable pub button_pref_of : ℤ → ℤ
button_pref_of (negsuc n) = minus_one
button_pref_of (pos n) =
    if n == 8
    then pos 3
    else if n == 5
    then pos 2
    else if n == 6
    then pos 1
    else if n == 4
    then pos 0
    else minus_one

unfoldable pub sort_key : Row → SortKey
unfolding parse_rank_name rank_ord_of level_ord_of button_pref_of
sort_key r =
    let rank = parse_rank_name r.class in
    record {
      rank_ord = rank_ord_of rank;
      level_ord = level_ord_of rank r;
      button_pref = button_pref_of r.button;
    }

-- `slices.Compare` at one place: whether `a` is greater, `rest` deciding a tie.
unfoldable pub greater_or : ℤ → ℤ → Bool → Bool
unfolding int_lt
greater_or a b rest = if int_lt b a then true else if int_lt a b then false else rest

-- `slices.Compare(k, l) > 0`
unfoldable pub key_gt : SortKey → SortKey → Bool
unfolding greater_or
key_gt k l =
    greater_or k.rank_ord l.rank_ord
      (greater_or k.level_ord l.level_ord (greater_or k.button_pref l.button_pref false))

pub data Selection : Type 0 where
  auto viewer : Selection

-- The first row with the button.
unfoldable pub find_button : ℤ → List Row → Option Row
find_button b [] = none
find_button b (r ∷ rows) = if int_eq r.button b then some r else find_button b rows

-- The loop of `Resolve` from its best row so far.
unfoldable pub best_row : Row → List Row → Row
best_row best [] = best
best_row best (r ∷ rows) = best_row (if key_gt (sort_key r) (sort_key best) then r else best) rows

-- The row that a viewer's preference picks out.
unfoldable pub preferred_row : List Row → Option ℤ → Selection → Option Row
unfolding find_button
preferred_row rows preferred auto = none
preferred_row rows none viewer = none
preferred_row rows (some b) viewer = find_button b rows

-- `none` where the source returns `false`.
unfoldable pub resolve : List Row → Option ℤ → Selection → Option Row
unfolding preferred_row best_row
resolve [] preferred sel = none
resolve (r ∷ rows) preferred sel = elim (preferred_row (r ∷ rows) preferred sel) [
  | some row ↦ some row
  | none ↦ some (best_row r rows)
]

unfoldable pub short_name : Text → Text
unfolding lookup short_names
short_name rank = elim (lookup rank short_names) [ some s ↦ s | none ↦ rank ]

unfoldable pub build_badge : Row → Badge
unfolding parse_rank_name extract_level short_name to_power_integer is_theory_power threshold
build_badge r =
    let rank = parse_rank_name r.class in
    let level = extract_level r.class in
    let short = short_name rank in
    let power = to_power_integer r.conversion in
    record {
      button = r.button;
      class = if text_eq level [] then short else short ++ 32 ∷ level;
      rank = short;
      power = power;
      threshold = threshold rank level;
      is_theory = is_theory_power power;
    }

unfoldable pub valid_preferred_button : Option ℤ → List ℤ → Bool
valid_preferred_button none available = true
valid_preferred_button (some b) available = any_of (λ a. int_eq a b) available
