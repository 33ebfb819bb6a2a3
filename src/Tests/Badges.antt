-- ===== src/Tests/Badges.antt =====
-- Runs of internal/djclass.
use chzzk_djclass_chat.Base.{◌≡◌, refl, none, some, List, [], ◌∷◌}
use chzzk_djclass_chat.Base.Int.{ℤ, pos}
use chzzk_djclass_chat.Base.Text.{Text, text}
use chzzk_djclass_chat.Djclass.{Row, auto, resolve, preferred_row}
use chzzk_djclass_chat.Djclass.Selects.{FirstBest, resolve-auto}

abbrev row : ℤ → Text → Row
row button class = record { button = button; class = class; conversion = none }

abbrev first : Row
first = row (pos 4) (text "HIGH CLASS II")

abbrev others : List Row
others = row (pos 5) (text "BEAT MAESTRO I") ∷ row (pos 6) (text "SHOW STOPPER") ∷ []

resolve-auto_example :
    (best : Row) × (resolve (first ∷ others) none auto ≡ some best)
    × FirstBest best (first ∷ others)
unfolding preferred_row
resolve-auto_example = resolve-auto first others none auto no_preference
  where
    no_preference : preferred_row (first ∷ others) none auto ≡ none
    no_preference = refl
