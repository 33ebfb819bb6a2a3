-- ===== src/Djclass/Names.antt =====
-- internal/djclass/djclass.go: `ParseRankName` and `ExtractLevel`, with their regular expressions.
use chzzk_djclass_chat.Base.{
  ℕ, Bool, not, ◌&&◌, ◌||◌, Option, none, some, List, [], ◌∷◌, map, reverse, leb, ◌==◌,
  if◌then◌else◌, any_of,
}
use chzzk_djclass_chat.Base.Text.{Text, text, text_eq, span, to_upper, trim_space}

-- `\s` of a regular expression.
unfoldable pub is_blank : ℕ → Bool
is_blank c = c == 9 || c == 10 || c == 12 || c == 13 || c == 32

unfoldable pub is_digit : ℕ → Bool
is_digit c = leb b'0' c && leb c b'9'

abbrev pub numerals : List Text
numerals =
    text "I"
    ∷ text "II"
    ∷ text "III"
    ∷ text "IV"
    ∷ text "V"
    ∷ text "VI"
    ∷ text "VII"
    ∷ text "VIII"
    ∷ text "IX"
    ∷ text "X"
    ∷ []

unfoldable pub is_numeral : Text → Bool
is_numeral w = any_of (λ n. text_eq n w) numerals

-- From the last word, reversed, and the blanks before it with the rest, reversed.
unfoldable pub level_parts : Text → Text × Text → Option (Text × Text)
unfolding to_upper is_numeral
level_parts word ([], rest) = none
level_parts word (b ∷ blanks, rest) =
    let level = map to_upper (reverse word) in
    if is_numeral level then some (reverse rest, level) else none

-- A match of `levelRe`: the text before it, and its numeral in upper case.
unfoldable pub split_level : Text → Option (Text × Text)
unfolding level_parts span is_blank
split_level s =
    let cut = span (λ c. not (is_blank c)) (reverse s) in level_parts cut.0 (span is_blank cut.1)

-- What follows the digits of `prefixRe`; `s` is the whole text.
unfoldable pub after_digits : Text → Text → Text
unfolding span is_blank
after_digits s [] = s
after_digits s (c ∷ rest) =
    let cut = span is_blank rest in if c == b'B' && not (text_eq cut.0 []) then cut.1 else s

-- `prefixRe.ReplaceAllString(class, "")`
unfoldable pub strip_button : Text → Text
unfolding after_digits span is_digit
strip_button s = let cut = span is_digit s in if text_eq cut.0 [] then s else after_digits s cut.1

-- `levelRe.ReplaceAllString(s, "")`
unfoldable pub strip_level : Text → Text
unfolding split_level
strip_level s = elim (split_level s) [ some (before, level) ↦ before | none ↦ s ]

unfoldable pub parse_rank_name : Text → Text
unfolding strip_button strip_level trim_space
parse_rank_name class =
    let s = trim_space (strip_level (strip_button class)) in
    if text_eq s [] then text "BEGINNER" else s

unfoldable pub extract_level : Text → Text
unfolding split_level
extract_level class = elim (split_level class) [ some (before, level) ↦ level | none ↦ [] ]
