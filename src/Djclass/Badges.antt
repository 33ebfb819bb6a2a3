-- ===== src/Djclass/Badges.antt =====
-- The badge that `BuildBadge` (internal/djclass/djclass.go) makes of a row.
use chzzk_djclass_chat.Base.{
  ℕ, ◌*◌, ◌/◌, ◌<◌, ◌≡◌, refl, false, Option, none, some, arith, inl, inr, Bool-cases, leb,
}
use chzzk_djclass_chat.Base.Int.{ℤ, pos, negsuc}
use chzzk_djclass_chat.Djclass.{
  Row, is_theory_power, is_theory_conversion, to_power_integer, build_badge,
}
use chzzk_djclass_chat.Djclass.Tables.{float_unit, theory_conversion, theory_conversion_bounds}

div-lt : (x u k : ℕ) → 0 < u → x < k * u → x / u < k
div-lt x u k h p = grind arith

-- A conversion below the threshold of theory has a power of at most 9999.
power_below_theory : (x : ℕ) → leb theory_conversion x ≡ false → x / float_unit < 10000
power_below_theory x h =
    let (_, upper, positive) = theory_conversion_bounds in
    div-lt x float_unit 10000 positive (ground arith)

to_power_integer-is_theory :
    (c : Option ℤ) → is_theory_power (to_power_integer c) ≡ is_theory_conversion c
unfolding is_theory_power to_power_integer
to_power_integer-is_theory none = refl
to_power_integer-is_theory (some (negsuc x)) = refl
to_power_integer-is_theory (some (pos x)) = elim (Bool-cases (leb theory_conversion x)) [
  | inl h ↦ rw h (ground arith)
  | inr h ↦ rw h (ground (arith, power_below_theory x h))
]

-- A badge shines exactly when the raw conversion reaches the threshold of theory: rounding down
-- never makes a lower conversion reach the power of theory.
build_badge-is_theory : (r : Row) → (build_badge r).is_theory ≡ is_theory_conversion r.conversion
unfolding build_badge
build_badge-is_theory r = to_power_integer-is_theory r.conversion
