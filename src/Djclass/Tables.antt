-- ===== src/Djclass/Tables.antt =====
-- internal/djclass/djclass.go: the constants and the tables, a map as the list of its entries.
use chzzk_djclass_chat.Base.{
  ℕ, suc, ◌*◌, ◌<◌, ◌≤◌, Option, none, some, List, [], ◌∷◌, if◌then◌else◌, arith,
}
use Prim.Native.Nat.{◌^◌}
use chzzk_djclass_chat.Base.Text.{Text, text, text_eq}

-- 1.0, in units of 2⁻¹⁰⁷⁴.
unfoldable pub float_unit : ℕ
float_unit = 2 ^ 1074

abbrev pub theory_power : ℕ
theory_power = 10000

-- The float64 nearest to 9999.9847: 343596857976003 * 2⁻³⁵.
unfoldable pub theory_conversion : ℕ
theory_conversion = 343596857976003 * 2 ^ 1039

pub theory_conversion_bounds :
    (9999 * float_unit ≤ theory_conversion)
    × (theory_conversion < 10000 * float_unit)
    × (0 < float_unit)
unfolding float_unit theory_conversion
theory_conversion_bounds = omega arith

abbrev pub lord : Text
lord = text "THE LORD OF DJMAX"

-- Best first.
abbrev pub rank_order : List Text
rank_order =
    lord
    ∷ text "BEAT MAESTRO"
    ∷ text "SHOWSTOPPER"
    ∷ text "HEADLINER"
    ∷ text "TREND SETTER"
    ∷ text "PROFESSIONAL"
    ∷ text "HIGH CLASS"
    ∷ text "PRO DJ"
    ∷ text "MIDDLEMAN"
    ∷ text "STREET DJ"
    ∷ text "ROOKIE"
    ∷ text "AMATEUR"
    ∷ text "TRAINEE"
    ∷ text "BEGINNER"
    ∷ []

-- `slices.Index`, counted from `i`.
unfoldable pub index_from : ℕ → Text → List Text → Option ℕ
index_from i k [] = none
index_from i k (t ∷ ts) = if text_eq t k then some i else index_from (suc i) k ts

unfoldable pub rank_ordinal : Text → Option ℕ
unfolding index_from
rank_ordinal rank = index_from 0 rank rank_order

abbrev levels : ℕ → ℕ → ℕ → ℕ → List (Text × ℕ)
levels a b c d = (text "IV", a) ∷ (text "III", b) ∷ (text "II", c) ∷ (text "I", d) ∷ []

unfoldable pub rank_thresholds : List (Text × List (Text × ℕ))
rank_thresholds =
    (lord, (text "default", 9980) ∷ [])
    ∷ (text "BEAT MAESTRO", levels 9900 9930 9950 9970)
    ∷ (text "SHOWSTOPPER", levels 9700 9750 9800 9850)
    ∷ (text "HEADLINER", levels 9400 9500 9600 9650)
    ∷ (text "TREND SETTER", levels 9000 9100 9200 9300)
    ∷ (text "PROFESSIONAL", levels 8600 8700 8800 8900)
    ∷ (text "HIGH CLASS", levels 7800 8000 8200 8400)
    ∷ (text "PRO DJ", levels 7000 7200 7400 7600)
    ∷ (text "MIDDLEMAN", levels 6200 6400 6600 6800)
    ∷ (text "STREET DJ", levels 5200 5500 5800 6000)
    ∷ (text "ROOKIE", levels 4000 4300 4600 4900)
    ∷ (text "AMATEUR", levels 2400 2800 3200 3600)
    ∷ (text "TRAINEE", levels 500 1000 1500 2000)
    ∷ (text "BEGINNER", (text "default", 0) ∷ [])
    ∷ []

unfoldable pub short_names : List (Text × Text)
short_names =
    (lord, text "LoD")
    ∷ (text "BEAT MAESTRO", text "BM")
    ∷ (text "SHOWSTOPPER", text "SS")
    ∷ (text "HEADLINER", text "HL")
    ∷ (text "TREND SETTER", text "TS")
    ∷ (text "PROFESSIONAL", text "PRO")
    ∷ (text "HIGH CLASS", text "HC")
    ∷ (text "PRO DJ", text "PD")
    ∷ (text "MIDDLEMAN", text "MM")
    ∷ (text "STREET DJ", text "SD")
    ∷ (text "ROOKIE", text "RK")
    ∷ (text "AMATEUR", text "AM")
    ∷ (text "TRAINEE", text "TR")
    ∷ (text "BEGINNER", text "BG")
    ∷ []

-- Higher is better.
unfoldable pub level_values : List (Text × ℕ)
level_values = levels 1 2 3 4
