-- ===== src/Config/Dotenv.antt =====
-- `LoadDotenv` of internal/config/config.go.
use chzzk_djclass_chat.Base.{
  ℕ, ◌≡◌, ◌≢◌, inl, inr, Bool, true, false, ◌&&◌, ◌||◌, Option, none, some, List, [], ◌∷◌, arith,
  any_of, if◌then◌else◌, ◌==◌, Bool-cases, Option-cases, subst, sym, ◌∙◌, ◌++◌,
}
use mathlib.Core.Option.{some-injective}
use chzzk_djclass_chat.Base.Maps.{lookup}
use chzzk_djclass_chat.Base.Text.{Text, text, text_eq, has_prefix, trim_space, cut_at}
use chzzk_djclass_chat.Config.{Environment}

-- `strings.Trim(s, cutset)` at the left, and at the right.
abbrev is_quote : ℕ → Bool
is_quote c = c == b'"' || c == 39

unfoldable pub trim_left_quotes : Text → Text
trim_left_quotes [] = []
trim_left_quotes (c ∷ s) = let rest = trim_left_quotes s in if is_quote c then rest else c ∷ s

unfoldable pub trim_right_quotes : Text → Text
trim_right_quotes [] = []
trim_right_quotes (c ∷ s) =
    let rest = trim_right_quotes s in if is_quote c && text_eq rest [] then [] else c ∷ rest

-- `os.Setenv` of a variable that is not set; `none` is an error, of an empty name or a NUL.
unfoldable pub set_env : Environment → Text → Text → Option Environment
set_env env k v =
    if text_eq k [] || any_of (λ c. c == 0) k || any_of (λ c. c == 0) v
    then none
    else some (env ++ (k, v) ∷ [])

unfoldable pub set_unless_set : Environment → Text → Text → Option Environment
unfolding lookup set_env
set_unless_set env k v = elim (lookup k env) [ some _ ↦ some env | none ↦ set_env env k v ]

unfoldable pub load_pair : Environment → Option (Text × Text) → Option Environment
unfolding set_unless_set trim_left_quotes trim_right_quotes
load_pair env none = some env
load_pair env (some (k, v)) =
    set_unless_set env (trim_space k) (trim_right_quotes (trim_left_quotes (trim_space v)))

-- One line; `line` is trimmed.
unfoldable pub load_line : Environment → Text → Option Environment
unfolding load_pair cut_at
load_line env line =
    if text_eq line [] || has_prefix line (text "#")
    then some env
    else load_pair env (cut_at b'=' line)

-- The environment after the file, and whether all of it was read.
unfoldable pub load_dotenv : Environment → List Text → Environment × Bool
unfolding load_line
load_dotenv env [] = (env, true)
load_dotenv env (line ∷ lines) = elim (load_line env (trim_space line)) [
  | none ↦ (env, false)
  | some env' ↦ load_dotenv env' lines
]

append-keeps :
    (env : Environment) (k j v w : Text)
    → lookup k env ≡ some v
    → lookup k (env ++ (j, w) ∷ []) ≡ some v
unfolding lookup
append-keeps [] k j v w h = absurd (ground (arith, h))
append-keeps ((i, u) ∷ env) k j v w h = elim (Bool-cases (text_eq i k)) [
  | inl e ↦ rw e (rw e at h)
  | inr e ↦ rw e (append-keeps env k j v w (rw e at h))
]

none-clash : {A : Type 0} {o : Option A} {x : A} → o ≡ none → o ≢ some x
none-clash p q = cc

set-keeps :
    (env g : Environment) (k j v w : Text)
    → lookup k env ≡ some v
    → set_unless_set env j w ≡ some g
    → lookup k g ≡ some v
unfolding set_unless_set set_env
set-keeps env g k j v w h e = elim (Option-cases (lookup j env)) [
  | inr (u, f) ↦ ground (arith, e, f, h)
  | inl f ↦ elim (Bool-cases (text_eq j [] || any_of (λ c. c == 0) j || any_of (λ c. c == 0) w)) [
    | inl b ↦ absurd (none-clash (ground (arith, f, b)) e)
    | inr b ↦
        let p : some (env ++ (j, w) ∷ []) ≡ some g = sym (ground (arith, f, b)) ∙ e in
        subst (λ (m : Environment). lookup k m ≡ some v) (some-injective _ _ p)
          (append-keeps env k j v w h)
  ]
]

line-keeps :
    (env g : Environment) (k v line : Text)
    → lookup k env ≡ some v
    → load_line env line ≡ some g
    → lookup k g ≡ some v
unfolding load_line load_pair
line-keeps env g k v line h e = elim (Bool-cases (text_eq line [] || has_prefix line (text "#"))) [
  | inl b ↦ ground (arith, b, e, h)
  | inr b ↦ elim (Option-cases (cut_at b'=' line)) [
    | inl f ↦ ground (arith, b, e, h, f)
    | inr (p, f) ↦
        set-keeps env g k (trim_space p.0) v (trim_right_quotes (trim_left_quotes (trim_space p.1)))
          h (sym (ground (arith, b, f)) ∙ e)
  ]
]

-- Loading a file changes no variable that is set.
load_dotenv-keeps :
    (lines : List Text) (env : Environment) (k v : Text)
    → lookup k env ≡ some v
    → lookup k (load_dotenv env lines).0 ≡ some v
unfolding load_dotenv load_line load_pair
load_dotenv-keeps [] env k v h = h
load_dotenv-keeps (line ∷ lines) env k v h = elim (Option-cases (load_line env (trim_space line))) [
  | inl e ↦ rw (e, load_dotenv) h
  | inr (g, e) ↦
      rw (e, load_dotenv)
        (load_dotenv-keeps lines g k v (line-keeps env g k v (trim_space line) h e))
]
