-- ===== src/Eio3/Dials/Frames.antt =====
-- The frames that `Dial` of internal/chzzk/eio3/eio3.go waits through, and the one that it waits for.
use chzzk_djclass_chat.Base.{
  ℕ, ◌≡◌, ◌≢◌, refl, ap, sym, ◌∙◌, ◌⊎◌, inl, inr, Bool, true, false, ◌||◌, Option, none, some, List,
  [], ◌∷◌, ◌++◌, arith, ◌==◌, ==_iff, if◌then◌else◌, Bool-cases,
}
use mathlib.Core.Path.{subst₂}
use chzzk_djclass_chat.Base.Text.{Text, text, text_eq, text_eq_iff, has_prefix}
use chzzk_djclass_chat.Eio3.{waiting, connected, refused, on_dial_frame}

-- The answer to a frame that `Dial` passes over.
abbrev pub pongs : Option Text → List Text
pongs none = []
pongs (some p) = p ∷ []

-- A frame passed over, with its answer.
abbrev pub Passed : Type 0
Passed = Text × Option Text

abbrev pub passed_frames : List Passed → List Text
passed_frames [] = []
passed_frames (p ∷ ps) = p.0 ∷ passed_frames ps

abbrev pub answers : List Passed → List Text
answers [] = []
answers (p ∷ ps) = pongs p.1 ++ answers ps

-- A frame that says nothing of the connection, with its answer: a ping is answered by a pong with the
-- same data, and a noop by nothing.
pub data Passes : Passed → Type 0 where
  a_ping : (data' : Text) → Passes (b'2' ∷ data', some (b'3' ∷ data'))
  a_noop : (data' : Text) → Passes (b'6' ∷ data', none)

-- The packet that connects the default namespace, with data or without.
abbrev pub IsConnect : Text → Type 0
IsConnect f = (f ≡ text "40") ⊎ ((data' : Text) × (f ≡ text "40{" ++ data'))

waiting-injective : (p q : Option Text) → waiting p ≡ waiting q → p ≡ q
waiting-injective p q e = cc

by_type :
    (x y : Bool) (c : ℕ) (rest : Text) (pong : Option Text)
    → (c == b'2') ≡ x
    → (c == b'6') ≡ y
    → (if x then waiting (some (b'3' ∷ rest)) else if y then waiting none else refused)
      ≡ waiting pong
    → Passes (c ∷ rest, pong)
by_type true y c rest pong h k e =
    subst₂ (λ d p. Passes (d ∷ rest, p)) (sym ((==_iff c b'2').0 h))
      (waiting-injective (some (b'3' ∷ rest)) pong e) (a_ping rest)
by_type false true c rest pong h k e =
    subst₂ (λ d p. Passes (d ∷ rest, p)) (sym ((==_iff c b'6').0 k)) (waiting-injective none pong e)
      (a_noop rest)
by_type false false c rest pong h k e = cc

pub waiting-Passes :
    (f : Text) (pong : Option Text) → on_dial_frame f ≡ waiting pong → Passes (f, pong)
unfolding on_dial_frame
waiting-Passes f pong =
    by_tests (text_eq f (text "40") || has_prefix f (text "40{")) (has_prefix f (text "44")) f
  where
    by_tests :
        (a b : Bool) (f : Text)
        → (if a then connected else if b then refused else elim f [
          | [] ↦ refused
          | c ∷ rest ↦
              if c == b'2'
              then waiting (some (b'3' ∷ rest))
              else if c == b'6'
              then waiting none
              else refused
        ])
          ≡ waiting pong
        → Passes (f, pong)
    by_tests true b f e = cc
    by_tests false true f e = cc
    by_tests false false [] e = cc
    by_tests false false (c ∷ rest) e = by_type (c == b'2') (c == b'6') c rest pong refl refl e

prefix-rest : (s p : Text) → has_prefix s p ≡ true → (t : Text) × (s ≡ p ++ t)
unfolding has_prefix
prefix-rest s [] h = (s, refl)
prefix-rest [] (d ∷ p) h = cc
prefix-rest (c ∷ s) (d ∷ p) h =
    let r : (t : Text) × (s ≡ p ++ t) = prefix-rest s p (ground (arith, h)) in
    let same : c ≡ d = ground (arith, h) in (r.0, ap (λ x. x ∷ s) same ∙ ap (λ x. d ∷ x) r.1)

apart : true ≢ false
apart e = cc

not_connecting :
    (x y : Bool) (rest : Text)
    → (if x then waiting (some (b'3' ∷ rest)) else if y then waiting none else refused) ≡ connected
    → false ≡ true
not_connecting true y rest e = cc
not_connecting false true rest e = cc
not_connecting false false rest e = cc

pub connected-IsConnect : (f : Text) → on_dial_frame f ≡ connected → IsConnect f
unfolding on_dial_frame
connected-IsConnect f e = elim (Bool-cases (text_eq f (text "40"))) [
  | inl h ↦ inl ((text_eq_iff f (text "40")).0 h)
  | inr h ↦ elim (Bool-cases (has_prefix f (text "40{"))) [
    | inl k ↦ inr (prefix-rest f (text "40{") k)
    | inr k ↦ absurd (apart (sym (by_tests _ (has_prefix f (text "44")) f e) ∙ rw (h, k) refl))
  ]
]
  where
    by_tests :
        (a b : Bool) (f : Text)
        → (if a then connected else if b then refused else elim f [
          | [] ↦ refused
          | c ∷ rest ↦
              if c == b'2'
              then waiting (some (b'3' ∷ rest))
              else if c == b'6'
              then waiting none
              else refused
        ])
          ≡ connected
        → a ≡ true
    by_tests true b f e = refl
    by_tests false true f e = cc
    by_tests false false [] e = cc
    by_tests false false (c ∷ rest) e = not_connecting (c == b'2') (c == b'6') rest e
