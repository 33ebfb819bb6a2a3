-- ===== src/Varchive/Buttons.antt =====
-- The classes that internal/varchive/varchive.go fetches are of different button modes, in order.
use chzzk_djclass_chat.Base.{
  ℕ, ◌≡◌, refl, subst, true, Option, none, some, List, [], ◌∷◌, map, All, arith, Bool-cases,
  Option-cases, inl, inr, not, ◌||◌, ◌==◌, ◌<◌, lt→ltb,
}
use chzzk_djclass_chat.Base.Int.{pos, int_lt}
use chzzk_djclass_chat.Base.Text.{Text, text_eq}
use chzzk_djclass_chat.Effects.{Result, ok, err}
use chzzk_djclass_chat.Link.{VaClass}
use chzzk_djclass_chat.Store.{is_button}
use chzzk_djclass_chat.Varchive.{
  Http, ClassBody, class_of, present, get, fetched, dj_class_for, slot, all_dj_classes, buttons,
}

-- One of the four button modes each, every one larger than those before it.
abbrev pub AreSorted : List VaClass → Type 0
AreSorted [] = Unit
AreSorted (c ∷ cs) =
    (is_button c.button ≡ true)
    × All (λ (d : VaClass). int_lt c.button d.button ≡ true) cs
    × AreSorted cs

-- A class of this button or none.
abbrev IsOf : ℕ → Option VaClass → Type 0
IsOf b none = Unit
IsOf b (some c) = c.button ≡ pos b

class_of-IsOf : (b : ℕ) (o : Option ClassBody) → IsOf b (class_of b o)
unfolding class_of
class_of-IsOf b none = tt
class_of-IsOf b (some body) = elim (Bool-cases (not body.success || text_eq body.dj_class [])) [
  | inl e ↦ rw e tt
  | inr e ↦ rw e refl
]

module _ (http : Http) where
  fetched-IsOf : (b : ℕ) (r : Result (ℕ × Text)) → IsOf b (slot http (fetched http b r))
  unfolding slot fetched
  fetched-IsOf b (err x) = tt
  fetched-IsOf b (ok (status, body)) = elim (Bool-cases (not (status == 200))) [
    | inl e ↦ rw e tt
    | inr e ↦ rw e (class_of-IsOf b (http.class_body body))
  ]

  slot-IsOf : (nickname : Text) (b : ℕ) → IsOf b (slot http (dj_class_for http nickname b))
  unfolding dj_class_for
  slot-IsOf nickname b = fetched-IsOf b (get http _ [])

-- Button modes in order.
abbrev Ascends : List ℕ → Type 0
Ascends [] = Unit
Ascends (b ∷ bs) = (is_button (pos b) ≡ true) × All (λ d. b < d) bs × Ascends bs

module _ (f : ℕ → Option VaClass) (own : (b : ℕ) → IsOf b (f b)) where
  above :
      (c : VaClass) (b : ℕ) (bs : List ℕ)
      → c.button ≡ pos b
      → All (λ d. b < d) bs
      → All (λ (d : VaClass). int_lt c.button d.button ≡ true) (present (map f bs))
  unfolding present
  above c b [] e h = tt
  above c b (d ∷ bs) e h = elim (Option-cases (f d)) [
    | inl n ↦ rw (n, present) (above c b bs e h.1)
    | inr (x, n) ↦
        let own_x : x.button ≡ pos d = subst (IsOf d) n (own d) in
        rw (n, present) (rw (e, own_x) (unfold int_lt in lt→ltb b d h.0), above c b bs e h.1)
  ]

  present-AreSorted : (bs : List ℕ) → Ascends bs → AreSorted (present (map f bs))
  unfolding present
  present-AreSorted [] h = tt
  present-AreSorted (b ∷ bs) h = elim (Option-cases (f b)) [
    | inl n ↦ rw (n, present) (present-AreSorted bs h.2)
    | inr (x, n) ↦
        let own_x : x.button ≡ pos b = subst (IsOf b) n (own b) in
        rw (n, present) (rw own_x h.0, above x b bs own_x h.1, present-AreSorted bs h.2)
  ]

-- The classes that are fetched, however the calls for the button modes fail, are of button modes
-- that the table accepts, each larger than those before it.
pub all_dj_classes-AreSorted :
    (http : Http) (nickname : Text) → AreSorted (all_dj_classes http nickname)
unfolding all_dj_classes
all_dj_classes-AreSorted http nickname =
    present-AreSorted (λ b. slot http (dj_class_for http nickname b)) (slot-IsOf http nickname)
      buttons ascending
  where
    ascending : Ascends buttons
    ascending =
        unfold is_button in
        (
          refl,
          (omega arith, (omega arith, (omega arith, tt))),
          (refl, (omega arith, (omega arith, tt)), (refl, (omega arith, tt), (refl, tt, tt))),
        )
