-- ===== src/Link/Cards.antt =====
-- `Card` of internal/link/link.go: the choices of a preferred button on the /link page. The printed
-- label and value of a choice are its `Choice`.
use chzzk_djclass_chat.Base.{
  ◌≡◌, subst, inl, inr, Bool, true, false, Option, none, some, List, [], ◌∷◌, map, All, All-map,
  arith,
}
use chzzk_djclass_chat.Base.Int.{ℤ, int_eq, int_eq_iff}
use chzzk_djclass_chat.Base.Text.{Text}
use chzzk_djclass_chat.Djclass
use chzzk_djclass_chat.Djclass.{Row, Badge, build_badge}
use chzzk_djclass_chat.Effects.{Result, ok, err}
use chzzk_djclass_chat.Env.{Env, M, pure, ◌>>=◌, query}
use chzzk_djclass_chat.Env.Laws.{query-Reads}
use chzzk_djclass_chat.Link.{has_class}
use chzzk_djclass_chat.Resolver.{to_row, row_of}
use chzzk_djclass_chat.Store.{User, VarchiveLink, DjClass, Tables, active_link, list_dj_classes}

pub data Choice : Type 0 where
  automatic : Choice
  with_button : ℤ → Choice

pub record CardOption : Type 0 where
  pub choice : Choice
  pub badge : Badge
  pub checked : Bool

pub record Card : Type 0 where
  pub linked : Bool
  pub varchive_nickname : Text
  pub options : List CardOption

unfoldable pub is_none : Option ℤ → Bool
is_none none = true
is_none (some b) = false

unfoldable pub is_button : Option ℤ → ℤ → Bool
is_button none b = false
is_button (some p) b = int_eq p b

unfoldable pub button_option : User → Row → CardOption
unfolding is_button
button_option u r = record {
  choice = with_button r.button;
  badge = build_badge r;
  checked = is_button u.preferred_button r.button;
}

-- The options once the classes are known.
unfoldable pub card_options : User → List DjClass → List CardOption
unfolding is_none button_option to_row
card_options u [] = []
card_options u (c ∷ cs) =
    let rows = map to_row (c ∷ cs) in
    record {
      choice = automatic;
      badge = build_badge (row_of (Djclass.resolve rows none Djclass.auto));
      checked = is_none u.preferred_button;
    }
    ∷ map (button_option u) rows

unfoldable pub card_found : User → Option VarchiveLink → M Card
unfolding card_options
card_found u none = pure (record { linked = false; varchive_nickname = []; options = [] })
card_found u (some l) = do
  stored ← query (λ t. list_dj_classes u.id t.classes)
  pure (record {
    linked = true;
    varchive_nickname = l.varchive_nickname;
    options = card_options u stored;
  })

unfoldable pub card : User → M Card
unfolding card_found
card u = do l ← query (λ t. active_link u.id t.links); card_found u l

-- A choice that `SetPreferredButton` accepts.
unfoldable pub IsOffered : List DjClass → Choice → Type 0
IsOffered stored automatic = Unit
IsOffered stored (with_button b) = has_class b stored ≡ true

IsOffered-cons :
    (d : DjClass) (ds : List DjClass) (o : Choice) → IsOffered ds o → IsOffered (d ∷ ds) o
unfolding IsOffered has_class
IsOffered-cons d ds automatic h = tt
IsOffered-cons d ds (with_button b) h = ground (arith, h)

button_options-IsOffered :
    (u : User) (ds : List DjClass)
    → All (λ (o : CardOption). IsOffered ds o.choice) (map (button_option u) (map to_row ds))
unfolding button_option to_row IsOffered has_class
button_options-IsOffered u [] = tt
button_options-IsOffered u (d ∷ ds) = (
  ground (arith, int_eq_iff d.button d.button),
  All-map (λ (o : CardOption). IsOffered ds o.choice)
      (λ (o : CardOption). IsOffered (d ∷ ds) o.choice) (map (button_option u) (map to_row ds))
      (λ o h. IsOffered-cons d ds o.choice h) (button_options-IsOffered u ds),
)

card_options-IsOffered :
    (u : User) (ds : List DjClass)
    → All (λ (o : CardOption). IsOffered ds o.choice) (card_options u ds)
unfolding card_options IsOffered
card_options-IsOffered u [] = tt
card_options-IsOffered u (d ∷ ds) = (tt, button_options-IsOffered u (d ∷ ds))

Offers : List DjClass → Result Card → Type 0
Offers ds (ok c) = All (λ (o : CardOption). IsOffered ds o.choice) c.options
Offers ds (err x) = Unit

card_found-Offers :
    (u : User) (l : Option VarchiveLink) (e : Env)
    → Offers (list_dj_classes u.id e.tables.classes) (card_found u l e).0
unfolding card_found Offers
card_found-Offers u none e = tt
card_found-Offers u (some l) e = elim (query-Reads (λ t. list_dj_classes u.id t.classes) e).0 [
  | inl h ↦ rw (h, card_found) (card_options-IsOffered u (list_dj_classes u.id e.tables.classes))
  | inr h ↦ rw (h, card_found) tt
]

-- Every choice of a preferred button that the card shows is the automatic one or the button of a
-- class that the user has stored, by the test that `SetPreferredButton` makes.
card-IsOffered :
    (u : User) (e : Env) (c : Card)
    → (card u e).0 ≡ ok c
    → All (λ (o : CardOption). IsOffered (list_dj_classes u.id e.tables.classes) o.choice) c.options
unfolding card Offers
card-IsOffered u e c h = subst (Offers (list_dj_classes u.id e.tables.classes)) h (
    let q = λ (t : Tables). active_link u.id t.links in
    let (cases, same) = query-Reads q e in
    elim cases [
      | inl k ↦
          rw (k, card)
            (subst
              (λ (t : Tables).
                Offers (list_dj_classes u.id t.classes) (card_found u (q e.tables) (query q e).1).0)
              same.tables_same (card_found-Offers u (q e.tables) (query q e).1))
      | inr k ↦ rw (k, card) tt
    ])
