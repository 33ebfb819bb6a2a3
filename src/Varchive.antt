-- ===== src/Varchive.antt =====
-- internal/varchive/varchive.go: the client of V-ARCHIVE. The network, encoding/json, `url.PathEscape`
-- and `strconv.Itoa` are parameters; a request is answered by its path and its token.
pub mod Buttons
pub mod Rows
pub mod Syncs
use chzzk_djclass_chat.Base.{
  ℕ, Bool, true, false, not, ◌||◌, Option, none, some, List, [], ◌∷◌, ◌++◌, map, take, ◌==◌,
  if◌then◌else◌,
}
use chzzk_djclass_chat.Base.Int.{ℤ, pos}
use chzzk_djclass_chat.Base.Text.{Text, text, text_eq}
use chzzk_djclass_chat.Effects.{Result, invalid_token, unavailable, bad_request, ok, err}
use chzzk_djclass_chat.Link.{VaUser, VaClass, VArchive}

-- The fields that are decoded from the two answers.
pub record UserBody : Type 0 where
  pub success : Bool
  pub user_no : Option ℤ
  pub nickname : Option Text

pub record ClassBody : Type 0 where
  pub success : Bool
  pub dj_class : Text
  pub dj_power_sum : Option ℤ
  pub max_dj_power : Option ℤ
  pub dj_power_conversion : Option ℤ

-- `admits` is whether a call gets one of the places in flight before its context is done, `valid`
-- whether a URL makes a request. An answer is a status and, unless the reading fails, a body.
pub record Http : Type 0 where
  pub admits : Text → Bool
  pub valid : Text → Bool
  pub send : Text → Text → Option (ℕ × Option Text)
  pub user_body : Text → Option UserBody
  pub class_body : Text → Option ClassBody
  pub path_escape : Text → Text
  pub itoa : ℕ → Text

abbrev pub base_url : Text
base_url = text "https://v-archive.net"

abbrev pub max_body : ℕ
max_body = 1048576

-- `Buttons`
abbrev pub buttons : List ℕ
buttons = 4 ∷ 5 ∷ 6 ∷ 8 ∷ []

-- The end of `get`.
unfoldable pub received : Option (ℕ × Option Text) → Result (ℕ × Text)
received none = err unavailable
received (some (status, none)) = err unavailable
received (some (status, some body)) = ok (status, take max_body body)

unfoldable pub user_of : Option UserBody → Result VaUser
user_of none = err unavailable
user_of (some b) = if not b.success then err invalid_token else elim b.user_no [
  | none ↦ err invalid_token
  | some n ↦ elim b.nickname [
    | none ↦ err invalid_token
    | some nickname ↦ ok (record { user_no = n; nickname = nickname })
  ]
]

unfoldable pub class_of : ℕ → Option ClassBody → Option VaClass
class_of button none = none
class_of button (some b) =
    if not b.success || text_eq b.dj_class []
    then none
    else some (record {
      button = pos button;
      class = b.dj_class;
      power_sum = b.dj_power_sum;
      max_power = b.max_dj_power;
      power_conversion = b.dj_power_conversion;
    })

-- `append` of the classes that are there.
unfoldable pub present : List (Option VaClass) → List VaClass
present [] = []
present (none ∷ os) = present os
present (some c ∷ os) = c ∷ present os

module _ (http : Http) where
  unfoldable pub get : Text → Text → Result (ℕ × Text)
  unfolding received
  get path bearer =
      if not (http.admits path)
      then err unavailable
      else if not (http.valid (base_url ++ path))
      then err bad_request
      else received (http.send (base_url ++ path) bearer)

  unfoldable pub looked_up : Result (ℕ × Text) → Result VaUser
  unfolding user_of
  looked_up (err x) = err x
  looked_up (ok (status, body)) =
      if status == 401
      then err invalid_token
      else if not (status == 200)
      then err unavailable
      else user_of (http.user_body body)

  unfoldable pub lookup_user : Text → Result VaUser
  unfolding get looked_up
  lookup_user token = looked_up (get (text "/api/v2/open-token/user") token)

  unfoldable pub fetched : ℕ → Result (ℕ × Text) → Result (Option VaClass)
  unfolding class_of
  fetched button (err x) = err x
  fetched button (ok (status, body)) =
      if not (status == 200) then ok none else ok (class_of button (http.class_body body))

  unfoldable pub dj_class_for : Text → ℕ → Result (Option VaClass)
  unfolding get fetched
  dj_class_for nickname button = fetched button (
      get
        (text "/api/v2/archive/"
          ++ http.path_escape nickname
          ++ text "/djClass/"
          ++ http.itoa button)
        [])

  unfoldable pub slot : Result (Option VaClass) → Option VaClass
  slot (err x) = none
  slot (ok o) = o

  -- Each call writes a slot of its own, so their order does not matter.
  unfoldable pub all_dj_classes : Text → List VaClass
  unfolding present slot dj_class_for
  all_dj_classes nickname = present (map (λ b. slot (dj_class_for nickname b)) buttons)

  -- The client as the interface of internal/link.
  unfoldable pub client : VArchive
  unfolding lookup_user all_dj_classes
  client = record { lookup_user = lookup_user; all_dj_classes = all_dj_classes }
