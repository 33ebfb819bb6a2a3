-- ===== src/Ingest/Sessions/Marks.antt =====
-- What the events of a session of internal/realtime/ingest.go mean to it: messages, keys and causes.
use chzzk_djclass_chat.Base.{
  ◌≡◌, ◌≢◌, refl, ap, sym, ◌∙◌, ◌⊎◌, inl, inr, Bool, true, false, not, ◌&&◌, ◌||◌, Option, none,
  some, List, [], ◌∷◌, ◌++◌, any_of, arith, if◌then◌else◌,
}
use mathlib.Core.List.{append-nil, append_assoc}
use chzzk_djclass_chat.Base.Text.{Text, text, text_eq}
use chzzk_djclass_chat.Chat.{Std, extract_chat}
use chzzk_djclass_chat.Eio3.{Event}
use chzzk_djclass_chat.Ingest.Sessions.{
  Cause, no_session_key, gave_up, Live, Decoder, first_arg, fail, session_key, is_connected,
}
use chzzk_djclass_chat.Realtime.Batch.{ChatMessage}

-- What a function makes of events, in their order.
unfoldable pub gather {ℓ} : {B : Type ℓ} → (Event → List B) → List Event → List B
gather f [] = []
gather f (e ∷ es) = f e ++ gather f es

pub gather-append {ℓ} :
    {B : Type ℓ} (f : Event → List B) (es : List Event) (e : Event)
    → gather f (es ++ e ∷ []) ≡ gather f es ++ f e
unfolding gather
gather-append f [] e = append-nil (f e)
gather-append f (x ∷ es) e =
    ap (λ l. f x ++ l) (gather-append f es e) ∙ sym (append_assoc (f x) (gather f es) (f e))

pub any_of-append {ℓ} :
    {A : Type ℓ} (p : A → Bool) (es : List A) (e : A) → any_of p (es ++ e ∷ []) ≡ any_of p es || p e
any_of-append p [] e = ground arith
any_of-append p (x ∷ es) e = ground (arith, any_of-append p es e)

module _ (d : Decoder) where
  -- A SYSTEM event that says the session is connected.
  unfoldable pub connects : Event → Bool
  connects e = text_eq e.name (text "SYSTEM") && is_connected (first_arg d e.args)

  unfoldable pub key_of : Event → List Text
  unfolding connects
  key_of e =
      let key = session_key (first_arg d e.args) in
      if connects e && not (text_eq key []) then key ∷ [] else []

  -- The session is connected without a key.
  unfoldable pub keyless : Event → Bool
  unfolding connects
  keyless e = connects e && text_eq (session_key (first_arg d e.args)) []

  -- The message of a CHAT event.
  unfoldable pub chat_of : Std → Text → Event → List ChatMessage
  chat_of std channel_id e =
      if text_eq e.name (text "CHAT")
      then extract_chat std (first_arg d e.args) channel_id ∷ []
      else []

-- Why a session has a cause to end: some connected event had no key, or a goroutine that it started
-- gave up; without a cause no connected event had no key.
abbrev pub Justified : Decoder → Option Cause → List Event → List Text → Type 0
Justified d none es ks = any_of (keyless d) es ≡ false
Justified d (some no_session_key) es ks = any_of (keyless d) es ≡ true
Justified d (some gave_up) es ks = ks ≢ []

pub List-cases {ℓ} :
    {A : Type ℓ} (xs : List A) → (xs ≡ []) ⊎ ((x : A) × (ys : List A) × (xs ≡ x ∷ ys))
List-cases [] = inl refl
List-cases (x ∷ xs) = inr (x, xs, refl)

append-ne-nil {ℓ} : {A : Type ℓ} (xs ys : List A) → xs ≢ [] → xs ++ ys ≢ []
append-ne-nil [] ys h = absurd (h refl)
append-ne-nil (x ∷ xs) ys h = λ e. cc

-- An event that has a key, or says nothing of one, changes nothing of that.
pub keyed-Justified :
    (d : Decoder) (c : Option Cause) (es : List Event) (e : Event) (ks new' : List Text)
    → keyless d e ≡ false
    → Justified d c es ks
    → Justified d c (es ++ e ∷ []) (ks ++ new')
keyed-Justified d none es e ks new' n h = any_of-append (keyless d) es e ∙ rw (h, n) refl
keyed-Justified d (some no_session_key) es e ks new' n h =
    any_of-append (keyless d) es e ∙ rw h refl
keyed-Justified d (some gave_up) es e ks new' n h = append-ne-nil ks new' h

pub keyless-Justified :
    (d : Decoder) (l : Live) (c : Option Cause) (es : List Event) (e : Event) (ks : List Text)
    → keyless d e ≡ true
    → Justified d c es ks
    → Justified d (fail no_session_key (record l { cause = c })).cause (es ++ e ∷ []) ks
unfolding fail
keyless-Justified d l none es e ks n h = any_of-append (keyless d) es e ∙ rw (h, n) refl
keyless-Justified d l (some no_session_key) es e ks n h = any_of-append (keyless d) es e ∙ rw h refl
keyless-Justified d l (some gave_up) es e ks n h = h
