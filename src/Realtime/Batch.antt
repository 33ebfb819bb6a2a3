-- ===== src/Realtime/Batch.antt =====
-- internal/realtime/hub.go: the batch that a flush makes of the buffered messages.
pub mod Laws
use chzzk_djclass_chat.Base.{
  ℕ, suc, ◌+◌, Bool, true, false, Option, none, some, List, [], ◌∷◌, ◌++◌, length, take, ltb,
  if◌then◌else◌,
}
use chzzk_djclass_chat.Base.Int.{ℤ}
use chzzk_djclass_chat.Base.Maps.{lookup}
use chzzk_djclass_chat.Base.Text.{Text}
use chzzk_djclass_chat.Effects.{Error, Result, ok, err}
use chzzk_djclass_chat.Env.{Status, unlinked, Badges, BadgeResult}

abbrev pub Emojis : Type 0
Emojis = List (Text × Text)

-- ChatMessage of chat.go; a nil map of emojis is `none`.
pub record ChatMessage : Type 0 where
  pub channel_id : Text
  pub sender_channel_id : Text
  pub nickname : Text
  pub content : Text
  pub message_time : ℤ
  pub emojis : Option Emojis

pub record BatchMessage : Type 0 where
  pub id : ℕ
  pub text : Text
  pub emojis : Emojis
  pub status : Status
  pub badge : Option Badges
  pub nickname : Text

abbrev pub max_batch : ℕ
max_batch = 200

-- The results that the batch has so far, and those of the resolver, call by call.
abbrev pub Seen : Type 0
Seen = List (Text × BadgeResult)

-- An error degrades the sender to unlinked.
unfoldable pub degrade : Result BadgeResult → BadgeResult
degrade (ok r) = r
degrade (err x) = record { status = unlinked; badge = none }

unfoldable pub emojis_or_empty : Option Emojis → Emojis
emojis_or_empty none = []
emojis_or_empty (some m) = m

unfoldable pub batch_message : ℕ → ChatMessage → BadgeResult → BatchMessage
unfolding emojis_or_empty
batch_message id m res = record {
  id = id;
  text = m.content;
  emojis = emojis_or_empty m.emojis;
  status = res.status;
  badge = res.badge;
  nickname = m.nickname;
}

-- The resolver's answer may change from call to call: it is given the number of the call.
abbrev pub Resolver : Type 0
Resolver = ℕ → Text → Result BadgeResult

-- The loop of `buildBatch`, from the last id, the number of calls made and the results seen: the
-- messages, the last id and the number of calls.
unfoldable pub batch_loop : Resolver → ℕ → ℕ → Seen → List ChatMessage → List BatchMessage × ℕ × ℕ
unfolding lookup degrade batch_message
batch_loop resolve last calls seen [] = ([], last, calls)
batch_loop resolve last calls seen (m ∷ ms) = elim (lookup m.sender_channel_id seen) [
  | some res ↦
      let (rest, last', calls') = batch_loop resolve (suc last) calls seen ms in
      (batch_message (suc last) m res ∷ rest, last', calls')
  | none ↦
      let res = degrade (resolve calls m.sender_channel_id) in
      let (rest, last', calls') =
        batch_loop resolve (suc last) (suc calls) (seen ++ (m.sender_channel_id, res) ∷ []) ms in
      (batch_message (suc last) m res ∷ rest, last', calls')
]

-- The cap on a burst.
abbrev pub capped : List ChatMessage → List ChatMessage
capped raw = if ltb max_batch (length raw) then take max_batch raw else raw

unfoldable pub build_batch : Resolver → ℕ → List ChatMessage → List BatchMessage × ℕ × ℕ
unfolding batch_loop
build_batch resolve last raw = batch_loop resolve last 0 [] (capped raw)
