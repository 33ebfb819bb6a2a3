-- ===== src/Web/Dev.antt =====
-- internal/web/dev.go: the demo viewers and the injection of chat. A nickname is its code points.
use chzzk_djclass_chat.Base.{ℕ, ◌*◌, false, Option, none, some, List, [], ◌∷◌, ◌++◌, if◌then◌else◌}
use Prim.Native.Nat.{◌^◌}
use chzzk_djclass_chat.Base.Int.{ℤ, pos}
use chzzk_djclass_chat.Base.Maps.{lookup}
use chzzk_djclass_chat.Base.Text.{Text, text, text_eq}
use chzzk_djclass_chat.Djclass.Tables.{float_unit, theory_conversion}
use chzzk_djclass_chat.Env.{M, pure, ◌>>=◌, ◌>>◌, exec, exec_row, write_tx}
use chzzk_djclass_chat.Realtime.Batch.{ChatMessage}
use chzzk_djclass_chat.Realtime.Hub.{Hub, inject}
use chzzk_djclass_chat.Store.{DjClass, upsert_dj_class, upsert_varchive_link, set_preferred_button}
use chzzk_djclass_chat.Store.Accounts.{upsert_user}

pub record DevSender : Type 0 where
  pub id : Text
  pub nickname : Text
  pub label : Text

abbrev sender : Text → Text → Text → DevSender
sender id nickname label = record { id = id; nickname = nickname; label = label }

abbrev pub dev_senders : List DevSender
dev_senders =
    sender (text "dev-showstopper") (text "DEV 쇼스토퍼") (text "연동됨: 4B SS II / 8B HL I (선호 8B)")
    ∷ sender (text "dev-theory") (text "DEV 이론치") (text "연동됨: 5B LoD 이론치")
    ∷ sender (text "dev-beginner") (text "DEV 비기너") (text "연동됨: 6B BEGINNER")
    ∷ sender (text "dev-unsynced") (text "DEV 동기화전") (text "연동됨, DJ CLASS 없음")
    ∷ sender (text "dev-unlinked") (text "DEV 미인증") (text "미인증 (DB에 없음)")
    ∷ []

-- A button, a class and a conversion, as a number of the least floats.
abbrev pub SeedClass : Type 0
SeedClass = ℕ × Text × ℕ

-- `classes` of `SeedDev`; a sender that is not in it is not linked.
unfoldable pub dev_classes : List (Text × List SeedClass)
unfolding float_unit theory_conversion
dev_classes =
    (
      text "dev-showstopper",
      (4, text "SHOWSTOPPER II", 9810 * float_unit)
          ∷ (8, text "HEADLINER I", 9660 * float_unit)
          ∷ [],
    )
    ∷ (text "dev-theory", (5, text "THE LORD OF DJMAX", theory_conversion) ∷ [])
    ∷ (text "dev-beginner", (6, text "BEGINNER", 241 * 2 ^ 1073) ∷ [])
    ∷ (text "dev-unsynced", [])
    ∷ []

unfoldable pub seed_class : ℕ → SeedClass → DjClass
seed_class i (button, class, conversion) = record {
  user_id = i;
  button = pos button;
  dj_class = class;
  dj_power_sum = none;
  max_dj_power = none;
  dj_power_conversion = some (pos conversion);
}

unfoldable pub seed_classes : ℕ → List SeedClass → M (Unit {0})
unfolding seed_class upsert_dj_class
seed_classes i [] = pure tt
seed_classes i (c ∷ cs) = exec (upsert_dj_class (seed_class i c)) >>= λ _. seed_classes i cs

unfoldable pub seed_preferred : DevSender → ℕ → M (Unit {0})
unfolding set_preferred_button
seed_preferred d i =
    if text_eq d.id (text "dev-showstopper")
    then exec (set_preferred_button i (some (pos 8)))
    else pure tt

unfoldable pub seed_sender : DevSender → Option (List SeedClass) → M (Unit {0})
unfolding seed_classes seed_preferred upsert_user upsert_varchive_link
seed_sender d none = pure tt
seed_sender d (some rows) = do
  u ← exec_row (upsert_user d.id d.nickname)
  exec (upsert_varchive_link u.id d.nickname none)
  seed_classes u.id rows
  seed_preferred d u.id

-- The loop over the senders.
unfoldable pub seed_senders : List DevSender → M (Unit {0})
unfolding seed_sender dev_classes lookup
seed_senders [] = pure tt
seed_senders (d ∷ ds) = seed_sender d (lookup d.id dev_classes) >>= λ _. seed_senders ds

-- `SeedDev`
unfoldable pub seed_dev : M (Unit {0})
unfolding seed_senders
seed_dev = write_tx false (λ ctx. seed_senders dev_senders)

abbrev pub not_sent : Text
not_sent = text "위젯이 열려 있지 않은 채널입니다. 먼저 위젯을 여세요."

unfoldable pub sent_as : DevSender → Text
sent_as d = d.nickname ++ text " 이름으로 보냈습니다."

unfoldable pub dev_message : DevSender → Text → Text → ℤ → ChatMessage
dev_message d channel content now = record {
  channel_id = channel;
  sender_channel_id = d.id;
  nickname = d.nickname;
  content = content;
  message_time = now;
  emojis = some [];
}

-- The loop of `devChat`, with the flash so far.
unfoldable pub inject_as : List DevSender → Text → Text → Text → ℤ → Text → Hub → Hub × Text
unfolding inject dev_message sent_as
inject_as [] channel id content now flash h = (h, flash)
inject_as (d ∷ ds) channel id content now flash h =
    let r = inject h channel (dev_message d channel content now) in
    let flash' = if r.1 then sent_as d else flash in
    if text_eq d.id id
    then inject_as ds channel id content now flash' r.0
    else inject_as ds channel id content now flash h

-- `devChat`: the hub, and where the browser is sent. The encoding of a query is a parameter.
unfoldable pub dev_chat : (List (Text × Text) → Text) → Text → Text → Text → ℤ → Hub → Hub × Text
unfolding inject_as
dev_chat encode channel id content now h =
    let r = inject_as dev_senders channel id content now not_sent h in
    (r.0, text "/dev?" ++ encode ((text "channel", channel) ∷ (text "flash", r.1) ∷ []))
