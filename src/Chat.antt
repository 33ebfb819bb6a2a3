-- ===== src/Chat.antt =====
-- internal/realtime/chat.go: a CHAT payload made into a message. A payload is a decoded JSON
-- object; `net/url`, `strings.ToLower` and the printing and reading of numbers are parameters.
use chzzk_djclass_chat.Base.{
  ◌≡◌, refl, Bool, true, false, not, ◌||◌, Option, none, some, [], ◌∷◌, All, arith, if◌then◌else◌,
  Bool-cases, Option-cases, inl, inr,
}
use chzzk_djclass_chat.Base.Int.{ℤ, pos, int_eq}
use chzzk_djclass_chat.Base.Text.{Text, text, text_eq, text_eq_iff}
use chzzk_djclass_chat.Realtime.Batch.{ChatMessage, Emojis}

mutual
  -- `any` as `encoding/json` decodes it; `number` counts units as in Djclass.
  pub data Value : Type 0 where
    nil : Value
    string : Text → Value
    boolean : Bool → Value
    number : ℤ → Value
    array : Values → Value
    object : Fields → Value

  pub data Values : Type 0 where
    no_value : Values
    value : Value → Values → Values

  pub data Fields : Type 0 where
    no_field : Fields
    field : Text → Value → Fields → Fields

pub record Url : Type 0 where
  pub scheme : Text
  pub has_user : Bool
  pub hostname : Text

pub record Std : Type 0 where
  pub parse_url : Text → Option Url
  pub to_lower : Text → Text
  pub format_float : ℤ → Text
  pub sprint : Value → Text
  pub int_of_float : ℤ → ℤ
  pub parse_int : Text → ℤ

-- `p[name]`
unfoldable pub get_field : Text → Fields → Value
get_field name no_field = nil
get_field name (field k v fs) = if text_eq k name then v else get_field name fs

-- `v.(map[string]any)`, the nil map if it is something else.
unfoldable pub as_map : Value → Fields
as_map (object fs) = fs
as_map nil = no_field
as_map (string s) = no_field
as_map (boolean b) = no_field
as_map (number x) = no_field
as_map (array vs) = no_field

unfoldable pub str_or : Text → Text → Text
str_or a b = if text_eq a [] then b else a

unfoldable pub has_suffix : Text → Text → Bool
has_suffix [] suffix = text_eq suffix []
has_suffix (c ∷ s) suffix = text_eq (c ∷ s) suffix || has_suffix s suffix

module _ (std : Std) where
  unfoldable pub is_naver_url : Option Url → Bool
  unfolding has_suffix
  is_naver_url none = false
  is_naver_url (some u) =
      if not (text_eq u.scheme (text "https")) || u.has_user
      then false
      else has_suffix (std.to_lower u.hostname) (text ".pstatic.net")
        || has_suffix (std.to_lower u.hostname) (text ".naver.net")

  unfoldable pub is_naver_image : Text → Bool
  unfolding is_naver_url
  is_naver_image raw = is_naver_url (std.parse_url raw)

  unfoldable pub str : Value → Text
  str nil = []
  str (string s) = s
  str (boolean b) = if b then text "True" else []
  str (number x) = if int_eq x (pos 0) then [] else std.format_float x
  str (array vs) = std.sprint (array vs)
  str (object fs) = std.sprint (object fs)

  unfoldable pub to_int64 : Value → ℤ
  to_int64 nil = pos 0
  to_int64 (string s) = std.parse_int s
  to_int64 (boolean b) = pos 0
  to_int64 (number x) = std.int_of_float x
  to_int64 (array vs) = pos 0
  to_int64 (object fs) = pos 0

  -- One turn of the loop over the raw emojis.
  unfoldable pub keep_emoji : Text → Value → Emojis → Emojis
  unfolding is_naver_image
  keep_emoji k (string s) es = if is_naver_image s then (k, s) ∷ es else es
  keep_emoji k nil es = es
  keep_emoji k (boolean b) es = es
  keep_emoji k (number x) es = es
  keep_emoji k (array vs) es = es
  keep_emoji k (object fs) es = es

  unfoldable pub extract_emojis : Fields → Emojis
  unfolding keep_emoji
  extract_emojis no_field = []
  extract_emojis (field k v fs) = keep_emoji k v (extract_emojis fs)

  unfoldable pub extract_chat : Fields → Text → ChatMessage
  unfolding get_field as_map str_or str to_int64 extract_emojis
  extract_chat p channel_id =
      let profile = as_map (get_field (text "profile") p) in
      record {
        channel_id = str_or (str (get_field (text "channelId") p)) channel_id;
        sender_channel_id =
            str_or (str (get_field (text "senderChannelId") profile))
              (str (get_field (text "senderChannelId") p));
        nickname =
            str_or (str (get_field (text "nickname") profile))
              (str (get_field (text "nickname") p));
        content = str (get_field (text "content") p);
        message_time = to_int64 (get_field (text "messageTime") p);
        emojis = some (extract_emojis (as_map (get_field (text "emojis") p)));
      }

  -- An emoji's address is https, without a user, on one of the two image hosts.
  abbrev pub IsNaverImage : Text × Text → Type 0
  IsNaverImage e =
      (u : Url) × (std.parse_url e.1 ≡ some u)
      × (u.scheme ≡ text "https")
      × (u.has_user ≡ false)
      × ((has_suffix (std.to_lower u.hostname) (text ".pstatic.net")
            || has_suffix (std.to_lower u.hostname) (text ".naver.net"))
          ≡ true)

  is_naver_image-IsNaverImage : (k s : Text) → is_naver_image s ≡ true → IsNaverImage (k, s)
  unfolding is_naver_image is_naver_url
  is_naver_image-IsNaverImage k s h = elim (Option-cases (std.parse_url s)) [
    | inl e ↦ absurd (ground (arith, e, h))
    | inr (u, e) ↦
        let t = rw e at h in
        (
          u,
          e,
          ground (arith, t, text_eq_iff u.scheme (text "https")),
          ground (arith, t),
          ground (arith, t),
        )
  ]

  keep-All :
      (k : Text) (v : Value) (es : Emojis)
      → All IsNaverImage es
      → All IsNaverImage (keep_emoji k v es)
  unfolding keep_emoji
  keep-All k (string s) es h = elim (Bool-cases (is_naver_image s)) [
    | inl e ↦ rw (e, keep_emoji) (is_naver_image-IsNaverImage k s e, h)
    | inr e ↦ rw (e, keep_emoji) h
  ]
  keep-All k nil es h = h
  keep-All k (boolean b) es h = h
  keep-All k (number x) es h = h
  keep-All k (array vs) es h = h
  keep-All k (object fs) es h = h

  emojis-All : (fs : Fields) → All IsNaverImage (extract_emojis fs)
  unfolding extract_emojis
  emojis-All no_field = tt
  emojis-All (field k v fs) = keep-All k v (extract_emojis fs) (emojis-All fs)

  -- Whatever the payload, the message has a map of emojis, and each address in it is https,
  -- without a user, on one of the two image hosts.
  pub extract_chat-emojis :
      (p : Fields) (channel_id : Text)
      → (es : Emojis) × ((extract_chat p channel_id).emojis ≡ some es) × All IsNaverImage es
  unfolding extract_chat
  extract_chat-emojis p channel_id = (
    extract_emojis (as_map (get_field (text "emojis") p)),
    refl,
    emojis-All (as_map (get_field (text "emojis") p)),
  )
