-- ===== src/Ingest/Sessions.antt =====
-- internal/realtime/ingest.go: one session, from the token to its end, over the socket of
-- internal/chzzk/eio3. What the socket gives, what the goroutines of `subscribe` do and what the
-- other users of the hub do meanwhile is a list of inputs; the dialling is a parameter.
pub mod Marks
pub mod Handles
pub mod Relays
use chzzk_djclass_chat.Base.{
  ℕ, Bool, true, false, Option, none, some, List, [], ◌∷◌, ◌++◌, get_elem?, if◌then◌else◌,
}
use chzzk_djclass_chat.Base.Text.{Text, text, text_eq}
use chzzk_djclass_chat.Chat.{Value, Fields, Std, string, no_field, get_field, as_map, extract_chat}
use chzzk_djclass_chat.Chzzk
use chzzk_djclass_chat.Chzzk.{Client, Failure, given, failed, user_session_url}
use chzzk_djclass_chat.Effects.{Error, Result, ok, err}
use chzzk_djclass_chat.Eio3
use chzzk_djclass_chat.Eio3.{
  Json, Event, Outcome, running, server_closed, heartbeat_timeout, write_failed, start, expire,
  ping, on_frame, event_of,
}
use chzzk_djclass_chat.Realtime.Batch.{ChatMessage}
use chzzk_djclass_chat.Realtime.Hub.{Hub, push}
use chzzk_djclass_chat.Realtime.Hub.Moves.{Move, move}

-- The session's own reasons to end.
pub data Cause : Type 0 where
  no_session_key gave_up : Cause

-- The ends of `Run`, and those of `session` before and around it.
pub data Ended : Type 0 where
  closed_by_server timed_out ping_failed read_failed shut_down : Ended
  failed_with : Cause → Ended
  no_token : Error → Ended
  no_url : Failure → Ended
  not_dialled : Failure → Ended

-- `subscribing` has the session keys of the goroutines started, and `pushed` the messages given to
-- the channel.
pub record Live : Type 0 where
  pub socket : Eio3.Session
  pub hub : Hub
  pub cause : Option Cause
  pub subscribing : List Text
  pub pushed : List ChatMessage

-- The inputs of `Run`; a goroutine of `subscribe` gives up; the server stops; another step of the
-- hub. `cancelled` is the session's own context, which is over once it has a cause.
pub data Input : Type 0 where
  frame : ℕ → Text → Input
  ping_due : ℕ → Bool → Input
  deadline read_error cancelled subscribe_fails stopped : Input
  elsewhere : Move → Input

pub data Turn : Type 0 where
  going : Live → Turn
  ended : Ended → Live → Turn

-- What the code takes from `encoding/json`: of an object, its fields.
pub record Decoder : Type 0 where
  pub json : Json
  pub object : Text → Option Fields

-- `DecodeArg`
unfoldable pub inner_text : Text → Option Text → Text
inner_text arg none = arg
inner_text arg (some s) = s

unfoldable pub fields_or_empty : Option Fields → Fields
fields_or_empty none = no_field
fields_or_empty (some fs) = fs

unfoldable pub decode_arg : Decoder → Text → Fields
unfolding inner_text fields_or_empty
decode_arg d arg = fields_or_empty (d.object (inner_text arg (d.json.string arg)))

unfoldable pub first_arg : Decoder → List Text → Fields
unfolding decode_arg
first_arg d [] = no_field
first_arg d (arg ∷ args) = decode_arg d arg

-- `v.(string)`, the empty text if it is something else.
unfoldable pub as_string : Value → Text
as_string (string s) = s
as_string v = []

-- `fail`: the first cause stays.
unfoldable pub fail : Cause → Live → Live
fail c l = record l { cause = elim l.cause [ none ↦ some c | some first ↦ some first ] }

unfoldable pub connected : Text → Live → Live
unfolding fail
connected key l =
    if text_eq key []
    then fail no_session_key l
    else record l { subscribing = l.subscribing ++ key ∷ [] }

unfoldable pub session_key : Fields → Text
unfolding as_string
session_key data' =
    as_string (get_field (text "sessionKey") (as_map (get_field (text "data") data')))

-- `data["type"]`
unfoldable pub is_connected : Fields → Bool
unfolding as_string
is_connected data' = text_eq (as_string (get_field (text "type") data')) (text "connected")

module _ (d : Decoder) (std : Std) (channel_id : Text) (ref : ℕ) where
  unfoldable pub on_chat : Fields → Live → Live
  unfolding extract_chat push
  on_chat data' l =
      let m = extract_chat std data' channel_id in
      record l { hub = push l.hub ref m; pushed = l.pushed ++ m ∷ [] }

  -- The callback of `Run`.
  unfoldable pub handle : Event → Live → Live
  unfolding first_arg connected session_key is_connected on_chat
  handle ev l =
      let data' = first_arg d ev.args in
      if text_eq ev.name (text "CHAT")
      then on_chat data' l
      else if text_eq ev.name (text "SYSTEM")
      then (if is_connected data' then connected (session_key data') l else l)
      else l

  -- `Run` returns; the session's own cause comes first.
  unfoldable pub finish : Ended → Live → Turn
  finish e l = elim l.cause [ none ↦ ended e l | some c ↦ ended (failed_with c) l ]

  unfoldable pub handle_some : Option Event → Live → Live
  unfolding handle
  handle_some none l = l
  handle_some (some e) l = handle e l

  -- What follows a case of the `select` of `Run`.
  unfoldable pub after : Live → Option Event → Outcome → Turn
  unfolding handle_some finish
  after l ev (running s) = going (handle_some ev (record l { socket = s }))
  after l ev (server_closed s) = finish closed_by_server l
  after l ev (heartbeat_timeout s) = finish timed_out l
  after l ev (write_failed s) = finish ping_failed l

  unfoldable pub turn : Input → Live → Turn
  unfolding after event_of on_frame ping expire move fail
  turn (frame now f) l = after l (event_of d.json f) (on_frame d.json l.socket now f)
  turn (ping_due now written) l = after l none (ping l.socket now written)
  turn deadline l = after l none (expire l.socket)
  turn read_error l = finish read_failed l
  turn cancelled l = elim l.cause [ none ↦ going l | some c ↦ ended (failed_with c) l ]
  turn subscribe_fails l = elim l.subscribing [ [] ↦ going l | k ∷ ks ↦ going (fail gave_up l) ]
  turn stopped l = ended shut_down l
  turn (elsewhere m) l = going (record l { hub = move m l.hub })

  -- The session as far as the inputs go, with its end if it has come.
  unfoldable pub drive : List Input → Live → Live × Option Ended
  unfolding turn
  drive [] l = (l, none)
  drive (i ∷ is) l = elim (turn i l) [ going k ↦ drive is k | ended e k ↦ (k, some e) ]

  -- A socket just dialled, with the ping settings of its handshake, at a time.
  unfoldable pub opened : Hub → ℕ → ℕ → ℕ → Live
  unfolding start
  opened h interval timeout now = record {
    socket = start interval timeout now;
    hub = h;
    cause = none;
    subscribing = [];
    pushed = [];
  }

  -- The dialling gives the settings and the time, or an error's text.
  unfoldable pub on_dialled : Chzzk.Outcome (ℕ × ℕ × ℕ) → Hub → List Input → Hub × Option Ended
  unfolding drive opened
  on_dialled (given (interval, timeout, now)) h is =
      let r = drive is (opened h interval timeout now) in (r.0.hub, r.1)
  on_dialled (failed x) h is = (h, some (not_dialled x))

  unfoldable pub on_url :
      (Text → Chzzk.Outcome (ℕ × ℕ × ℕ))
      → Chzzk.Outcome Text
      → Hub
      → List Input
      → Hub × Option Ended
  unfolding on_dialled
  on_url dial (given url) h is = on_dialled (dial url) h is
  on_url dial (failed x) h is = (h, some (no_url x))

  -- `session`, from the answer of `AccessToken`.
  unfoldable pub session :
      Client
      → (Text → Chzzk.Outcome (ℕ × ℕ × ℕ))
      → Result Text
      → Hub
      → List Input
      → Hub × Option Ended
  unfolding on_url user_session_url
  session c dial (ok token) h is = on_url dial (user_session_url c token) h is
  session c dial (err x) h is = (h, some (no_token x))
