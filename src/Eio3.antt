-- ===== src/Eio3.antt =====
-- internal/chzzk/eio3/eio3.go: packets, the handshake and the heartbeat. `encoding/json` is a
-- parameter; the websocket is the sequence of frames read. A time is in milliseconds.
pub mod Packets
pub mod Heartbeats
pub mod Events
pub mod Dials
use chzzk_djclass_chat.Base.{
  ℕ, ◌+◌, Bool, true, false, not, ◌&&◌, ◌||◌, Option, none, some, List, [], ◌∷◌, ◌++◌, leb, ◌==◌,
  if◌then◌else◌,
}
use chzzk_djclass_chat.Base.Text.{Text, text, text_eq, has_prefix, cut_at}

-- What the code takes from `encoding/json`, a raw message being its text.
pub record Json : Type 0 where
  pub valid : Text → Bool
  pub marshal_string : Text → Text
  pub array : Text → Option (List Text)
  pub string : Text → Option Text

pub record Event : Type 0 where
  pub name : Text
  pub args : List Text

-- The results of `parseSocketPacket`: nothing, `closed`, or an event.
pub data Parsed : Type 0 where
  ignored closed : Parsed
  event : Event → Parsed

-- The namespace without its query.
unfoldable pub without_query : Text → Text
unfolding cut_at
without_query nsp = elim (cut_at b'?' nsp) [ none ↦ nsp | some (before, _) ↦ before ]

abbrev nsp_and_rest : Option (Text × Text) → Text → Text × Text
nsp_and_rest none rest = (rest, [])
nsp_and_rest (some p) rest = p

-- What follows a namespace, `none` if that is not the default one.
unfoldable pub after_namespace : Text → Option Text
unfolding cut_at without_query
after_namespace rest =
    if has_prefix rest (text "/")
    then (let p = nsp_and_rest (cut_at b',' rest) rest in
        if text_eq (without_query p.0) (text "/") then some p.1 else none)
    else some rest

unfoldable pub is_digit : ℕ → Bool
is_digit c = leb b'0' c && leb c b'9'

-- The ack id.
unfoldable pub skip_digits : Text → Text
unfolding is_digit
skip_digits [] = []
skip_digits (c ∷ s) = if is_digit c then skip_digits s else c ∷ s

module _ (json : Json) where
  unfoldable pub named_event : List Text → Parsed
  named_event [] = ignored
  named_event (a ∷ args) = elim (json.string a) [
    | none ↦ ignored
    | some name ↦ event (record { name = name; args = args })
  ]

  unfoldable pub parse_event : Text → Parsed
  unfolding skip_digits named_event
  parse_event rest = elim (json.array (skip_digits rest)) [
    | none ↦ ignored
    | some arr ↦ named_event arr
  ]

  unfoldable pub error_event : Text → Parsed
  error_event rest = event (record {
    name = text "error";
    args = (if json.valid rest then rest else json.marshal_string rest) ∷ [];
  })

  unfoldable pub by_type : ℕ → Text → Parsed
  unfolding parse_event error_event
  by_type typ rest =
      if typ == b'1'
      then closed
      else if typ == b'4'
      then error_event rest
      else if typ == b'2'
      then parse_event rest
      else ignored

  unfoldable pub parse_socket_packet : Text → Parsed
  unfolding after_namespace by_type
  parse_socket_packet [] = ignored
  parse_socket_packet (typ ∷ rest) = elim (after_namespace rest) [
    | none ↦ ignored
    | some body ↦ by_type typ body
  ]

-- The session: its timers, when the last frame came, the frames sent and the events handled.
pub record Session : Type 0 where
  pub interval : ℕ
  pub timeout : ℕ
  pub ping_at : Option ℕ
  pub deadline : ℕ
  pub last_frame : ℕ
  pub sent : List Text
  pub handled : List Event

-- The start of `Run` at a time.
unfoldable pub start : ℕ → ℕ → ℕ → Session
start interval timeout now = record {
  interval = interval;
  timeout = timeout;
  ping_at = some (now + interval);
  deadline = now + interval + timeout;
  last_frame = now;
  sent = [];
  handled = [];
}

-- The session goes on, or `Run` returns.
pub data Outcome : Type 0 where
  running : Session → Outcome
  server_closed heartbeat_timeout write_failed : Session → Outcome

-- `case <-deadline.C`
unfoldable pub expire : Session → Outcome
expire s = heartbeat_timeout s

-- `case <-pingTimer.C`, at the time it fires.
unfoldable pub ping : Session → ℕ → Bool → Outcome
ping s now written =
    if written
    then running
        (record s { ping_at = none; deadline = now + s.timeout; sent = s.sent ++ text "2" ∷ [] })
    else write_failed s

unfoldable pub deliver : Session → Parsed → Outcome
deliver s ignored = running s
deliver s closed = server_closed s
deliver s (event e) = running (record s { handled = s.handled ++ e ∷ [] })

-- The switch on the first byte of a frame.
unfoldable pub on_packet : Json → Session → ℕ → ℕ → Text → Outcome
unfolding deliver parse_socket_packet
on_packet json s now c rest =
    if c == b'3'
    then running (record s { ping_at = some (now + s.interval) })
    else if c == b'2'
    then running (record s { sent = s.sent ++ (b'3' ∷ rest) ∷ [] })
    else if c == b'1'
    then server_closed s
    else if c == b'4'
    then deliver s (parse_socket_packet json rest)
    else running s

-- `case frame := <-frames`
unfoldable pub on_frame : Json → Session → ℕ → Text → Outcome
unfolding on_packet
on_frame json s now [] =
    running (record s { deadline = now + s.interval + s.timeout; last_frame = now })
on_frame json s now (c ∷ rest) =
    on_packet json (record s { deadline = now + s.interval + s.timeout; last_frame = now }) now c
      rest

-- The event that a frame brings to the callback of `Run`.
unfoldable pub event_of_packet : Parsed → Option Event
event_of_packet ignored = none
event_of_packet closed = none
event_of_packet (event e) = some e

unfoldable pub event_of : Json → Text → Option Event
unfolding event_of_packet parse_socket_packet
event_of json [] = none
event_of json (c ∷ rest) =
    if c == b'4' then event_of_packet (parse_socket_packet json rest) else none

-- The end of `Dial`, a frame at a time: waiting, connected or refused; what is sent back.
pub data Dialled : Type 0 where
  waiting : Option Text → Dialled
  connected refused : Dialled

unfoldable pub on_dial_frame : Text → Dialled
on_dial_frame frame =
    if text_eq frame (text "40") || has_prefix frame (text "40{")
    then connected
    else if has_prefix frame (text "44")
    then refused
    else elim frame [
      | [] ↦ refused
      | c ∷ rest ↦
          if c == b'2'
          then waiting (some (b'3' ∷ rest))
          else if c == b'6'
          then waiting none
          else refused
    ]
