-- ===== src/Eio3/Dials.antt =====
-- `SocketURL`, `Dial` and `redactErr` of internal/chzzk/eio3/eio3.go. `net/url` and the websocket
-- are parameters; what is read from the socket is a list. A frame is its bytes.
pub mod Frames
pub mod Connects
pub mod Secrets
use chzzk_djclass_chat.Base.{
  ℕ, zero, suc, ◌+◌, ◌-◌, Bool, true, false, not, ◌&&◌, ◌||◌, Option, none, some, List, [], ◌∷◌,
  ◌++◌, take, drop, length, ltb, leb, ◌==◌, if◌then◌else◌,
}
use chzzk_djclass_chat.Base.Int.{ℤ, pos, negsuc}
use chzzk_djclass_chat.Base.Text.{Text, text, text_eq, has_prefix}
use chzzk_djclass_chat.Eio3.{Dialled, waiting, connected, refused, on_dial_frame}

-- `address` is the rest of a URL: its user and its host.
pub record Url : Type 0 where
  pub scheme : Text
  pub address : Text
  pub path : Text
  pub raw_query : Text
  pub fragment : Text

-- What the code takes from `net/url` and `strconv`.
pub record Urls : Type 0 where
  pub parse : Text → Option Url
  pub print : Url → Text
  pub query_get : Text → Text → Text
  pub query_escape : Text → Text
  pub itoa : ℕ → Text

-- The errors of `Dial`, by what they are made of.
pub data DialError : Type 0 where
  bad_url : DialError
  unsupported : Text → DialError
  not_dialled : Text → DialError
  no_open : Text → DialError
  not_open : Text → DialError
  bad_open : Text → DialError
  no_ping_settings : DialError
  no_connect : Text → DialError
  refused_connect : Text → DialError
  unexpected : Text → DialError

pub data Fallible (A : Type 0) : Type 0 where
  done : A → Fallible A
  failed : DialError → Fallible A

unfoldable pub socket_scheme : Text → Option Text
socket_scheme s =
    if text_eq s (text "https") || text_eq s (text "wss")
    then some (text "wss")
    else if text_eq s (text "http") || text_eq s (text "ws")
    then some (text "ws")
    else none

unfoldable pub socket_query : Text → Text
socket_query q = (if text_eq q [] then q else q ++ text "&") ++ text "transport=websocket&EIO=3"

-- What is read: a message that is not text, a frame, or the error that ends the reading.
pub data Read : Type 0 where
  binary : Read
  frame : Text → Read
  broken : Text → Read

-- How the reading of `Dial` stands: it waits for the socket, or it is over, with what is left.
pub data Reading : Type 0 where
  pending : Reading
  connected_with : List Read → Reading
  ends : DialError → Reading

-- The reading, and the frames written meanwhile.
pub record Dialling : Type 0 where
  pub sent : List Text
  pub reading : Reading

-- The open packet, as decoded: the cause of a failure, or the ping settings.
pub data Handshake : Type 0 where
  undecoded : Text → Handshake
  settings : ℤ → ℤ → Handshake

unfoldable pub is_positive : ℤ → Bool
is_positive (pos n) = ltb 0 n
is_positive (negsuc n) = false

abbrev pub replacement : Text
replacement = text "REDACTED"

unfoldable pub reply : Option Text → Dialling → Dialling
reply none d = d
reply (some pong) d = record d { sent = pong ∷ d.sent }

module _ (urls : Urls) where
  unfoldable pub endpoint : Url → Fallible Text
  unfolding socket_scheme socket_query
  endpoint u = elim (socket_scheme u.scheme) [
    | none ↦ failed (unsupported u.scheme)
    | some scheme ↦ done (
        urls.print (record {
          scheme = scheme;
          address = u.address;
          path = text "/socket.io/";
          raw_query = socket_query u.raw_query;
          fragment = [];
        }))
  ]

  -- `SocketURL`
  unfoldable pub socket_url : Text → Fallible Text
  unfolding endpoint
  socket_url s = elim (urls.parse s) [ none ↦ failed bad_url | some u ↦ endpoint u ]

  unfoldable pub truncate : Text → ℕ → Text
  truncate s n =
      if leb (length s) n
      then s
      else take n s ++ 226 ∷ 128 ∷ 166 ∷ text "(" ++ urls.itoa (length s) ++ text " bytes)"

  -- The end of the wait on a frame that is refused.
  unfoldable pub frame_error : Text → DialError
  unfolding truncate
  frame_error f =
      if has_prefix f (text "44")
      then refused_connect (truncate (drop 2 f) 200)
      else unexpected (truncate f 64)

  -- What a frame does to the reading, given the rest of it.
  unfoldable pub on_awaited : Text → Dialled → List Read → Dialling → Dialling
  unfolding frame_error reply
  on_awaited f connected rs rest = record { sent = []; reading = connected_with rs }
  on_awaited f refused rs rest = record { sent = []; reading = ends (frame_error f) }
  on_awaited f (waiting pong) rs rest = reply pong rest

  -- The loop of `Dial`.
  unfoldable pub await_connect : List Read → Dialling
  unfolding on_awaited
  await_connect [] = record { sent = []; reading = pending }
  await_connect (binary ∷ rs) = await_connect rs
  await_connect (broken cause ∷ rs) = record { sent = []; reading = ends (no_connect cause) }
  await_connect (frame f ∷ rs) = on_awaited f (on_dial_frame f) rs (await_connect rs)

  unfoldable pub on_handshake : Handshake → List Read → Dialling
  unfolding await_connect is_positive
  on_handshake (undecoded cause) rs = record { sent = []; reading = ends (bad_open cause) }
  on_handshake (settings interval timeout) rs =
      if not (is_positive interval) || not (is_positive timeout)
      then record { sent = []; reading = ends no_ping_settings }
      else await_connect rs

  unfoldable pub on_open : (Text → Handshake) → Text → List Read → Dialling
  unfolding on_handshake truncate
  on_open decode [] rs = record { sent = []; reading = ends (not_open []) }
  on_open decode (c ∷ f) rs =
      if c == b'0'
      then on_handshake (decode f) rs
      else record { sent = []; reading = ends (not_open (truncate (c ∷ f) 64)) }

  -- `Dial` from its first read on.
  unfoldable pub await_open : (Text → Handshake) → List Read → Dialling
  unfolding on_open
  await_open decode [] = record { sent = []; reading = pending }
  await_open decode (binary ∷ rs) = await_open decode rs
  await_open decode (broken cause ∷ rs) = record { sent = []; reading = ends (no_open cause) }
  await_open decode (frame f ∷ rs) = on_open decode f rs

  -- `strings.ReplaceAll`, for a text that is not empty: so many characters are still to be skipped.
  unfoldable pub replace_from : Text → Text → ℕ → Text → Text
  replace_from old new' k [] = []
  replace_from old new' (suc k) (c ∷ s) = replace_from old new' k s
  replace_from old new' zero (c ∷ s) = elim (has_prefix (c ∷ s) old) [
    | true ↦ new' ++ replace_from old new' (length old - 1) s
    | false ↦ c ∷ replace_from old new' zero s
  ]

  unfoldable pub hide : Text → Text → Text
  unfolding replace_from
  hide auth message =
      if text_eq auth []
      then message
      else replace_from (urls.query_escape auth) replacement 0
          (replace_from auth replacement 0 message)

  -- `redactErr`
  unfoldable pub redact_err : Text → Text → Text
  unfolding hide
  redact_err message secret_url = elim (urls.parse secret_url) [
    | none ↦ message
    | some u ↦ hide (urls.query_get u.raw_query (text "auth")) message
  ]

  -- `Dial`: the websocket is dialled, or not, with a message; and then it is read.
  unfoldable pub on_websocket : (Text → Handshake) → Text → Option Text → List Read → Dialling
  unfolding await_open redact_err
  on_websocket decode url none rs = await_open decode rs
  on_websocket decode url (some message) rs = record {
    sent = [];
    reading = ends (not_dialled (redact_err message url));
  }

  unfoldable pub on_endpoint :
      (Text → Handshake) → (Text → Option Text) → Fallible Text → List Read → Dialling
  unfolding on_websocket
  on_endpoint decode dial_websocket (failed x) rs = record { sent = []; reading = ends x }
  on_endpoint decode dial_websocket (done url) rs = on_websocket decode url (dial_websocket url) rs

  unfoldable pub dial : (Text → Handshake) → (Text → Option Text) → Text → List Read → Dialling
  unfolding on_endpoint socket_url
  dial decode dial_websocket session_url rs =
      on_endpoint decode dial_websocket (socket_url session_url) rs
