-- ===== src/Eio3/Events.antt =====
-- The events that the loop of `Run` in internal/chzzk/eio3/eio3.go hands over, frame by frame.
use mathlib.Core.List.{append-nil}
use chzzk_djclass_chat.Base.{
  ℕ, ◌+◌, ◌<◌, ◌≡◌, refl, sym, Bool, true, false, Option, none, some, List, [], ◌∷◌, ◌++◌, arith,
  ◌==◌, Bool-cases, inl, inr,
}
use chzzk_djclass_chat.Base.Text.{Text}
use chzzk_djclass_chat.Eio3.{
  Json, Event, Parsed, ignored, closed, event, Session, Outcome, running, server_closed,
  heartbeat_timeout, write_failed, deliver, on_packet, on_frame, ping, event_of_packet, event_of,
  parse_socket_packet,
}

abbrev events_of : Option Event → List Event
events_of none = []
events_of (some e) = e ∷ []

-- If the session goes on, the events handled are those before with this one.
abbrev pub Adds : List Event → Option Event → Outcome → Type 0
Adds es ev (running s) = s.handled ≡ es ++ events_of ev
Adds es ev (server_closed s) = Unit
Adds es ev (heartbeat_timeout s) = Unit
Adds es ev (write_failed s) = Unit

deliver-Adds : (s : Session) (p : Parsed) → Adds s.handled (event_of_packet p) (deliver s p)
unfolding deliver event_of_packet
deliver-Adds s ignored = sym (append-nil s.handled)
deliver-Adds s closed = tt
deliver-Adds s (event e) = refl

on_packet-Adds :
    (json : Json) (s : Session) (now c : ℕ) (rest : Text)
    → Adds s.handled (event_of json (c ∷ rest)) (on_packet json s now c rest)
unfolding on_packet event_of
on_packet-Adds json s now c rest = elim (Bool-cases (c == b'4')) [
  | inl e ↦
      rw (other b'3' e (omega arith), other b'2' e (omega arith), other b'1' e (omega arith), e)
        (deliver-Adds s (parse_socket_packet json rest))
  | inr e ↦ rw e (elim (Bool-cases (c == b'3')) [
    | inl f ↦ rw f (sym (append-nil s.handled))
    | inr f ↦ rw f (elim (Bool-cases (c == b'2')) [
      | inl g ↦ rw g (sym (append-nil s.handled))
      | inr g ↦ rw g (elim (Bool-cases (c == b'1')) [
        | inl k ↦ rw k tt
        | inr k ↦ rw k (sym (append-nil s.handled))
      ])
    ])
  ])
]
  where
    other : (b : ℕ) → c == b'4' ≡ true → b < 52 → (c == b) ≡ false
    other b e h = ground arith

pub on_frame-Adds :
    (json : Json) (s : Session) (now : ℕ) (f : Text)
    → Adds s.handled (event_of json f) (on_frame json s now f)
unfolding on_frame event_of
on_frame-Adds json s now [] = sym (append-nil s.handled)
on_frame-Adds json s now (c ∷ rest) =
    on_packet-Adds json (record s { deadline = now + s.interval + s.timeout; last_frame = now }) now
      c rest

pub ping-Adds : (s : Session) (now : ℕ) (written : Bool) → Adds s.handled none (ping s now written)
unfolding ping
ping-Adds s now true = sym (append-nil s.handled)
ping-Adds s now false = tt
