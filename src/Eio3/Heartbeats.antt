-- ===== src/Eio3/Heartbeats.antt =====
-- The heartbeat of internal/chzzk/eio3/eio3.go.
use chzzk_djclass_chat.Base.{
  ℕ, ◌+◌, ◌≤◌, ◌≡◌, refl, true, some, List, [], ◌∷◌, ◌++◌, subst, arith, ◌==◌, inl, inr, Bool-cases,
}
use mathlib.Core.Option.{some-injective}
use chzzk_djclass_chat.Base.Text.{Text}
use chzzk_djclass_chat.Eio3.{
  Json, Event, Parsed, ignored, closed, event, Session, Outcome, running, server_closed,
  heartbeat_timeout, write_failed, start, ping, deliver, on_packet, on_frame, parse_socket_packet,
}

-- A step of a session that goes on: its ping timer fires at its time, or a frame comes, and time
-- does not run backwards.
pub data Step (json : Json) (s : Session) : Session → Type 0 where
  pinged :
      {t : Session} (now : ℕ) → s.ping_at ≡ some now → ping s now true ≡ running t → Step json s t
  framed :
      {t : Session} (now : ℕ) (frame : Text)
      → s.last_frame ≤ now
      → on_frame json s now frame ≡ running t
      → Step json s t

pub data Run (json : Json) (s : Session) : Session → Type 0 where
  begun : Run json s s
  then' : {t u : Session} → Run json s t → Step json t u → Run json s u

-- A pending ping comes within the interval after the last frame, and the deadline by the timeout
-- after that.
record Timely (s : Session) : Type 0 where
  in_time : s.deadline ≤ s.last_frame + s.interval + s.timeout
  ping_soon : (p : ℕ) → s.ping_at ≡ some p → p ≤ s.last_frame + s.interval

-- What holds of the session if it goes on.
abbrev Going : (Session → Type 0) → Outcome → Type 0
Going P (running s) = P s
Going P (server_closed s) = Unit
Going P (heartbeat_timeout s) = Unit
Going P (write_failed s) = Unit

deliver-Going :
    (P : Session → Type 0) (s : Session) (p : Parsed)
    → P s
    → ((es : List Event) → P (record s { handled = es }))
    → Going P (deliver s p)
unfolding deliver
deliver-Going P s ignored h f = h
deliver-Going P s closed h f = tt
deliver-Going P s (event e) h f = f (s.handled ++ e ∷ [])

on_packet-Timely :
    (json : Json) (s : Session) (now c : ℕ) (rest : Text)
    → Timely s
    → s.last_frame ≡ now
    → Going Timely (on_packet json s now c rest)
unfolding on_packet
on_packet-Timely json s now c rest v at_now = elim (Bool-cases (c == b'3')) [
  | inl e ↦
      rw (e, on_packet)
        (record {
          in_time = v.in_time;
          ping_soon = λ p q. let r = some-injective _ _ q in omega (arith, r, at_now);
        })
  | inr e ↦
      rw (e, on_packet)
        (elim (Bool-cases (c == b'2')) [
          | inl f ↦ rw f (record { in_time = v.in_time; ping_soon = v.ping_soon })
          | inr f ↦ rw f (elim (Bool-cases (c == b'1')) [
            | inl g ↦ rw g tt
            | inr g ↦ rw g (elim (Bool-cases (c == b'4')) [
              | inl k ↦ rw k (
                  deliver-Going Timely s (parse_socket_packet json rest) v
                    (λ es. record { in_time = v.in_time; ping_soon = v.ping_soon }))
              | inr k ↦ rw k v
            ])
          ])
        ])
]

on_frame-Timely :
    (json : Json) (s : Session) (now : ℕ) (frame : Text)
    → Timely s
    → s.last_frame ≤ now
    → Going Timely (on_frame json s now frame)
unfolding on_frame
on_frame-Timely json s now [] v later = record {
  in_time = omega arith;
  ping_soon = λ p q. omega (arith, v.ping_soon p q);
}
on_frame-Timely json s now (c ∷ rest) v later =
    on_packet-Timely json (record s { deadline = now + s.interval + s.timeout; last_frame = now })
      now c rest
      (record { in_time = omega arith; ping_soon = λ p q. omega (arith, v.ping_soon p q) }) refl

ping-Timely :
    (s : Session) (now : ℕ) → Timely s → s.ping_at ≡ some now → Going Timely (ping s now true)
unfolding ping
ping-Timely s now v due = record {
  in_time = omega (arith, v.ping_soon now due);
  ping_soon = λ p q. absurd (ground (arith, q));
}

Step-Timely : (json : Json) (s t : Session) → Step json s t → Timely s → Timely t
Step-Timely json s t (pinged now due e) v = subst (Going Timely) e (ping-Timely s now v due)
Step-Timely json s t (framed now frame later e) v =
    subst (Going Timely) e (on_frame-Timely json s now frame v later)

Run-Timely : (json : Json) (s t : Session) → Run json s t → Timely s → Timely t
Run-Timely json s t begun v = v
Run-Timely json s t (then' r k) v = Step-Timely json _ _ k (Run-Timely json s _ r v)

-- Whatever frames come, and pings go out when their timer is due, the deadline of a session that
-- goes on is never later than the interval and the timeout after the last frame.
pub silence-bounded :
    (json : Json) (interval timeout now : ℕ) (s : Session)
    → Run json (start interval timeout now) s
    → s.deadline ≤ s.last_frame + s.interval + s.timeout
unfolding start
silence-bounded json interval timeout now s r =
    (Run-Timely json (start interval timeout now) s r (record {
      in_time = omega arith;
      ping_soon = λ p q. let k = some-injective _ _ q in omega (arith, k);
    })).in_time
