-- ===== src/Eio3/Packets.antt =====
-- Packets of internal/chzzk/eio3/eio3.go that are delivered.
use chzzk_djclass_chat.Base.{
  ◌≡◌, ◌≢◌, ◌==◌, refl, true, false, some, List, [], ◌∷◌, ◌++◌, All, arith,
}
use chzzk_djclass_chat.Base.Text.{Text, text, text_eq, has_prefix, cut_at}
use chzzk_djclass_chat.Eio3.{
  Json, event, is_digit, skip_digits, after_namespace, without_query, parse_event, named_event,
  by_type, parse_socket_packet,
}

skip-All :
    (ack body : Text)
    → All (λ c. is_digit c ≡ true) ack
    → skip_digits (ack ++ b'[' ∷ body) ≡ b'[' ∷ body
unfolding skip_digits is_digit
skip-All [] body d = refl
skip-All (c ∷ ack) body d = ground (arith, d.0, skip-All ack body d.1)

no_namespace :
    (ack body : Text)
    → All (λ c. is_digit c ≡ true) ack
    → after_namespace (ack ++ b'[' ∷ body) ≡ some (ack ++ b'[' ∷ body)
unfolding after_namespace has_prefix is_digit
no_namespace [] body d = refl
no_namespace (c ∷ ack) body d = ground (arith, d.0)

-- How a packet names the default namespace: not at all, or by a slash, with a query or without.
pub data NamesDefault : Text → Type 0 where
  unnamed : NamesDefault []
  slash : NamesDefault (text "/,")
  slash_query : (q : Text) → All (λ c. c ≢ b',') q → NamesDefault (text "/?" ++ (q ++ text ","))

cut_query :
    (q rest : Text) → All (λ c. c ≢ b',') q → cut_at b',' ((q ++ text ",") ++ rest) ≡ some (q, rest)
unfolding cut_at
cut_query [] rest h = refl
cut_query (c ∷ q) rest h = rw (other, cut_query q rest h.1) refl
  where
    other : (c == b',') ≡ false
    other = ground (arith, h.0)

named_default :
    (ns ack body : Text)
    → NamesDefault ns
    → All (λ c. is_digit c ≡ true) ack
    → after_namespace (ns ++ (ack ++ b'[' ∷ body)) ≡ some (ack ++ b'[' ∷ body)
unfolding after_namespace has_prefix cut_at without_query text_eq
named_default ns ack body unnamed d = no_namespace ack body d
named_default ns ack body slash d = refl
named_default ns ack body (slash_query q h) d = rw (cut_query q (ack ++ b'[' ∷ body) h) refl

-- An EVENT packet of the default namespace, which it names by a slash, with a query or without, or
-- not at all, and with any ack id or none, is delivered under the name and with the arguments that
-- its JSON array has.
pub parse_socket_packet-event :
    (json : Json) (ns ack body name first : Text) (args : List Text)
    → NamesDefault ns
    → All (λ c. is_digit c ≡ true) ack
    → json.array (b'[' ∷ body) ≡ some (first ∷ args)
    → json.string first ≡ some name
    → parse_socket_packet json (b'2' ∷ (ns ++ (ack ++ b'[' ∷ body)))
      ≡ event (record { name = name; args = args })
unfolding parse_socket_packet by_type parse_event named_event
parse_socket_packet-event json ns ack body name first args n d whole str =
    rw (named_default ns ack body n d, parse_socket_packet)
      (rw (skip-All ack body d, by_type, parse_event) (rw whole (rw (str, named_event) refl)))
