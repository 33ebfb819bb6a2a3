-- ===== src/Ratelimit/Clients.antt =====
-- internal/ratelimit/ratelimit.go: `ClientIP`, with `net.SplitHostPort`.
use chzzk_djclass_chat.Base.{
  ℕ, Bool, false, not, ◌&&◌, Option, none, some, [], ◌∷◌, ◌==◌, if◌then◌else◌, any_of,
}
use chzzk_djclass_chat.Base.Text.{Text, text_eq, span, trim_space}

-- The two headers, "" where one is absent, and the peer's address.
pub record Request : Type 0 where
  pub cf_connecting_ip : Text
  pub x_forwarded_for : Text
  pub remote_addr : Text

abbrev has_char : ℕ → Text → Bool
has_char c = any_of (λ d. c == d)

-- What follows the host: a colon and a port with no colon in it.
unfoldable pub is_port : Text → Bool
is_port [] = false
is_port (c ∷ port) = c == b':' && not (has_char b':' port)

-- After the bracket that opens the host: no further one, and a port after the one that closes it.
unfoldable pub split_bracket : Text → Option Text
unfolding span is_port
split_bracket rest =
    let cut = span (λ c. not (c == b']')) rest in
    elim cut.1 [
      | [] ↦ none
      | _ ∷ after ↦
          if is_port after && not (has_char b'[' rest) && not (has_char b']' after)
          then some cut.0
          else none
    ]

unfoldable pub split_plain : Text → Option Text
unfolding span is_port
split_plain s =
    let cut = span (λ c. not (c == b':')) s in
    if is_port cut.1 && not (has_char b'[' s) && not (has_char b']' s) then some cut.0 else none

-- The host of `net.SplitHostPort`, or `none` for an error.
unfoldable pub split_host : Text → Option Text
unfolding split_bracket split_plain
split_host [] = none
split_host (c ∷ rest) = if c == b'[' then split_bracket rest else split_plain (c ∷ rest)

unfoldable pub client_ip : Request → Text
unfolding split_host trim_space span
client_ip r =
    if not (text_eq r.cf_connecting_ip [])
    then r.cf_connecting_ip
    else if not (text_eq r.x_forwarded_for [])
    then trim_space (span (λ c. not (c == b',')) r.x_forwarded_for).0
    else elim (split_host r.remote_addr) [ some host ↦ host | none ↦ r.remote_addr ]
