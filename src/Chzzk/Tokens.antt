-- ===== src/Chzzk/Tokens.antt =====
-- The tokens that internal/chzzk/client.go gives, as internal/realtime/tokens.go uses them.
use chzzk_djclass_chat.Base.{◌<◌, ◌≢◌, Option, none, some, [], arith, Bool-cases, inl, inr}
use chzzk_djclass_chat.Base.Int.{ℤ, pos, negsuc}
use chzzk_djclass_chat.Base.Text.{text, text_eq, text_eq_iff}
use chzzk_djclass_chat.Chzzk.{
  Client, Body, TokenBody, Outcome, given, failed, then_do, lifetime, token_of, token, do_json,
}
use chzzk_djclass_chat.Tokens.{Token}

-- A token that can be sent, for some time.
record IsUsable (t : Token) : Type 0 where
  sendable : t.access_token ≢ []
  lasting : 0 < t.expires_in

unfoldable GivesUsable : Outcome Token → Type 0
GivesUsable (given t) = IsUsable t
GivesUsable (failed x) = Unit

module _ (c : Client) where
  lifetime-pos : (o : Option ℤ) → 0 < lifetime c o
  unfolding lifetime
  lifetime-pos none = omega arith
  lifetime-pos (some (negsuc n)) = omega arith
  lifetime-pos (some (pos n)) = ground arith

  token_of-GivesUsable : (b : TokenBody) → GivesUsable (token_of c b)
  unfolding token_of GivesUsable
  token_of-GivesUsable b = elim (Bool-cases (text_eq b.access_token [])) [
    | inl e ↦ rw e tt
    | inr e ↦ rw e (record {
      sendable = λ empty. ground (arith, text_eq_iff b.access_token [], empty, e);
      lasting = lifetime-pos b.expires_in;
    })
  ]

  then_do-GivesUsable : (o : Outcome TokenBody) → GivesUsable (then_do o (token_of c))
  unfolding GivesUsable
  then_do-GivesUsable (given b) = token_of-GivesUsable b
  then_do-GivesUsable (failed x) = tt

  -- Every token that Chzzk gives for a code or a refresh token, whatever its answer holds, has an
  -- access token and a positive lifetime.
  token-GivesUsable : (body : Body) → GivesUsable (token c body)
  unfolding token
  token-GivesUsable body =
      then_do-GivesUsable (do_json c c.token_body (text "POST") c.token_url [] (some body))
