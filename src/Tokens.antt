-- ===== src/Tokens.antt =====
-- internal/realtime/tokens.go: the access token of a channel. The refresh of a token by Chzzk is a
-- parameter, and so is the failure of the query and of the write. A time is in seconds.
use chzzk_djclass_chat.Base.{
  ℕ, ◌+◌, ◌<◌, ◌≡◌, refl, Bool, true, false, Option, none, some, length, arith, ltb, if◌then◌else◌,
}
use chzzk_djclass_chat.Base.Text.{Text}
use chzzk_djclass_chat.Crypto.{Box, Reliable, nonce_size, encrypt, decrypt, decrypt-encrypt}
use chzzk_djclass_chat.Store.{ChannelRow}
use chzzk_djclass_chat.Effects.{Result, db_failure, no_token, ok, err}

pub record Token : Type 0 where
  pub access_token : Text
  pub refresh_token : Text
  pub expires_in : ℕ

abbrev pub refresh_skew : ℕ
refresh_skew = 300

-- The two readings of the clock, the two nonces, and whether the write fails.
pub record World : Type 0 where
  pub box : Box
  pub refresh : Text → Option Token
  pub now : ℕ
  pub later : ℕ
  pub nonce : Text
  pub nonce' : Text
  pub write_fails : Bool

-- The answer, and the row after it.
abbrev pub Answer : Type 0
Answer = Result Text × ChannelRow

unfoldable pub persist : World → ChannelRow → Token → Answer
unfolding encrypt
persist w row tok = if w.write_fails then (err db_failure, row) else (
  ok tok.access_token,
  record {
    access_token_encrypted = some (encrypt w.box w.nonce tok.access_token);
    refresh_token_encrypted = some (encrypt w.box w.nonce' tok.refresh_token);
    token_expires_at = some (w.later + tok.expires_in);
  },
)

unfoldable pub refresh_with : World → ChannelRow → Result Text → Answer
unfolding persist
refresh_with w row (err x) = (err x, row)
refresh_with w row (ok refresh) = elim (w.refresh refresh) [
  | none ↦ (err no_token, row)
  | some tok ↦ persist w row tok
]

unfoldable pub refreshed : World → ChannelRow → Option Text → Answer
unfolding refresh_with decrypt
refreshed w row none = (err no_token, row)
refreshed w row (some enc) = refresh_with w row (decrypt w.box enc)

-- `ch.TokenExpiresAt == nil || now + refreshSkew < *ch.TokenExpiresAt`
unfoldable pub is_fresh : ℕ → Option ℕ → Bool
is_fresh now none = true
is_fresh now (some t) = ltb (now + refresh_skew) t

unfoldable pub from_row : World → ChannelRow → Option Text → Answer
unfolding refreshed is_fresh decrypt
from_row w row none = (err no_token, row)
from_row w row (some access) =
    if is_fresh w.now row.token_expires_at
    then (decrypt w.box access, row)
    else refreshed w row row.refresh_token_encrypted

-- The query gives a row, no row, or an error.
unfoldable pub access_token : World → Result (Option ChannelRow) → Result Text × Option ChannelRow
unfolding from_row
access_token w (err x) = (err x, none)
access_token w (ok none) = (err no_token, none)
access_token w (ok (some row)) =
    let a = from_row w row row.access_token_encrypted in (a.0, some a.1)

-- A token just refreshed and stored without a failure, in a reliable box under a nonce of the
-- right size, is given back: while it is not within the skew of its end, the row that the
-- refresh left gives it to a reader with the same box, with no further refresh and no change.
pub access_token-persist :
    (w v : World) (row : ChannelRow) (tok : Token)
    → w.write_fails ≡ false
    → v.box ≡ w.box
    → Reliable w.box
    → length w.nonce ≡ nonce_size
    → v.now + refresh_skew < w.later + tok.expires_in
    → ((persist w row tok).0 ≡ ok tok.access_token)
      × (access_token v (ok (some (persist w row tok).1))
          ≡ (ok tok.access_token, some (persist w row tok).1))
unfolding access_token persist
access_token-persist w v row tok writes same r n fresh =
    let in_time : ltb (v.now + refresh_skew) (w.later + tok.expires_in) ≡ true =
      ground (arith, fresh) in
    rw (writes, persist)
      (
        refl,
        rw (in_time, from_row, is_fresh)
            (rw (same) (rw (decrypt-encrypt w.box w.nonce tok.access_token r n) refl)),
      )
