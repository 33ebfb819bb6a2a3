-- ===== src/Crypto.antt =====
-- internal/crypto/crypto.go: the box around an AEAD. AES-GCM and base64 are parameters; the nonce
-- that `crypto/rand` gives is an argument.
use chzzk_djclass_chat.Base.{
  ℕ, ◌+◌, ◌≡◌, refl, ap, false, Option, none, some, [], ◌∷◌, ◌++◌, length, take, arith, ltb, suc,
  zero, if◌then◌else◌, length-append,
}
use chzzk_djclass_chat.Base.Text.{Text}
use chzzk_djclass_chat.Effects.{Result, cannot_decrypt, ok, err}

-- Bytes are texts of values below 256. `seal` is given a nonce and a plaintext.
pub record Box : Type 0 where
  pub overhead : ℕ
  pub seal : Text → Text → Text
  pub open' : Text → Text → Option Text
  pub encode : Text → Text
  pub decode : Text → Option Text

abbrev pub nonce_size : ℕ
nonce_size = 12

unfoldable pub drop : ℕ → Text → Text
drop zero s = s
drop (suc n) [] = []
drop (suc n) (c ∷ s) = drop n s

-- `Seal(nonce, nonce, ...)` appends to the nonce.
unfoldable pub encrypt : Box → Text → Text → Text
encrypt box nonce plaintext = box.encode (nonce ++ box.seal nonce plaintext)

unfoldable pub open_raw : Box → Text → Result Text
unfolding drop
open_raw box raw =
    if ltb (length raw) (nonce_size + box.overhead)
    then err cannot_decrypt
    else elim (box.open' (take nonce_size raw) (drop nonce_size raw)) [
      | none ↦ err cannot_decrypt
      | some plaintext ↦ ok plaintext
    ]

unfoldable pub decrypt : Box → Text → Result Text
unfolding open_raw
decrypt box value = elim (box.decode value) [
  | none ↦ err cannot_decrypt
  | some raw ↦ open_raw box raw
]

take-append : (n : ℕ) (s t : Text) → length s ≡ n → take n (s ++ t) ≡ s
take-append zero [] t h = refl
take-append zero (c ∷ s) t h = absurd (omega (arith, h))
take-append (suc n) [] t h = absurd (omega (arith, h))
take-append (suc n) (c ∷ s) t h = ap (◌∷◌ c) (take-append n s t (omega (arith, h)))

drop-append : (n : ℕ) (s t : Text) → length s ≡ n → drop n (s ++ t) ≡ t
unfolding drop
drop-append zero [] t h = refl
drop-append zero (c ∷ s) t h = absurd (omega (arith, h))
drop-append (suc n) [] t h = absurd (omega (arith, h))
drop-append (suc n) (c ∷ s) t h = drop-append n s t (omega (arith, h))

-- What the code relies on: base64 decodes what it encodes, the cipher opens what it sealed with
-- the nonce, and the sealed text is longer than the plaintext by the overhead.
pub record Reliable (box : Box) : Type 0 where
  pub decodes : (raw : Text) → box.decode (box.encode raw) ≡ some raw
  pub opens : (nonce plaintext : Text) → box.open' nonce (box.seal nonce plaintext) ≡ some plaintext
  pub sealed :
      (nonce plaintext : Text) → length (box.seal nonce plaintext) ≡ length plaintext + box.overhead

-- With a reliable cipher and encoding, what is encrypted under any nonce of the right size is
-- decrypted to itself.
pub decrypt-encrypt :
    (box : Box) (nonce plaintext : Text)
    → Reliable box
    → length nonce ≡ nonce_size
    → decrypt box (encrypt box nonce plaintext) ≡ ok plaintext
unfolding decrypt encrypt open_raw
decrypt-encrypt box nonce plaintext r n =
    rw (r.decodes (nonce ++ box.seal nonce plaintext), decrypt)
      (rw (long, open_raw)
        (rw (take-append nonce_size nonce sealed n, drop-append nonce_size nonce sealed n)
          (rw (r.opens nonce plaintext) refl)))
  where
    sealed : Text
    sealed = box.seal nonce plaintext

    long : ltb (length (nonce ++ sealed)) (nonce_size + box.overhead) ≡ false
    long = ground (arith, length-append nonce sealed, r.sealed nonce plaintext)
