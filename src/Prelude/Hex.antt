-- ===== src/Prelude/Hex.antt =====
-- `encoding/hex`: EncodeToString and DecodeString. A text is the list of its bytes.
use forgenx_engine.Prelude.{
  ℕ, ◌+◌, ◌-◌, ◌*◌, ◌/◌, ◌%◌, ◌<◌, ◌≡◌, refl, List, [], ◌∷◌, ◌++◌, Option, none, some, ltb, leb,
  ◌&&◌, if◌then◌else◌, arith, append-nil,
}
use forgenx_engine.Prelude.Bytes.{IsBytes}

unfoldable pub hex_digit : ℕ → ℕ
hex_digit n = if ltb n 10 then b'0' + n else b'a' + (n - 10)

-- Both cases of the letters are read.
unfoldable pub from_hex_digit : ℕ → Option ℕ
from_hex_digit c =
    if leb b'0' c && leb c b'9'
    then some (c - b'0')
    else if leb b'a' c && leb c b'f'
    then some (c - b'a' + 10)
    else if leb b'A' c && leb c b'F'
    then some (c - b'A' + 10)
    else none

unfoldable pub hex_encode : List ℕ → List ℕ
hex_encode [] = []
hex_encode (b ∷ bs) = hex_digit (b / 16) ∷ hex_digit (b % 16) ∷ hex_encode bs

infixl 5 ◌>>=◌
abbrev ◌>>=◌ {ℓ κ} : {A : Type ℓ} {B : Type κ} → Option A → (A → Option B) → Option B
none >>= f = none
some a >>= f = f a

-- `none` is an error: an odd number of digits, or a byte that is no digit.
unfoldable pub hex_decode : List ℕ → Option (List ℕ)
hex_decode [] = some []
hex_decode (hi ∷ []) = none
hex_decode (hi ∷ lo ∷ text) = do
  h ← from_hex_digit hi
  l ← from_hex_digit lo
  bs ← hex_decode text
  some ((h * 16 + l) ∷ bs)

from_hex_digit-hex_digit : (n : ℕ) → n < 16 → from_hex_digit (hex_digit n) ≡ some n
unfolding from_hex_digit hex_digit
from_hex_digit-hex_digit n h = ground arith

-- What was encoded comes back, and what follows it is decoded on its own.
pub hex_decode-hex_encode_append :
    (bs text rest : List ℕ)
    → IsBytes bs
    → hex_decode text ≡ some rest
    → hex_decode (hex_encode bs ++ text) ≡ some (bs ++ rest)
unfolding hex_decode hex_encode
hex_decode-hex_encode_append [] text rest h e = e
hex_decode-hex_encode_append (b ∷ bs) text rest h e =
    let whole : b / 16 * 16 + b % 16 ≡ b = omega arith in
    rw (
      from_hex_digit-hex_digit (b / 16) (omega arith),
      from_hex_digit-hex_digit (b % 16) (omega arith),
      hex_decode-hex_encode_append bs text rest h.1 e,
      whole,
    )

pub hex_decode-hex_encode : (bs : List ℕ) → IsBytes bs → hex_decode (hex_encode bs) ≡ some bs
hex_decode-hex_encode bs h =
    rw (append-nil, append-nil) at
      (hex_decode-hex_encode_append bs [] [] h (unfold hex_decode in refl))
