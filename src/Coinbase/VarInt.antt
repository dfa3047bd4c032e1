-- ===== src/Coinbase/VarInt.antt =====
-- pkg/coinbase: readVarInt of builder.go, and SerializeVarInt of script.go.
use forgenx_engine.Prelude.{
  leb, if_both, ℕ, ◌+◌, ◌*◌, ◌%◌, ◌^◌, ◌<◌, ◌≡◌, List, [], ◌∷◌, ◌++◌, bit_or, ltb, ◌==◌,
  if◌then◌else◌, length, arith,
}
use forgenx_engine.Prelude.Bytes.{le16, le32, IsBytes, u8, ◌>>>◌, le64, byte_at}
use forgenx_engine.Prelude.Bits.{bit_or-shifted}
use forgenx_engine.Coinbase.Script.{serialize_var_int}

infixl 75 ◌<<<◌
abbrev ◌<<<◌ : ℕ → ℕ → ℕ
n <<< k = n * 2 ^ k

-- `uint64(b[i]) | uint64(b[i+1])<<8`, and the longer forms, in the order of the source.
or16 : List ℕ → ℕ
or16 b = bit_or (byte_at b 1) (byte_at b 2 <<< 8)

or32 : List ℕ → ℕ
unfolding or16
or32 b = bit_or (bit_or (or16 b) (byte_at b 3 <<< 16)) (byte_at b 4 <<< 24)

or64 : List ℕ → ℕ
unfolding or32
or64 b =
    bit_or
      (bit_or (bit_or (bit_or (or32 b) (byte_at b 5 <<< 32)) (byte_at b 6 <<< 40))
        (byte_at b 7 <<< 48))
      (byte_at b 8 <<< 56)

-- The value and the number of bytes read; `(0, 0)` on no input and `(0, 1)` on a cut one.
pub read_var_int : List ℕ → ℕ × ℕ
read_var_int [] = (0, 0)
read_var_int (first ∷ rest) =
    let payload = first ∷ rest in
    if ltb first 0xfd
    then (first, 1)
    else if first == 0xfd
    then if ltb (length payload) 3 then (0, 1) else (or16 payload, 3)
    else if first == 0xfe
    then if ltb (length payload) 5 then (0, 1) else (or32 payload, 5)
    else if ltb (length payload) 9
    then (0, 1)
    else (or64 payload, 9)

or16_le : (t a b : ℕ) (rest : List ℕ) → a < 256 → b < 256 → or16 (t ∷ a ∷ b ∷ rest) ≡ a + b * 256
unfolding or16
or16_le t a b rest ha hb = bit_or-shifted 8 b a ha

or32_le :
    (t a b c d : ℕ) (rest : List ℕ)
    → a < 256
    → b < 256
    → c < 256
    → d < 256
    → or32 (t ∷ a ∷ b ∷ c ∷ d ∷ rest) ≡ a + b * 2 ^ 8 + c * 2 ^ 16 + d * 2 ^ 24
unfolding or32
or32_le t a b c d rest ha hb hc hd = ground (
  arith,
  or16_le t a b (c ∷ d ∷ rest),
  bit_or-shifted 16 c (a + b * 256),
  bit_or-shifted 24 d (a + b * 256 + c * 2 ^ 16),
)

or64_le : (t n : ℕ) (rest : List ℕ) → n < 2 ^ 64 → or64 (t ∷ (le64 n ++ rest)) ≡ n
unfolding or64
or64_le t n rest h = ground (
  arith,
  or32_le t (u8 n) (u8 (n >>> 8)) (u8 (n >>> 16)) (u8 (n >>> 24)) _,
  bit_or-shifted 32 (u8 (n >>> 32)) (n % 2 ^ 32),
  bit_or-shifted 40 (u8 (n >>> 40)) (n % 2 ^ 40),
  bit_or-shifted 48 (u8 (n >>> 48)) (n % 2 ^ 48),
  bit_or-shifted 56 (u8 (n >>> 56)) (n % 2 ^ 56),
)

-- Every uint64 that SerializeVarInt writes is read back by readVarInt, whatever bytes follow, and
-- the count of bytes read is the length of its encoding.
pub read_var_int-serialize_var_int :
    (n : ℕ) (rest : List ℕ)
    → n < 2 ^ 64
    → read_var_int (serialize_var_int n ++ rest) ≡ (n, length (serialize_var_int n))
unfolding read_var_int serialize_var_int
read_var_int-serialize_var_int n rest h = ground (
  arith,
  or16_le 0xfd (u8 n) (u8 (n >>> 8)) rest,
  or32_le 0xfe (u8 n) (u8 (n >>> 8)) (u8 (n >>> 16)) (u8 (n >>> 24)) rest,
  or64_le 0xff n rest,
)

pub serialize_var_int-IsBytes : (n : ℕ) → IsBytes (serialize_var_int n)
unfolding serialize_var_int
serialize_var_int-IsBytes n = if_both IsBytes (ltb n 0xfd) (u8 n ∷ []) _ (omega arith) (
    if_both IsBytes (leb n 0xffff) (0xfd ∷ le16 n) _ (omega arith) (
      if_both IsBytes (leb n 0xffff_ffff) (0xfe ∷ le32 n) (0xff ∷ le64 n) (omega arith)
        (omega arith)))
