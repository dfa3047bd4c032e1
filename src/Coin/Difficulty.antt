-- ===== src/Coin/Difficulty.antt =====
-- pkg/coin/difficulty.go: targets and their compact form. The quotients of big.Float are parameters.
use forgenx_engine.Prelude.{
  ℕ, ◌+◌, ◌-◌, ◌*◌, ◌^◌, List, [], ◌∷◌, Bool, Option, none, some, bit_and, leb, ◌==◌, if◌then◌else◌,
  length,
}
use forgenx_engine.Prelude.Int.{ℤ, pos, negsuc, ◌-ℤ◌}
use forgenx_engine.Prelude.Bytes.{◌>>>◌, zeros, copy_at, byte_at}
use forgenx_engine.Prelude.Hex.{hex_encode, hex_decode}
use forgenx_engine.Prelude.Float.{Floats}
use forgenx_engine.Coin.Base58.{big_bytes}

abbrev pub max_target : ℕ
max_target = 0xffff * 2 ^ 208

-- The result has a sign, as a big.Int.
unfoldable pub compact_to_big : ℕ → ℤ
compact_to_big compact =
    let exponent = compact >>> 24 in
    let mantissa = bit_and compact 0x007fffff in
    let target =
      if leb exponent 3
      then mantissa >>> (8 * (3 - exponent))
      else mantissa * 2 ^ (8 * (exponent - 3)) in
    if bit_and compact 0x00800000 == 0 then pos target else pos 0 -ℤ pos target

-- The number of a text of four bytes; `none` is the error.
unfoldable pub four_bytes : List ℕ → Option ℕ
four_bytes b =
    if length b == 4
    then some (byte_at b 0 * 2 ^ 24 + byte_at b 1 * 2 ^ 16 + byte_at b 2 * 2 ^ 8 + byte_at b 3)
    else none

abbrev four_bytes? : Option (List ℕ) → Option ℕ
four_bytes? none = none
four_bytes? (some b) = four_bytes b

unfoldable pub bits_to_hex : List ℕ → Option ℕ
bits_to_hex bits = four_bytes? (hex_decode bits)

-- `SetBytes` of a big.Int.
unfoldable pub set_bytes_from : ℕ → List ℕ → ℕ
set_bytes_from acc [] = acc
set_bytes_from acc (b ∷ bs) = set_bytes_from (acc * 256 + b) bs

unfoldable pub set_bytes : List ℕ → ℕ
set_bytes = set_bytes_from 0

-- `copy(padded[32-len(b):], b)` of the bytes of a big.Int; `none` is the panic where it has more
-- than 32 bytes. One byte more than that is fuel enough to see it.
unfoldable pub padded_bytes : ℕ → Option (List ℕ)
padded_bytes target =
    let raw = big_bytes 33 target [] in
    if leb (length raw) 32 then some (copy_at (zeros 32) (32 - length raw) raw) else none

abbrev hex? : Option (List ℕ) → Option (List ℕ)
hex? none = none
hex? (some b) = some (hex_encode b)

unfoldable pub target_to_hex : ℕ → Option (List ℕ)
target_to_hex target = hex? (padded_bytes target)

abbrev le_target : ℕ → ℤ → Bool
le_target hash (pos target) = leb hash target
le_target hash (negsuc n) = Bool.false

unfoldable pub hash_meets_target : List ℕ → ℤ → Bool
hash_meets_target hash target = le_target (set_bytes hash) target

module _ (fl : Floats) where
  unfoldable pub difficulty_to_target : fl.F → ℕ
  difficulty_to_target difficulty =
      if fl.le difficulty (fl.of_nat 0) then max_target else fl.quo_int max_target difficulty

  unfoldable pub hash_meets_difficulty : List ℕ → fl.F → Bool
  hash_meets_difficulty hash difficulty =
      hash_meets_target hash (pos (difficulty_to_target difficulty))
