-- ===== src/Engine/Words.antt =====
-- Hex texts of pkg/engine: swapHashEndianness of jobmanager.go, swapEndianWords of sharevalidator.go,
-- and the numbers that `%08x` and `%016x` print.
use forgenx_engine.Prelude.{
  ℕ, zero, suc, ◌+◌, ◌-◌, ◌/◌, ◌%◌, List, [], ◌∷◌, ◌++◌, Option, none, some, ltb, ◌==◌, not,
  if◌then◌else◌, length, replicate,
}
use forgenx_engine.Prelude.Int.{ℤ, pos, negsuc}
use forgenx_engine.Prelude.Bytes.{zeros}
use forgenx_engine.Prelude.Hex.{hex_digit, hex_encode, hex_decode}
use forgenx_engine.Coinbase.Script.{reverse_bytes}

-- Each whole word of four bytes turned round in place.
unfoldable pub swap_words : List ℕ → List ℕ
swap_words (a ∷ b ∷ c ∷ d ∷ bytes) = d ∷ c ∷ b ∷ a ∷ swap_words bytes
swap_words bytes = bytes

-- The same into a fresh slice, where what is no whole word stays zero.
unfoldable pub swap_words_into : List ℕ → List ℕ
swap_words_into (a ∷ b ∷ c ∷ d ∷ bytes) = d ∷ c ∷ b ∷ a ∷ swap_words_into bytes
swap_words_into bytes = zeros (length bytes)

abbrev swap_decoded : List ℕ → Option (List ℕ) → List ℕ
swap_decoded hash_hex none = hash_hex
swap_decoded hash_hex (some bytes) = hex_encode (swap_words (reverse_bytes bytes))

unfoldable pub swap_hash_endianness : List ℕ → List ℕ
swap_hash_endianness hash_hex =
    if not (length hash_hex == 64) then hash_hex else swap_decoded hash_hex (hex_decode hash_hex)

-- A nil slice is the empty list.
abbrev swap_or_nil : Option (List ℕ) → List ℕ
swap_or_nil none = []
swap_or_nil (some bytes) = swap_words_into bytes

unfoldable pub swap_endian_words : List ℕ → List ℕ
swap_endian_words hex_str = swap_or_nil (hex_decode hex_str)

-- The hex digits of a number, highest first; sixteen rounds are enough for a uint64.
unfoldable pub hex_digits : ℕ → ℕ → List ℕ → List ℕ
hex_digits zero n text = text
hex_digits (suc fuel) n text =
    let rest = hex_digits fuel (n / 16) (hex_digit (n % 16) ∷ text) in
    if ltb 0 n then rest else text

-- `%0<width>x` of a number, and of a signed one, whose sign is one of the characters.
unfoldable pub format_hex : ℕ → ℕ → List ℕ
format_hex width n = let text = hex_digits 16 n [] in replicate (width - length text) b'0' ++ text

unfoldable pub format_hex_int : ℕ → ℤ → List ℕ
format_hex_int width (pos n) = format_hex width n
format_hex_int width (negsuc n) = b'-' ∷ format_hex (width - 1) (n + 1)
