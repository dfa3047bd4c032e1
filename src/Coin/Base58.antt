-- ===== src/Coin/Base58.antt =====
-- pkg/coin/base58.go: Base58Check. SHA-256 is the standard library's: a parameter.
use forgenx_engine.Prelude.{
  ℕ, zero, suc, ◌+◌, ◌-◌, ◌*◌, ◌/◌, ◌%◌, List, [], ◌∷◌, ◌++◌, not, ◌||◌, ltb, ◌==◌, if◌then◌else◌,
  Option, Result, some_or, ok, ◌>>=◌, ◌>>◌, fail_if, length, take, drop, get_or,
}
use forgenx_engine.Prelude.Bytes.{zeros, byte_at}
use forgenx_engine.Coin.Text.{index_of}
use forgenx_engine.Coin.Errors.{CoinError, empty_data, bad_character, too_short, bad_checksum}
use forgenx_engine.Coinbase.Merkle.{Sha256}

-- "123456789ABCDEFGHJKLMNPQRSTUVWXYZabcdefghijkmnopqrstuvwxyz"
abbrev pub base58_alphabet : List ℕ
base58_alphabet =
    b'1' ∷ b'2' ∷ b'3' ∷ b'4' ∷ b'5' ∷ b'6' ∷ b'7' ∷ b'8' ∷ b'9' ∷ b'A' ∷ b'B' ∷ b'C' ∷ b'D' ∷ b'E'
    ∷ b'F' ∷ b'G' ∷ b'H' ∷ b'J' ∷ b'K' ∷ b'L' ∷ b'M' ∷ b'N' ∷ b'P' ∷ b'Q' ∷ b'R' ∷ b'S' ∷ b'T'
    ∷ b'U' ∷ b'V' ∷ b'W' ∷ b'X' ∷ b'Y' ∷ b'Z' ∷ b'a' ∷ b'b' ∷ b'c' ∷ b'd' ∷ b'e' ∷ b'f' ∷ b'g'
    ∷ b'h' ∷ b'i' ∷ b'j' ∷ b'k' ∷ b'm' ∷ b'n' ∷ b'o' ∷ b'p' ∷ b'q' ∷ b'r' ∷ b's' ∷ b't' ∷ b'u'
    ∷ b'v' ∷ b'w' ∷ b'x' ∷ b'y' ∷ b'z' ∷ []

unfoldable pub base58_alphabet_rev : ℕ → Option ℕ
base58_alphabet_rev c = index_of base58_alphabet c

-- `result.Bytes()` of a big.Int: big endian with no leading zero, on fuel.
unfoldable pub big_bytes : ℕ → ℕ → List ℕ → List ℕ
big_bytes zero n bytes = bytes
big_bytes (suc fuel) n bytes =
    let rest = big_bytes fuel (n / 256) (n % 256 ∷ bytes) in if ltb 0 n then rest else bytes

unfoldable pub base58_number : ℕ → List ℕ → Result CoinError ℕ
base58_number result [] = ok result
base58_number result (c ∷ text) = do
  fail_if (ltb 255 c) bad_character
  d ← some_or (base58_alphabet_rev c) bad_character
  base58_number (result * 58 + d) text

unfoldable pub leading_ones : List ℕ → ℕ
leading_ones [] = 0
leading_ones (c ∷ text) = let rest = leading_ones text in if c == b'1' then suc rest else 0

-- A digit is less than a byte, so the length of the text is fuel enough for the bytes.
unfoldable pub base58_decode : List ℕ → Result CoinError (List ℕ)
base58_decode text = do
  fail_if (length text == 0) empty_data
  result ← base58_number 0 text
  ok (zeros (leading_ones text) ++ big_bytes (length text) result [])

unfoldable pub base58_check_decode : Sha256 → List ℕ → Result CoinError (ℕ × List ℕ)
base58_check_decode sha address = do
  decoded ← base58_decode address
  fail_if (ltb (length decoded) 5) too_short
  let payload = take (length decoded - 4) decoded
  let checksum = drop (length decoded - 4) decoded
  let hash = sha.sum (sha.sum payload)
  fail_if
      (not (byte_at hash 0 == byte_at checksum 0)
        || (not (byte_at hash 1 == byte_at checksum 1)
            || (not (byte_at hash 2 == byte_at checksum 2)
                || not (byte_at hash 3 == byte_at checksum 3))))
      bad_checksum
  ok (get_or payload 0 0, drop 1 payload)
