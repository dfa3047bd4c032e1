-- ===== src/Coin/CashAddr.antt =====
-- pkg/coin/cashaddr.go: CashAddr, as Bitcoin Cash and eCash write addresses.
use forgenx_engine.Prelude.{
  ℕ, suc, ◌-◌, ◌*◌, ◌^◌, ◌+◌, List, [], ◌∷◌, ◌++◌, Bool, false, not, bit_and, bit_or, bit_xor, ltb,
  ◌==◌, if◌then◌else◌, Option, none, some, Result, ok, ◌>>=◌, ◌>>◌, fail_if, length, take, drop,
  map, get_or,
}
use forgenx_engine.Prelude.Bytes.{u8, u64, ◌>>>◌}
use forgenx_engine.Coin.Text.{to_lower, same_text, index_of}
use forgenx_engine.Coin.Bech32.{bech32_charset, add_generators, decode_chars, emit, finish_bits}
use forgenx_engine.Coin.Errors.{
  CoinError, wrong_hrp, too_short, bad_checksum, empty_data, bad_hash_length,
}

-- The charset is that of Bech32.
unfoldable pub cash_addr_charset_rev : ℕ → Option ℕ
cash_addr_charset_rev c = index_of bech32_charset c

abbrev pub cash_addr_gen : List ℕ
cash_addr_gen = 0x98f2bc8e61 ∷ 0x79b76d99e2 ∷ 0xf33e5fb3c4 ∷ 0xae2eabe2a8 ∷ 0x1e4f43e470 ∷ []

unfoldable pub cash_addr_polymod_from : ℕ → List ℕ → ℕ
cash_addr_polymod_from c [] = c
cash_addr_polymod_from c (v ∷ values) =
    cash_addr_polymod_from
      (add_generators cash_addr_gen (c >>> 35) 0 (bit_xor (bit_and c 0x07_ffff_ffff * 2 ^ 5) v))
      values

unfoldable pub cash_addr_polymod : List ℕ → ℕ
cash_addr_polymod values = bit_xor (cash_addr_polymod_from 1 values) 1

unfoldable pub cash_addr_prefix_expand : List ℕ → List ℕ
cash_addr_prefix_expand prefix = map (λ c. bit_and c 0x1f) prefix ++ 0 ∷ []

-- The loop over the data: no check of the values, unlike ConvertBits of bech32.go.
unfoldable pub cash_addr_convert_loop :
    List ℕ → (acc bits from_bits to_bits : ℕ) → Bool → List ℕ → Result CoinError (List ℕ)
cash_addr_convert_loop [] acc bits from_bits to_bits pad ret =
    finish_bits acc bits from_bits to_bits pad ret
cash_addr_convert_loop (value ∷ values) acc bits from_bits to_bits pad ret =
    let acc' = bit_or (u64 (acc * 2 ^ from_bits)) value in
    let (bits', ret') = emit (bits + from_bits) acc' (bits + from_bits) to_bits ret in
    cash_addr_convert_loop values acc' bits' from_bits to_bits pad ret'

unfoldable pub cash_addr_convert_bits :
    List ℕ → (from_bits to_bits : ℕ) → Bool → Result CoinError (List ℕ)
cash_addr_convert_bits values from_bits to_bits pad =
    cash_addr_convert_loop values 0 0 from_bits to_bits pad []

unfoldable pub cash_addr_hash_size : ℕ → ℕ
cash_addr_hash_size size_bits =
    if size_bits == 0
    then 20
    else if size_bits == 1
    then 24
    else if size_bits == 2
    then 28
    else if size_bits == 3
    then 32
    else if size_bits == 4
    then 40
    else if size_bits == 5
    then 48
    else if size_bits == 6
    then 56
    else if size_bits == 7
    then 64
    else 20

unfoldable pub byte_slice_from_uint64 : List ℕ → List ℕ
byte_slice_from_uint64 values = map u8 values

-- The text before and behind the first colon; where there is none, the whole text behind the
-- expected prefix, which is what the source puts before it. No prefix in use holds a colon.
unfoldable pub split_prefix : (lower expected_prefix : List ℕ) → List ℕ × List ℕ
split_prefix lower expected_prefix = elim (index_of lower b':') [
  | none ↦ (expected_prefix, lower)
  | some i ↦ (take i lower, drop (suc i) lower)
]

unfoldable pub cash_addr_decode : (address expected_prefix : List ℕ) → Result CoinError (ℕ × List ℕ)
cash_addr_decode address expected_prefix = do
  let (prefix, payload) = split_prefix (to_lower address) expected_prefix
  fail_if (not (same_text prefix expected_prefix)) wrong_hrp
  values ← decode_chars cash_addr_charset_rev payload
  fail_if (ltb (length values) 8) too_short
  fail_if (not (cash_addr_polymod (cash_addr_prefix_expand prefix ++ values) == 0)) bad_checksum
  converted ← cash_addr_convert_bits (take (length values - 8) values) 5 8 false
  fail_if (ltb (length converted) 1) empty_data
  let version_byte = get_or converted 0 0
  let hash_type = version_byte >>> 3
  let hash = drop 1 converted
  fail_if (not (length hash == cash_addr_hash_size (bit_and version_byte 0x07))) bad_hash_length
  ok (u8 hash_type, byte_slice_from_uint64 hash)
