-- ===== src/Coin/Bech32.antt =====
-- pkg/coin/bech32.go: Bech32 (BIP173), and the addresses that are written in it.
use forgenx_engine.Prelude.{
  ℕ, zero, suc, ◌+◌, ◌-◌, ◌*◌, ◌^◌, List, [], ◌∷◌, ◌++◌, Bool, false, ◌&&◌, ◌||◌, not, bit_and,
  bit_or, bit_xor, ltb, leb, ◌==◌, if◌then◌else◌, Option, Result, some_or, ok, err, ◌>>=◌, ◌>>◌,
  fail_if, length, take, drop, map, get_or,
}
use forgenx_engine.Prelude.Bytes.{u8, u64, ◌>>>◌, zeros}
use forgenx_engine.Coin.Text.{to_lower, to_upper, same_text, index_of, last_index}
use forgenx_engine.Coin.Errors.{
  CoinError, too_long, mixed_case, bad_separator, bad_character, bad_checksum, bad_value,
  bad_padding, wrong_hrp, empty_data, bad_program_length,
}

-- "qpzry9x8gf2tvdw0s3jn54khce6mua7l"
abbrev pub bech32_charset : List ℕ
bech32_charset =
    b'q' ∷ b'p' ∷ b'z' ∷ b'r' ∷ b'y' ∷ b'9' ∷ b'x' ∷ b'8' ∷ b'g' ∷ b'f' ∷ b'2' ∷ b't' ∷ b'v' ∷ b'd'
    ∷ b'w' ∷ b'0' ∷ b's' ∷ b'3' ∷ b'j' ∷ b'n' ∷ b'5' ∷ b'4' ∷ b'k' ∷ b'h' ∷ b'c' ∷ b'e' ∷ b'6'
    ∷ b'm' ∷ b'u' ∷ b'a' ∷ b'7' ∷ b'l' ∷ []

-- The table that `init` fills; `none` is its -1.
unfoldable pub bech32_charset_rev : ℕ → Option ℕ
bech32_charset_rev c = index_of bech32_charset c

abbrev pub bech32_gen : List ℕ
bech32_gen = 0x3b6a57b2 ∷ 0x26508e6d ∷ 0x1ea119fa ∷ 0x3d4233dd ∷ 0x2a1462b3 ∷ []

-- The inner loop of a checksum: the generators whose bit is set in `b`, from bit `i` on.
unfoldable pub add_generators : List ℕ → (b i chk : ℕ) → ℕ
add_generators [] b i chk = chk
add_generators (g ∷ gen) b i chk =
    add_generators gen b (suc i) (if bit_and (b >>> i) 1 == 1 then bit_xor chk g else chk)

unfoldable pub polymod_from : ℕ → List ℕ → ℕ
polymod_from chk [] = chk
polymod_from chk (v ∷ values) =
    polymod_from
      (add_generators bech32_gen (chk >>> 25) 0 (bit_xor (bit_and chk 0x1ffffff * 2 ^ 5) v)) values

unfoldable pub bech32_polymod : List ℕ → ℕ
bech32_polymod values = polymod_from 1 values

unfoldable pub bech32_hrp_expand : List ℕ → List ℕ
bech32_hrp_expand hrp = map (λ c. c >>> 5) hrp ++ (0 ∷ map (λ c. bit_and c 31) hrp)

unfoldable pub bech32_verify_checksum : List ℕ → List ℕ → Bool
bech32_verify_checksum hrp values = bech32_polymod (bech32_hrp_expand hrp ++ values) == 1

unfoldable pub bech32_create_checksum : List ℕ → List ℕ → List ℕ
bech32_create_checksum hrp values =
    let polymod = bit_xor (bech32_polymod (bech32_hrp_expand hrp ++ (values ++ zeros 6))) 1 in
    bit_and (polymod >>> 25) 31
    ∷ bit_and (polymod >>> 20) 31
    ∷ bit_and (polymod >>> 15) 31
    ∷ bit_and (polymod >>> 10) 31
    ∷ bit_and (polymod >>> 5) 31
    ∷ bit_and (polymod >>> 0) 31
    ∷ []

-- The loop over the characters behind the separator.
unfoldable pub decode_chars : (ℕ → Option ℕ) → List ℕ → Result CoinError (List ℕ)
decode_chars rev [] = ok []
decode_chars rev (c ∷ text) = do
  fail_if (ltb 127 c) bad_character
  d ← some_or (rev c) bad_character
  rest ← decode_chars rev text
  ok (d ∷ rest)

-- The checks that Bech32Decode and DecodeSegwitAddress make before they look at the characters:
-- length, case, and the place of the separator.
unfoldable pub split_bech32 : List ℕ → Result CoinError (List ℕ × List ℕ)
split_bech32 bech = do
  fail_if (ltb 90 (length bech)) too_long
  let lower = to_lower bech
  fail_if (not (same_text bech lower) && not (same_text bech (to_upper bech))) mixed_case
  pos ← some_or (last_index lower b'1') bad_separator
  fail_if (ltb pos 1 || ltb (length lower) (pos + 7)) bad_separator
  ok (take pos lower, drop (pos + 1) lower)

unfoldable pub bech32_decode : List ℕ → Result CoinError (List ℕ × List ℕ)
bech32_decode bech = do
  (hrp, text) ← split_bech32 bech
  values ← decode_chars bech32_charset_rev text
  fail_if (not (bech32_verify_checksum hrp values)) bad_checksum
  ok (hrp, take (length values - 6) values)

unfoldable pub bech32_encode : List ℕ → List ℕ → List ℕ
bech32_encode hrp values =
    hrp
    ++ (b'1' ∷ map (λ d. get_or bech32_charset d 0) (values ++ bech32_create_checksum hrp values))

-- The loop `for bits >= toBits`; each round takes at least one bit, so `bits` rounds are enough.
unfoldable pub emit : (fuel acc bits to_bits : ℕ) → List ℕ → ℕ × List ℕ
emit zero acc bits to_bits ret = (bits, ret)
emit (suc fuel) acc bits to_bits ret =
    let rest =
      emit fuel acc (bits - to_bits) to_bits
        (ret ++ bit_and (acc >>> (bits - to_bits)) (2 ^ to_bits - 1) ∷ []) in
    if leb to_bits bits then rest else (bits, ret)

-- The padding, behind the loop over the data.
unfoldable pub finish_bits :
    (acc bits from_bits to_bits : ℕ) → Bool → List ℕ → Result CoinError (List ℕ)
finish_bits acc bits from_bits to_bits pad ret =
    let padding = bit_and (u64 (acc * 2 ^ (to_bits - bits))) (2 ^ to_bits - 1) in
    if pad
    then ok (if ltb 0 bits then ret ++ padding ∷ [] else ret)
    else if leb from_bits bits || not (padding == 0)
    then err bad_padding
    else ok ret

-- The loop over the data. `acc` is a Go int: 64 bits, of which only the low ones are read.
unfoldable pub convert_loop :
    List ℕ → (acc bits from_bits to_bits : ℕ) → Bool → List ℕ → Result CoinError (List ℕ)
convert_loop [] acc bits from_bits to_bits pad ret = finish_bits acc bits from_bits to_bits pad ret
convert_loop (value ∷ values) acc bits from_bits to_bits pad ret = do
  fail_if (not (value >>> from_bits == 0)) bad_value
  let acc' = bit_or (u64 (acc * 2 ^ from_bits)) value
  let (bits', ret') = emit (bits + from_bits) acc' (bits + from_bits) to_bits ret
  convert_loop values acc' bits' from_bits to_bits pad ret'

-- The values are never negative: they come from the table.
unfoldable pub convert_bits : List ℕ → (from_bits to_bits : ℕ) → Bool → Result CoinError (List ℕ)
convert_bits values from_bits to_bits pad = convert_loop values 0 0 from_bits to_bits pad []

unfoldable pub decode_bech32_address :
    (address expected_hrp : List ℕ) → Result CoinError (ℕ × List ℕ)
decode_bech32_address address expected_hrp = do
  (hrp, values) ← bech32_decode address
  fail_if (not (same_text hrp expected_hrp)) wrong_hrp
  fail_if (ltb (length values) 1) empty_data
  let witness_version = u8 (get_or values 0 0)
  program ← convert_bits (drop 1 values) 5 8 false
  let program_bytes = map u8 program
  fail_if
      ((witness_version == 0)
        && (not (length program_bytes == 20) && not (length program_bytes == 32)))
      bad_program_length
  ok (witness_version, program_bytes)
