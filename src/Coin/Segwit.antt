-- ===== src/Coin/Segwit.antt =====
-- pkg/coin/segwit.go: SegWit addresses of every witness version (BIP350), and their scripts.
use forgenx_engine.Prelude.{
  ℕ, ◌-◌, List, ◌∷◌, ◌++◌, false, ◌&&◌, ◌||◌, not, ltb, ◌==◌, if◌then◌else◌, Result, ok, err, ◌>>=◌,
  ◌>>◌, fail_if, length, take, drop, map, get_or,
}
use forgenx_engine.Prelude.Bytes.{u8}
use forgenx_engine.Coin.Text.{same_text}
use forgenx_engine.Coin.Bech32.{
  split_bech32, decode_chars, bech32_charset_rev, bech32_polymod, bech32_hrp_expand, convert_bits,
}
use forgenx_engine.Coin.Errors.{
  CoinError, wrong_hrp, empty_data, bad_witness_version, bad_checksum, bad_program_length,
  unsupported_witness,
}

abbrev pub bech32m_const : ℕ
bech32m_const = 0x2bc830a3

unfoldable pub decode_segwit_address :
    (address expected_hrp : List ℕ) → Result CoinError (ℕ × List ℕ)
decode_segwit_address address expected_hrp = do
  (hrp, text) ← split_bech32 address
  fail_if (not (same_text hrp expected_hrp)) wrong_hrp
  checked ← decode_chars bech32_charset_rev text
  let check = bech32_polymod (bech32_hrp_expand hrp ++ checked)
  let values = take (length checked - 6) checked
  fail_if (ltb (length values) 1) empty_data
  let version = get_or values 0 0
  fail_if (ltb 16 version) bad_witness_version
  fail_if ((version == 0) && not (check == 1)) bad_checksum
  fail_if (not (version == 0) && not (check == bech32m_const)) bad_checksum
  program ← convert_bits (drop 1 values) 5 8 false
  fail_if (ltb (length program) 2 || ltb 40 (length program)) bad_program_length
  fail_if ((version == 0) && (not (length program == 20) && not (length program == 32)))
      bad_program_length
  ok (u8 version, map u8 program)

unfoldable pub segwit_script : ℕ → List ℕ → Result CoinError (List ℕ)
segwit_script version program =
    if (version == 0) && ((length program == 20) || (length program == 32))
    then ok (0x00 ∷ u8 (length program) ∷ program)
    else if (version == 1) && (length program == 32)
    then ok (0x51 ∷ 0x20 ∷ program)
    else err unsupported_witness
