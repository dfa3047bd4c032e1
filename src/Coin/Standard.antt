-- ===== src/Coin/Standard.antt =====
-- ValidateAddress and AddressToScript, whose bodies bitcoin.go, digibyte.go and bitcoinii.go share,
-- and those of bitcoincash.go.
use forgenx_engine.Prelude.{
  ℕ, List, ◌&&◌, not, ltb, ◌==◌, if◌then◌else◌, Result, ok, err, ◌>>=◌, ◌>>◌, fail_if, length,
}
use forgenx_engine.Coinbase.Script.{p2pkh_script, p2sh_script, p2wpkh_script, p2wsh_script}
use forgenx_engine.Coinbase.Merkle.{Sha256}
use forgenx_engine.Coin.Bech32.{decode_bech32_address}
use forgenx_engine.Coin.Base58.{base58_check_decode}
use forgenx_engine.Coin.CashAddr.{cash_addr_decode}
use forgenx_engine.Coin.Types.{AddressParams, or_error}
use forgenx_engine.Coin.Errors.{
  CoinError, cannot_decode, bad_payload_length, unknown_version, unsupported_witness,
  unsupported_hash_type, bad_hash_length,
}

-- The script of a decoded witness program.
unfoldable pub witness_to_script : ℕ → List ℕ → Result CoinError (List ℕ)
witness_to_script witness_version program =
    if (witness_version == 0) && (length program == 20)
    then ok (p2wpkh_script program)
    else if (witness_version == 0) && (length program == 32)
    then ok (p2wsh_script program)
    else err unsupported_witness

-- What becomes of an address that CashAddr decodes.
unfoldable pub validate_hash : ℕ → List ℕ → Result CoinError (Unit {0})
validate_hash hash_type hash = do
  fail_if (ltb 1 hash_type) unsupported_hash_type
  fail_if (not (length hash == 20)) bad_hash_length
  ok tt

unfoldable pub hash_to_script : ℕ → List ℕ → Result CoinError (List ℕ)
hash_to_script hash_type hash =
    if hash_type == 0
    then ok (p2pkh_script hash)
    else if hash_type == 1
    then ok (p2sh_script hash)
    else err unsupported_hash_type

module _ (sha : Sha256) where
  -- "Try Base58Check" of ValidateAddress.
  unfoldable pub validate_base58 : AddressParams → List ℕ → Result CoinError (Unit {0})
  validate_base58 params address = do
    (version, payload) ← or_error (base58_check_decode sha address) cannot_decode
    fail_if (not (length payload == 20)) bad_payload_length
    fail_if (not (version == params.p2pkh_version) && not (version == params.p2sh_version))
        unknown_version
    ok tt

  -- "Try Base58Check" of AddressToScript.
  unfoldable pub base58_to_script : AddressParams → List ℕ → Result CoinError (List ℕ)
  base58_to_script params address = do
    (version, payload) ← or_error (base58_check_decode sha address) cannot_decode
    if version == params.p2pkh_version
        then ok (p2pkh_script payload)
        else if version == params.p2sh_version
        then ok (p2sh_script payload)
        else err unknown_version

  unfoldable pub validate_segwit : AddressParams → List ℕ → Result CoinError (Unit {0})
  validate_segwit params address = elim (decode_bech32_address address params.hrp) [
    | ok decoded ↦ ok tt
    | err e ↦ validate_base58 params address
  ]

  unfoldable pub segwit_to_script : AddressParams → List ℕ → Result CoinError (List ℕ)
  segwit_to_script params address = elim (decode_bech32_address address params.hrp) [
    | ok (witness_version, program) ↦ witness_to_script witness_version program
    | err e ↦ base58_to_script params address
  ]

  -- `prefix` is the network's.
  unfoldable pub validate_cash :
      AddressParams → (prefix address : List ℕ) → Result CoinError (Unit {0})
  validate_cash params prefix address = elim (cash_addr_decode address prefix) [
    | ok (hash_type, hash) ↦ validate_hash hash_type hash
    | err e ↦ validate_base58 params address
  ]

  unfoldable pub cash_to_script :
      AddressParams → (prefix address : List ℕ) → Result CoinError (List ℕ)
  cash_to_script params prefix address = elim (cash_addr_decode address prefix) [
    | ok (hash_type, hash) ↦ hash_to_script hash_type hash
    | err e ↦ base58_to_script params address
  ]
