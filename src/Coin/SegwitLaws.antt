-- ===== src/Coin/SegwitLaws.antt =====
-- pkg/coin: ValidateAddress and AddressToScript of the SegWit coins.
use forgenx_engine.Prelude.{
  ℕ, ℕ_discrete, sym, ◌∙◌, Bool-cases, ◌≡◌, ◌≢◌, List, ap, arith, Bool, false, ◌&&◌, not, ok,
  >>=_ok, fail_if, fail_if_ok, ◌>>◌, ◌⊎◌, inl, inr, length, ◌==◌, Result-cases, map, drop, ltb,
  get_or,
}
use forgenx_engine.Prelude.Bytes.{u8}
use forgenx_engine.Coinbase.Script.{p2wpkh_script, p2wsh_script}
use forgenx_engine.Coinbase.Merkle.{Sha256}
use forgenx_engine.Coin.Text.{same_text}
use forgenx_engine.Coin.Errors.{wrong_hrp, empty_data, bad_program_length}
use forgenx_engine.Coin.Types.{AddressParams}
use forgenx_engine.Coin.Bech32.{bech32_decode, convert_bits, decode_bech32_address}
use forgenx_engine.Coin.Standard.{validate_segwit, witness_to_script, segwit_to_script}
use forgenx_engine.Coin.AddressLaws.{PaysToHash, base58_to_script-validated}

abbrev bad_length : ℕ × List ℕ → Bool
bad_length decoded =
    (decoded.0 == 0) && (not (length decoded.1 == 20) && not (length decoded.1 == 32))

checked_length :
    (decoded result : ℕ × List ℕ)
    → (fail_if (bad_length decoded) bad_program_length >> ok decoded) ≡ ok result
    → bad_length result ≡ false
checked_length decoded result h =
    let (checked, e) = fail_if_ok (bad_length decoded) bad_program_length (ok decoded) h in
    let same : decoded ≡ result = cc in ap bad_length (sym same) ∙ checked

decode_bech32_address-checked :
    (address hrp : List ℕ) (version : ℕ) (program : List ℕ)
    → decode_bech32_address address hrp ≡ ok (version, program)
    → bad_length (version, program) ≡ false
unfolding decode_bech32_address
decode_bech32_address-checked address hrp version program h =
    let ((hrp', values), d, h₁) = >>=_ok (bech32_decode address) _ h in
    let (same, h₂) = fail_if_ok (not (same_text hrp' hrp)) wrong_hrp _ h₁ in
    let (enough, h₃) = fail_if_ok (ltb (length values) 1) empty_data _ h₂ in
    let (bits, c, h₄) = >>=_ok (convert_bits (drop 1 values) 5 8 false) _ h₃ in
    checked_length (u8 (get_or values 0 0), map u8 bits) (version, program) h₄

-- A witness script of version 0, on a program of either length.
pub data PaysToWitness : List ℕ → Type 0 where
  to_witness_key : (program : List ℕ) → length program ≡ 20 → PaysToWitness (p2wpkh_script program)
  to_witness_script :
      (program : List ℕ) → length program ≡ 32 → PaysToWitness (p2wsh_script program)

witness_to_script-checked :
    (version : ℕ) (program : List ℕ)
    → bad_length (version, program) ≡ false
    → version ≡ 0
    → (script : List ℕ) × (witness_to_script version program ≡ ok script) × PaysToWitness script
unfolding witness_to_script
witness_to_script-checked version program h zero_version =
    elim (Bool-cases (length program == 20)) [
      | inl key ↦ (p2wpkh_script program, ground arith, to_witness_key program (ground arith))
      | inr other ↦ (p2wsh_script program, ground arith, to_witness_script program (ground arith))
    ]

-- An address that Bitcoin takes as valid is either a Bech32 address of a witness version other
-- than 0, or it can be paid to: its script is made, and is a standard script on a hash or a
-- witness script of version 0.
pub segwit_to_script-validated :
    (sha : Sha256) (params : AddressParams) (address : List ℕ)
    → validate_segwit sha params address ≡ ok (tt {0})
    → ((version : ℕ) × (program : List ℕ) × (version ≢ 0)
        × (decode_bech32_address address params.hrp ≡ ok (version, program)))
      ⊎ ((script : List ℕ) × (segwit_to_script sha params address ≡ ok script)
          × (PaysToHash script ⊎ PaysToWitness script))
unfolding segwit_to_script validate_segwit
segwit_to_script-validated sha params address h =
    elim (Result-cases (decode_bech32_address address params.hrp)) [
      | inl ((version, program), d) ↦ elim (ℕ_discrete version 0) [
        | no later ↦ inl (version, program, later, d)
        | yes zero_version ↦
            let (script, e, pays) =
              witness_to_script-checked version program
                (decode_bech32_address-checked address params.hrp version program d) zero_version in
            inr (script, rw (segwit_to_script, d) e, inr pays)
      ]
      | inr (e, d) ↦
          let (script, made, pays) =
            base58_to_script-validated sha params address (rw (validate_segwit, d) at h) in
          inr (script, rw (segwit_to_script, d) made, inl pays)
    ]
