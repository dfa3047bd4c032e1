-- ===== src/Coin/FractalLaws.antt =====
-- pkg/coin/fractal.go: ValidateAddress and AddressToScript.
use mathlib.Core.Path.{subst}
use forgenx_engine.Prelude.{
  ℕ, ◌≡◌, List, ◌∷◌, arith, Bool-cases, ◌&&◌, ◌||◌, not, ◌==◌, Result, ok, err, Result-cases,
  >>=_ok, fail_if_ok, length, ◌⊎◌, inl, inr,
}
use forgenx_engine.Prelude.Bytes.{u8}
use forgenx_engine.Coinbase.Script.{p2pkh_script, p2sh_script, p2wpkh_script, p2wsh_script}
use forgenx_engine.Coinbase.Merkle.{Sha256}
use forgenx_engine.Coin.Errors.{CoinError, cannot_decode, bad_payload_length}
use forgenx_engine.Coin.Types.{AddressParams, or_error}
use forgenx_engine.Coin.Base58.{base58_check_decode}
use forgenx_engine.Coin.Segwit.{segwit_script, decode_segwit_address}
use forgenx_engine.Coin.AddressLaws.{PaysToHash, to_key, to_script}
use forgenx_engine.Coin.SegwitLaws.{PaysToWitness, to_witness_key, to_witness_script}
use forgenx_engine.Coin.Fractal.{
  fractal_address_params, payload_to_script, address_to_script, validate_address,
}

-- OP_1 and a program of 32 bytes.
pub data PaysToTaproot : List ℕ → Type 0 where
  to_taproot : (program : List ℕ) → length program ≡ 32 → PaysToTaproot (0x51 ∷ 0x20 ∷ program)

pub IsStandard : List ℕ → Type 0
IsStandard script = PaysToHash script ⊎ (PaysToWitness script ⊎ PaysToTaproot script)

version_zero_script :
    (program : List ℕ)
    → (length program ≡ 20) ⊎ (length program ≡ 32)
    → PaysToWitness (0x00 ∷ u8 (length program) ∷ program)
unfolding p2wpkh_script p2wsh_script
version_zero_script program (inl key) = rw key (to_witness_key program key)
version_zero_script program (inr script) = rw script (to_witness_script program script)

segwit_script-standard :
    (version : ℕ) (program script : List ℕ)
    → segwit_script version program ≡ ok script
    → PaysToWitness script ⊎ PaysToTaproot script
unfolding segwit_script
segwit_script-standard version program script h =
    elim (Bool-cases ((version == 0) && ((length program == 20) || (length program == 32)))) [
      | inl zero_version ↦
          let made : 0x00 ∷ u8 (length program) ∷ program ≡ script =
            (let e = rw (segwit_script, zero_version) at h in cc) in
          inl (subst PaysToWitness made (version_zero_script program (ground arith)))
      | inr other ↦ elim (Bool-cases ((version == 1) && (length program == 32))) [
        | inl taproot ↦
            let made : 0x51 ∷ 0x20 ∷ program ≡ script =
              (let e = rw (segwit_script, other, taproot) at h in cc) in
            inr (subst PaysToTaproot made (to_taproot program (ground arith)))
        | inr none ↦ (let e = rw (segwit_script, other, none) at h in cc)
      ]
    ]

payload_to_script-standard :
    (params : AddressParams) (version : ℕ) (payload script : List ℕ)
    → payload_to_script params version payload ≡ ok script
    → PaysToHash script
unfolding payload_to_script
payload_to_script-standard params version payload script h =
    let (checked, h') = fail_if_ok (not (length payload == 20)) bad_payload_length _ h in
    let len : length payload ≡ 20 = ground arith in
    elim (Bool-cases (version == params.p2pkh_version)) [
      | inl key ↦
          let made : p2pkh_script payload ≡ script = (let e = rw key at h' in cc) in
          subst PaysToHash made (to_key payload len)
      | inr other ↦ elim (Bool-cases (version == params.p2sh_version)) [
        | inl hash ↦
            let made : p2sh_script payload ≡ script = (let e = rw (other, hash) at h' in cc) in
            subst PaysToHash made (to_script payload len)
        | inr none ↦ (let e = rw (other, none) at h' in cc)
      ]
    ]

address_to_script-IsStandard :
    (sha : Sha256) (address network script : List ℕ)
    → address_to_script sha address network ≡ ok script
    → IsStandard script
unfolding address_to_script IsStandard
address_to_script-IsStandard sha address network script h =
    let versions = fractal_address_params network in
    elim (Result-cases (decode_segwit_address address versions.hrp)) [
      | inl ((version, program), d) ↦
          inr (segwit_script-standard version program script (rw (address_to_script, d) at h))
      | inr (e, d) ↦
          let h' = rw (address_to_script, d) at h in
          let ((version, payload), b, h₁) =
            >>=_ok (or_error (base58_check_decode sha address) cannot_decode) _ h' in
          inl (payload_to_script-standard versions version payload script h₁)
    ]

or_error_ok :
    (r : Result CoinError (List ℕ)) (e : CoinError) (a : List ℕ) → or_error r e ≡ ok a → r ≡ ok a
or_error_ok (ok b) e a h = h
or_error_ok (err d) e a h = cc

-- An address that Fractal takes as valid has an output script, a standard one: on a hash of twenty
-- bytes, a witness script of version 0, or a taproot output.
pub address_to_script-validated :
    (sha : Sha256) (address network : List ℕ)
    → validate_address sha address network ≡ ok (tt {0})
    → (script : List ℕ) × (address_to_script sha address network ≡ ok script) × IsStandard script
unfolding validate_address
address_to_script-validated sha address network h =
    let (script, taken, _) =
      >>=_ok (or_error (address_to_script sha address network) cannot_decode) _ h in
    let made = or_error_ok (address_to_script sha address network) cannot_decode script taken in
    (script, made, address_to_script-IsStandard sha address network script made)
