-- ===== src/Coin/AddressLaws.antt =====
-- pkg/coin: AddressToScript and ValidateAddress of Bitcoin Cash, with lemmas for other coins.
use forgenx_engine.Prelude.{
  ℕ, zero, suc, ◌≡◌, ◌<◌, List, refl, arith, ok, err, Result-cases, ◌⊎◌, inl, inr, ◌>>◌, >>=_ok,
  fail_if, length, ◌==◌, not, true, Bool-cases, if◌then◌else◌, ◌&&◌,
}
use forgenx_engine.Coinbase.Script.{p2pkh_script, p2sh_script}
use forgenx_engine.Coinbase.Merkle.{Sha256}
use forgenx_engine.Coin.Base58.{base58_check_decode}
use forgenx_engine.Coin.CashAddr.{cash_addr_decode}
use forgenx_engine.Coin.Types.{AddressParams, or_error}
use forgenx_engine.Coin.Errors.{cannot_decode, bad_payload_length, unknown_version}
use forgenx_engine.Coin.Standard.{
  validate_base58, base58_to_script, validate_hash, hash_to_script, validate_cash, cash_to_script,
}

-- A standard script that pays to a hash of twenty bytes.
pub data PaysToHash : List ℕ → Type 0 where
  to_key : (hash : List ℕ) → length hash ≡ 20 → PaysToHash (p2pkh_script hash)
  to_script : (hash : List ℕ) → length hash ≡ 20 → PaysToHash (p2sh_script hash)

validate_hash-bounds :
    (hash_type : ℕ) (hash : List ℕ)
    → validate_hash hash_type hash ≡ ok (tt {0})
    → (hash_type < 2) × (length hash ≡ 20)
unfolding validate_hash
validate_hash-bounds hash_type hash h = ground arith

hash_to_script-small :
    (hash_type : ℕ) (hash : List ℕ)
    → hash_type < 2
    → length hash ≡ 20
    → (script : List ℕ) × (hash_to_script hash_type hash ≡ ok script) × PaysToHash script
unfolding hash_to_script
hash_to_script-small zero hash small len = (p2pkh_script hash, refl, to_key hash len)
hash_to_script-small (suc zero) hash small len = (p2sh_script hash, refl, to_script hash len)
hash_to_script-small (suc (suc n)) hash small len = absurd (omega arith)

module _ (sha : Sha256) (params : AddressParams) (address : List ℕ) where
  version_checks :
      (version : ℕ) (payload : List ℕ)
      → (fail_if (not (length payload == 20)) bad_payload_length
          >> (fail_if
                (not (version == params.p2pkh_version) && not (version == params.p2sh_version))
                unknown_version
              >> ok (tt {0})))
        ≡ ok (tt {0})
      → (length payload ≡ 20) × ((version ≡ params.p2pkh_version) ⊎ (version ≡ params.p2sh_version))
  version_checks version payload h = ground arith

  version_to_script :
      (version : ℕ) (payload : List ℕ)
      → length payload ≡ 20
      → (version ≡ params.p2pkh_version) ⊎ (version ≡ params.p2sh_version)
      → (script : List ℕ) × ((if version == params.p2pkh_version
            then ok (p2pkh_script payload)
            else if version == params.p2sh_version
            then ok (p2sh_script payload)
            else err unknown_version)
          ≡ ok script)
        × PaysToHash script
  version_to_script version payload len version_is =
      elim (Bool-cases (version == params.p2pkh_version)) [
        | inl key ↦ (p2pkh_script payload, rw key, to_key payload len)
        | inr no_key ↦
            let script : (version == params.p2sh_version) ≡ true = ground arith in
            (p2sh_script payload, rw (no_key, script), to_script payload len)
      ]

  pub base58_to_script-validated :
      validate_base58 sha params address ≡ ok (tt {0})
      → (script : List ℕ) × (base58_to_script sha params address ≡ ok script) × PaysToHash script
  unfolding validate_base58 base58_to_script
  base58_to_script-validated h =
      let ((version, payload), d, h') =
        >>=_ok (or_error (base58_check_decode sha address) cannot_decode) _ h in
      let (len, version_is) = version_checks version payload h' in
      let (script, e, pays) = version_to_script version payload len version_is in
      (script, rw d e, pays)

-- An address that Bitcoin Cash takes as valid can be paid to: its script is made, and is one of
-- the two standard scripts on a hash of twenty bytes.
pub cash_to_script-validated :
    (sha : Sha256) (params : AddressParams) (prefix address : List ℕ)
    → validate_cash sha params prefix address ≡ ok (tt {0})
    → (script : List ℕ) × (cash_to_script sha params prefix address ≡ ok script) × PaysToHash script
unfolding validate_cash cash_to_script
cash_to_script-validated sha params prefix address h =
    elim (Result-cases (cash_addr_decode address prefix)) [
      | inl ((hash_type, hash), d) ↦
          let (bounds, len) = validate_hash-bounds hash_type hash (rw (validate_cash, d) at h) in
          let (script, e, pays) = hash_to_script-small hash_type hash bounds len in
          (script, rw (cash_to_script, d) e, pays)
      | inr (e, d) ↦
          let (script, made, pays) =
            base58_to_script-validated sha params address (rw (validate_cash, d) at h) in
          (script, rw (cash_to_script, d) made, pays)
    ]
