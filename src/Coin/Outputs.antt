-- ===== src/Coin/Outputs.antt =====
-- BuildCoinbase of the coins of pkg/coin: the list of outputs, and the halves made of it. The
-- SegWit coins and the generic one have the same body; so have Bitcoin Cash's, less the commitment.
use forgenx_engine.Prelude.{
  ℕ, ◌-◌, ◌^◌, List, [], ◌∷◌, ◌++◌, Bool, false, ltb, if◌then◌else◌, Option, none, some, Result, ok,
  err, ◌>>=◌,
}
use forgenx_engine.Prelude.Int.{ℤ, pos, negsuc, ◌-ℤ◌}
use forgenx_engine.Prelude.Hex.{hex_decode}
use forgenx_engine.Coinbase.Builder.{CoinbaseOutput, uint64_of, build_coinbase_parts}
use forgenx_engine.Coin.Template.{BlockTemplate}
use forgenx_engine.Coin.Errors.{CoinError, bad_commitment}

-- The int64 with the given 64 bits, and `int64` arithmetic, which wraps.
abbrev pub int64_of : ℕ → ℤ
int64_of n = if ltb n (2 ^ 63) then pos n else negsuc (2 ^ 64 - 1 - n)

unfoldable pub int64_sub : ℤ → ℤ → ℤ
int64_sub a b = int64_of (uint64_of (a -ℤ b))

-- `for _, eo := range extraOutputs { poolValue -= eo.Value }`
unfoldable pub less_extra_outputs : ℤ → List CoinbaseOutput → ℤ
less_extra_outputs pool_value [] = pool_value
less_extra_outputs pool_value (eo ∷ extra_outputs) =
    less_extra_outputs (int64_sub pool_value eo.value) extra_outputs

unfoldable pub plain_outputs : BlockTemplate → List ℕ → List CoinbaseOutput → List CoinbaseOutput
plain_outputs template script extra_outputs =
    (record { value = less_extra_outputs template.coinbase_value extra_outputs; script = script })
    ∷ extra_outputs

unfoldable pub commitment_output : Option (List ℕ) → Result CoinError (List CoinbaseOutput)
commitment_output none = err bad_commitment
commitment_output (some commitment) = ok ((record { value = pos 0; script = commitment }) ∷ [])

-- The witness commitment, where the template has one.
unfoldable pub commitment_outputs :
    (commitment_hex : List ℕ) → Result CoinError (List CoinbaseOutput)
commitment_outputs [] = ok []
commitment_outputs (c ∷ text) = commitment_output (hex_decode (c ∷ text))

unfoldable pub segwit_outputs :
    BlockTemplate → List ℕ → List CoinbaseOutput → Result CoinError (List CoinbaseOutput)
segwit_outputs template script extra_outputs = do
  commitment ← commitment_outputs template.default_witness_commitment
  ok (plain_outputs template script extra_outputs ++ commitment)

module _ (template : BlockTemplate) (coinbase_text : List ℕ)
    (extra_nonce1_size extra_nonce2_size : ℕ) (extra_outputs : List CoinbaseOutput) where
  -- The script is what AddressToScript returns.
  unfoldable pub build_segwit_coinbase :
      Result CoinError (List ℕ) → Bool → Result CoinError (List ℕ × List ℕ)
  build_segwit_coinbase address_script segwit = do
    script ← address_script
    outputs ← segwit_outputs template script extra_outputs
    ok (
        build_coinbase_parts template.height coinbase_text extra_nonce1_size extra_nonce2_size
          outputs segwit)

  unfoldable pub build_plain_coinbase :
      Result CoinError (List ℕ) → Result CoinError (List ℕ × List ℕ)
  build_plain_coinbase address_script = do
    script ← address_script
    ok (
        build_coinbase_parts template.height coinbase_text extra_nonce1_size extra_nonce2_size
          (plain_outputs template script extra_outputs) false)
