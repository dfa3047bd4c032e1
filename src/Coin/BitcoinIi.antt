-- ===== src/Coin/BitcoinIi.antt =====
-- pkg/coin/bitcoinii.go: Bitcoin II.
use forgenx_engine.Prelude.{ℕ, List, [], ◌∷◌, Bool, true, Result}
use forgenx_engine.Prelude.Int.{ℤ}
use forgenx_engine.Coinbase.Merkle.{Sha256}
use forgenx_engine.Coinbase.Builder.{CoinbaseOutput}
use forgenx_engine.Coin.Errors.{CoinError}
use forgenx_engine.Coin.Template.{BlockTemplate}
use forgenx_engine.Coin.Types.{CoinParams, address_params}
use forgenx_engine.Coin.Standard.{validate_segwit, segwit_to_script}
use forgenx_engine.Coin.Outputs.{build_segwit_coinbase}
use forgenx_engine.Coin.Block.{build_segwit_block}

abbrev pub name : List ℕ
name = b'B' ∷ b'i' ∷ b't' ∷ b'c' ∷ b'o' ∷ b'i' ∷ b'n' ∷ b' ' ∷ b'I' ∷ b'I' ∷ []

abbrev pub symbol : List ℕ
symbol = b'B' ∷ b'C' ∷ b'2' ∷ []

-- "sha256d"
abbrev pub algorithm : List ℕ
algorithm = b's' ∷ b'h' ∷ b'a' ∷ b'2' ∷ b'5' ∷ b'6' ∷ b'd' ∷ []

abbrev pub supports_seg_wit : Bool
supports_seg_wit = true

abbrev pub params : CoinParams
params = record {
  p2pkh_version_mainnet = 0x00;
  p2pkh_version_testnet = 0x6f;
  p2sh_version_mainnet = 0x05;
  p2sh_version_testnet = 0xc4;
  bech32_hrp_mainnet = b'b' ∷ b'c' ∷ [];
  bech32_hrp_testnet = b't' ∷ b'b' ∷ [];
  cash_addr_prefix = [];
  default_rpc_port = 8337;
  seg_wit = true;
}

abbrev pub template_rules : List (List ℕ)
template_rules = (b's' ∷ b'e' ∷ b'g' ∷ b'w' ∷ b'i' ∷ b't' ∷ []) ∷ []

module _ (sha : Sha256) where
  unfoldable pub validate_address : (address network : List ℕ) → Result CoinError (Unit {0})
  validate_address address network = validate_segwit sha (address_params params network) address

  unfoldable pub address_to_script : (address network : List ℕ) → Result CoinError (List ℕ)
  address_to_script address network = segwit_to_script sha (address_params params network) address

  unfoldable pub build_coinbase :
      BlockTemplate
      → (address network coinbase_text : List ℕ) → (extra_nonce1_size extra_nonce2_size : ℕ)
      → List CoinbaseOutput
      → Result CoinError (List ℕ × List ℕ)
  build_coinbase template address network coinbase_text extra_nonce1_size extra_nonce2_size
        extra_outputs =
      build_segwit_coinbase template coinbase_text extra_nonce1_size extra_nonce2_size extra_outputs
        (address_to_script address network) true

unfoldable pub build_block :
    (header coinbase_tx : List ℕ) → BlockTemplate → Result CoinError (List ℕ)
build_block header coinbase_tx template = build_segwit_block header coinbase_tx template

unfoldable pub pool_reward : BlockTemplate → ℤ
pool_reward template = template.coinbase_value
