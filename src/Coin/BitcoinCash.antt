-- ===== src/Coin/BitcoinCash.antt =====
-- pkg/coin/bitcoincash.go: Bitcoin Cash.
use forgenx_engine.Prelude.{ℕ, List, [], ◌∷◌, Bool, false, Result, if◌then◌else◌}
use forgenx_engine.Prelude.Int.{ℤ}
use forgenx_engine.Coinbase.Merkle.{Sha256}
use forgenx_engine.Coinbase.Builder.{CoinbaseOutput}
use forgenx_engine.Coin.Errors.{CoinError}
use forgenx_engine.Coin.Template.{BlockTemplate}
use forgenx_engine.Coin.Types.{CoinParams, address_params, is_testnet}
use forgenx_engine.Coin.Standard.{validate_cash, cash_to_script}
use forgenx_engine.Coin.Outputs.{build_plain_coinbase}
use forgenx_engine.Coin.Block.{build_plain_block}

abbrev pub name : List ℕ
name = b'B' ∷ b'i' ∷ b't' ∷ b'c' ∷ b'o' ∷ b'i' ∷ b'n' ∷ b' ' ∷ b'C' ∷ b'a' ∷ b's' ∷ b'h' ∷ []

abbrev pub symbol : List ℕ
symbol = b'B' ∷ b'C' ∷ b'H' ∷ []

-- "sha256d"
abbrev pub algorithm : List ℕ
algorithm = b's' ∷ b'h' ∷ b'a' ∷ b'2' ∷ b'5' ∷ b'6' ∷ b'd' ∷ []

abbrev pub supports_seg_wit : Bool
supports_seg_wit = false

abbrev pub params : CoinParams
params = record {
  p2pkh_version_mainnet = 0x00;
  p2pkh_version_testnet = 0x6f;
  p2sh_version_mainnet = 0x05;
  p2sh_version_testnet = 0xc4;
  bech32_hrp_mainnet = [];
  bech32_hrp_testnet = [];
  cash_addr_prefix =
      b'b' ∷ b'i' ∷ b't' ∷ b'c' ∷ b'o' ∷ b'i' ∷ b'n' ∷ b'c' ∷ b'a' ∷ b's' ∷ b'h' ∷ [];
  default_rpc_port = 8332;
  seg_wit = false;
}

abbrev pub template_rules : List (List ℕ)
template_rules = []

unfoldable pub network_prefix : List ℕ → List ℕ
network_prefix network =
    if is_testnet network
    then b'b' ∷ b'c' ∷ b'h' ∷ b't' ∷ b'e' ∷ b's' ∷ b't' ∷ []
    else params.cash_addr_prefix

module _ (sha : Sha256) where
  unfoldable pub validate_address : (address network : List ℕ) → Result CoinError (Unit {0})
  validate_address address network =
      validate_cash sha (address_params params network) (network_prefix network) address

  unfoldable pub address_to_script : (address network : List ℕ) → Result CoinError (List ℕ)
  address_to_script address network =
      cash_to_script sha (address_params params network) (network_prefix network) address

  unfoldable pub build_coinbase :
      BlockTemplate
      → (address network coinbase_text : List ℕ) → (extra_nonce1_size extra_nonce2_size : ℕ)
      → List CoinbaseOutput
      → Result CoinError (List ℕ × List ℕ)
  build_coinbase template address network coinbase_text extra_nonce1_size extra_nonce2_size
        extra_outputs =
      build_plain_coinbase template coinbase_text extra_nonce1_size extra_nonce2_size extra_outputs
        (address_to_script address network)

unfoldable pub build_block :
    (header coinbase_tx : List ℕ) → BlockTemplate → Result CoinError (List ℕ)
build_block header coinbase_tx template = build_plain_block header coinbase_tx template

unfoldable pub pool_reward : BlockTemplate → ℤ
pool_reward template = template.coinbase_value
