-- ===== src/Coin/Fractal.antt =====
-- pkg/coin/fractal.go: Fractal Bitcoin, which also pays to taproot addresses.
use forgenx_engine.Prelude.{
  ℕ, List, [], ◌∷◌, Bool, true, Result, ok, err, ◌>>=◌, ◌>>◌, fail_if, not, ◌||◌, ◌==◌, length,
  if◌then◌else◌,
}
use forgenx_engine.Prelude.Int.{ℤ}
use forgenx_engine.Coinbase.Merkle.{Sha256}
use forgenx_engine.Coinbase.Builder.{CoinbaseOutput}
use forgenx_engine.Coin.Errors.{CoinError, cannot_decode, bad_payload_length, unknown_version}
use forgenx_engine.Coin.Template.{BlockTemplate}
use forgenx_engine.Coin.Types.{CoinParams, AddressParams, or_error}
use forgenx_engine.Coin.Text.{same_text}
use forgenx_engine.Coin.Base58.{base58_check_decode}
use forgenx_engine.Coin.Segwit.{decode_segwit_address, segwit_script}
use forgenx_engine.Coinbase.Script.{p2pkh_script, p2sh_script}
use forgenx_engine.Coin.Outputs.{build_segwit_coinbase}
use forgenx_engine.Coin.Block.{build_segwit_block}

abbrev pub name : List ℕ
name =
    b'F' ∷ b'r' ∷ b'a' ∷ b'c' ∷ b't' ∷ b'a' ∷ b'l' ∷ b' ' ∷ b'B' ∷ b'i' ∷ b't' ∷ b'c' ∷ b'o' ∷ b'i'
    ∷ b'n' ∷ []

abbrev pub symbol : List ℕ
symbol = b'F' ∷ b'B' ∷ []

-- "sha256d"
abbrev pub algorithm : List ℕ
algorithm = b's' ∷ b'h' ∷ b'a' ∷ b'2' ∷ b'5' ∷ b'6' ∷ b'd' ∷ []

abbrev pub supports_seg_wit : Bool
supports_seg_wit = true

abbrev pub params : CoinParams
params = record {
  p2pkh_version_mainnet = 0x00;
  p2pkh_version_testnet = 0x6f;
  p2sh_version_mainnet = 0x05;
  p2sh_version_testnet = 0xc4;
  bech32_hrp_mainnet = b'b' ∷ b'c' ∷ [];
  bech32_hrp_testnet = b't' ∷ b'b' ∷ [];
  cash_addr_prefix = [];
  default_rpc_port = 8332;
  seg_wit = true;
}

abbrev pub template_rules : List (List ℕ)
template_rules = (b's' ∷ b'e' ∷ b'g' ∷ b'w' ∷ b'i' ∷ b't' ∷ []) ∷ []

abbrev pub is_test_name : List ℕ → Bool
is_test_name network =
    same_text network (b't' ∷ b'e' ∷ b's' ∷ b't' ∷ b'n' ∷ b'e' ∷ b't' ∷ [])
    || (same_text network (b't' ∷ b'e' ∷ b's' ∷ b't' ∷ b'n' ∷ b'e' ∷ b't' ∷ b'4' ∷ [])
        || same_text network (b's' ∷ b'i' ∷ b'g' ∷ b'n' ∷ b'e' ∷ b't' ∷ []))

-- The method `addressParams`.
unfoldable pub fractal_address_params : List ℕ → AddressParams
fractal_address_params network =
    if is_test_name network
    then record {
      hrp = params.bech32_hrp_testnet;
      p2pkh_version = params.p2pkh_version_testnet;
      p2sh_version = params.p2sh_version_testnet;
    }
    else if same_text network (b'r' ∷ b'e' ∷ b'g' ∷ b't' ∷ b'e' ∷ b's' ∷ b't' ∷ [])
    then record {
      hrp = b'b' ∷ b'c' ∷ b'r' ∷ b't' ∷ [];
      p2pkh_version = params.p2pkh_version_testnet;
      p2sh_version = params.p2sh_version_testnet;
    }
    else record {
      hrp = params.bech32_hrp_mainnet;
      p2pkh_version = params.p2pkh_version_mainnet;
      p2sh_version = params.p2sh_version_mainnet;
    }

-- The script of a decoded Base58Check address.
unfoldable pub payload_to_script : AddressParams → ℕ → List ℕ → Result CoinError (List ℕ)
payload_to_script versions version payload = do
  fail_if (not (length payload == 20)) bad_payload_length
  if version == versions.p2pkh_version
      then ok (p2pkh_script payload)
      else if version == versions.p2sh_version
      then ok (p2sh_script payload)
      else err unknown_version

module _ (sha : Sha256) where
  unfoldable pub address_to_script : (address network : List ℕ) → Result CoinError (List ℕ)
  address_to_script address network =
      let versions = fractal_address_params network in
      elim (decode_segwit_address address versions.hrp) [
        | ok (version, program) ↦ segwit_script version program
        | err e ↦ or_error (base58_check_decode sha address) cannot_decode >>= λ decoded.
            payload_to_script versions decoded.0 decoded.1
      ]

  unfoldable pub validate_address : (address network : List ℕ) → Result CoinError (Unit {0})
  validate_address address network = do
    script ← or_error (address_to_script address network) cannot_decode
    ok tt

  unfoldable pub build_coinbase :
      BlockTemplate
      → (address network coinbase_text : List ℕ) → (extra_nonce1_size extra_nonce2_size : ℕ)
      → List CoinbaseOutput
      → Result CoinError (List ℕ × List ℕ)
  build_coinbase template address network coinbase_text extra_nonce1_size extra_nonce2_size
        extra_outputs =
      build_segwit_coinbase template coinbase_text extra_nonce1_size extra_nonce2_size extra_outputs
        (address_to_script address network) true

unfoldable pub build_block :
    (header coinbase_tx : List ℕ) → BlockTemplate → Result CoinError (List ℕ)
build_block header coinbase_tx template = build_segwit_block header coinbase_tx template

unfoldable pub pool_reward : BlockTemplate → ℤ
pool_reward template = template.coinbase_value
