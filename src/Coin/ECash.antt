-- ===== src/Coin/ECash.antt =====
-- pkg/coin/ecash.go: eCash, whose coinbase also pays the miner fund and the staking rewards.
use forgenx_engine.Prelude.{
  ℕ, List, [], ◌∷◌, ◌++◌, Bool, false, Option, none, some, Result, ok, err, ◌>>=◌, ◌==◌,
  if◌then◌else◌,
}
use forgenx_engine.Prelude.Int.{ℤ, pos, ltb_ℤ}
use forgenx_engine.Prelude.Hex.{hex_decode}
use forgenx_engine.Coinbase.Script.{p2pkh_script}
use forgenx_engine.Coinbase.Merkle.{Sha256}
use forgenx_engine.Coinbase.Builder.{CoinbaseOutput, build_coinbase_parts}
use forgenx_engine.Coin.Errors.{CoinError, cannot_decode, unknown_version, bad_staking_script}
use forgenx_engine.Coin.Template.{BlockTemplate, CoinbaseTxn, MinerFund, StakingRewards}
use forgenx_engine.Coin.Types.{CoinParams, AddressParams, address_params, is_testnet, or_error}
use forgenx_engine.Coin.Base58.{base58_check_decode}
use forgenx_engine.Coin.CashAddr.{cash_addr_decode}
use forgenx_engine.Coin.Standard.{validate_cash, hash_to_script}
use forgenx_engine.Coin.Outputs.{int64_sub, less_extra_outputs}
use forgenx_engine.Coin.Block.{build_plain_block}

abbrev pub name : List ℕ
name = b'e' ∷ b'C' ∷ b'a' ∷ b's' ∷ b'h' ∷ []

abbrev pub symbol : List ℕ
symbol = b'X' ∷ b'E' ∷ b'C' ∷ []

-- "sha256d"
abbrev pub algorithm : List ℕ
algorithm = b's' ∷ b'h' ∷ b'a' ∷ b'2' ∷ b'5' ∷ b'6' ∷ b'd' ∷ []

abbrev pub supports_seg_wit : Bool
supports_seg_wit = false

abbrev pub params : CoinParams
params = record {
  p2pkh_version_mainnet = 0x00;
  p2pkh_version_testnet = 0x6f;
  p2sh_version_mainnet = 0x05;
  p2sh_version_testnet = 0xc4;
  bech32_hrp_mainnet = [];
  bech32_hrp_testnet = [];
  cash_addr_prefix = b'e' ∷ b'c' ∷ b'a' ∷ b's' ∷ b'h' ∷ [];
  default_rpc_port = 8332;
  seg_wit = false;
}

abbrev pub template_rules : List (List ℕ)
template_rules = []

unfoldable pub network_prefix : List ℕ → List ℕ
network_prefix network =
    if is_testnet network
    then b'e' ∷ b'c' ∷ b't' ∷ b'e' ∷ b's' ∷ b't' ∷ []
    else params.cash_addr_prefix

-- What a mandatory output takes away: the value of a record that is there.
unfoldable pub less_miner_fund : ℤ → Option MinerFund → ℤ
less_miner_fund reward none = reward
less_miner_fund reward (some fund) = int64_sub reward fund.minimum_value

unfoldable pub less_staking_rewards : ℤ → Option StakingRewards → ℤ
less_staking_rewards reward none = reward
less_staking_rewards reward (some staking) = int64_sub reward staking.minimum_value

unfoldable pub less_mandatory : ℤ → Option CoinbaseTxn → ℤ
less_mandatory reward none = reward
less_mandatory reward (some txn) =
    less_staking_rewards (less_miner_fund reward txn.miner_fund) txn.staking_rewards

unfoldable pub pool_reward : BlockTemplate → ℤ
pool_reward template =
    let reward = less_mandatory template.coinbase_value template.coinbase_txn in
    if ltb_ℤ reward (pos 0) then pos 0 else reward

unfoldable pub staking_outputs : Option StakingRewards → Result CoinError (List CoinbaseOutput)
staking_outputs none = ok []
staking_outputs (some staking) =
    if ltb_ℤ (pos 0) staking.minimum_value
    then elim staking.payout_script.hex [
      | [] ↦ ok []
      | c ∷ text ↦ elim (hex_decode (c ∷ text)) [
        | none ↦ err bad_staking_script
        | some script ↦ ok ((record { value = staking.minimum_value; script = script }) ∷ [])
      ]
    ]
    else ok []

module _ (sha : Sha256) where
  unfoldable pub validate_address : (address network : List ℕ) → Result CoinError (Unit {0})
  validate_address address network =
      validate_cash sha (address_params params network) (network_prefix network) address

  -- Behind CashAddr only the P2PKH version is taken.
  unfoldable pub legacy_to_script : AddressParams → List ℕ → Result CoinError (List ℕ)
  legacy_to_script versions address = do
    (version, payload) ← or_error (base58_check_decode sha address) cannot_decode
    if version == versions.p2pkh_version then ok (p2pkh_script payload) else err unknown_version

  unfoldable pub address_to_script : (address network : List ℕ) → Result CoinError (List ℕ)
  address_to_script address network = elim (cash_addr_decode address (network_prefix network)) [
    | ok (hash_type, hash) ↦ hash_to_script hash_type hash
    | err e ↦ legacy_to_script (address_params params network) address
  ]

  unfoldable pub miner_fund_outputs :
      (network : List ℕ) → Option MinerFund → Result CoinError (List CoinbaseOutput)
  miner_fund_outputs network none = ok []
  miner_fund_outputs network (some fund) = elim fund.addresses [
    | [] ↦ ok []
    | address ∷ others ↦
        if ltb_ℤ (pos 0) fund.minimum_value
        then (do
          fund_script ← address_to_script address network
          ok ((record { value = fund.minimum_value; script = fund_script }) ∷ []))
        else ok []
  ]

  unfoldable pub mandatory_outputs :
      (network : List ℕ) → Option CoinbaseTxn → Result CoinError (List CoinbaseOutput)
  mandatory_outputs network none = ok []
  mandatory_outputs network (some txn) = do
    fund ← miner_fund_outputs network txn.miner_fund
    staking ← staking_outputs txn.staking_rewards
    ok (fund ++ staking)

  unfoldable pub ecash_outputs :
      BlockTemplate
      → (pool_script network : List ℕ) → List CoinbaseOutput
      → Result CoinError (List CoinbaseOutput)
  ecash_outputs template pool_script network extra_outputs = do
    mandatory ← mandatory_outputs network template.coinbase_txn
    ok (
        (record {
          value = less_extra_outputs (pool_reward template) extra_outputs;
          script = pool_script;
        })
        ∷ (mandatory ++ extra_outputs))

  unfoldable pub build_coinbase :
      BlockTemplate
      → (address network coinbase_text : List ℕ) → (extra_nonce1_size extra_nonce2_size : ℕ)
      → List CoinbaseOutput
      → Result CoinError (List ℕ × List ℕ)
  build_coinbase template address network coinbase_text extra_nonce1_size extra_nonce2_size
        extra_outputs =
      do
        pool_script ← address_to_script address network
        outputs ← ecash_outputs template pool_script network extra_outputs
        ok (
            build_coinbase_parts template.height coinbase_text extra_nonce1_size extra_nonce2_size
              outputs false)

unfoldable pub build_block :
    (header coinbase_tx : List ℕ) → BlockTemplate → Result CoinError (List ℕ)
build_block header coinbase_tx template = build_plain_block header coinbase_tx template
