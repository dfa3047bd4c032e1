-- ===== src/Coin/ECashLaws.antt =====
-- pkg/coin/ecash.go: the outputs of BuildCoinbase.
use forgenx_engine.Prelude.{
  ℕ, ◌+◌, ◌%◌, ◌^◌, ◌≡◌, List, ◌∷◌, ◌++◌, ap, arith, false, ok, >>=_ok, Option, none, some,
}
use forgenx_engine.Prelude.Int.{ℤ, pos, ltb_ℤ}
use forgenx_engine.Coinbase.Merkle.{Sha256}
use forgenx_engine.Coinbase.Builder.{CoinbaseOutput, uint64_of}
use forgenx_engine.Coin.Template.{BlockTemplate, CoinbaseTxn, MinerFund, StakingRewards}
use forgenx_engine.Coin.Outputs.{less_extra_outputs}
use forgenx_engine.Coin.OutputLaws.{
  total, total-append, less_extra_outputs-total, int64_sub_add, uint64_of-bound,
}
use forgenx_engine.Coin.ECash.{
  less_miner_fund, less_staking_rewards, less_mandatory, pool_reward, mandatory_outputs,
  ecash_outputs,
}

-- What the template asks for, as 64-bit numbers.
fund_minimum : Option MinerFund → ℕ
fund_minimum none = 0
fund_minimum (some fund) = uint64_of fund.minimum_value

staking_minimum : Option StakingRewards → ℕ
staking_minimum none = 0
staking_minimum (some staking) = uint64_of staking.minimum_value

pub minimum_sum : Option CoinbaseTxn → ℕ
minimum_sum none = 0
minimum_sum (some txn) = fund_minimum txn.miner_fund + staking_minimum txn.staking_rewards

less_miner_fund_add :
    (v : ℤ) (fund : Option MinerFund)
    → (uint64_of (less_miner_fund v fund) + fund_minimum fund) % 2 ^ 64 ≡ uint64_of v
unfolding less_miner_fund fund_minimum
less_miner_fund_add v none = omega (arith, uint64_of-bound v)
less_miner_fund_add v (some fund) = int64_sub_add v fund.minimum_value

less_staking_rewards_add :
    (v : ℤ) (staking : Option StakingRewards)
    → (uint64_of (less_staking_rewards v staking) + staking_minimum staking) % 2 ^ 64 ≡ uint64_of v
unfolding less_staking_rewards staking_minimum
less_staking_rewards_add v none = omega (arith, uint64_of-bound v)
less_staking_rewards_add v (some staking) = int64_sub_add v staking.minimum_value

less_mandatory_add :
    (v : ℤ) (txn : Option CoinbaseTxn)
    → (uint64_of (less_mandatory v txn) + minimum_sum txn) % 2 ^ 64 ≡ uint64_of v
unfolding less_mandatory minimum_sum
less_mandatory_add v none = omega (arith, uint64_of-bound v)
less_mandatory_add v (some txn) = omega (
  arith,
  less_miner_fund_add v txn.miner_fund,
  less_staking_rewards_add (less_miner_fund v txn.miner_fund) txn.staking_rewards,
)

pool_reward_not_clamped :
    (template : BlockTemplate)
    → ltb_ℤ (less_mandatory template.coinbase_value template.coinbase_txn) (pos 0) ≡ false
    → pool_reward template ≡ less_mandatory template.coinbase_value template.coinbase_txn
unfolding pool_reward
pool_reward_not_clamped template h = rw h

-- Where the minimum values do not take more than the template's coinbase value, the values of the
-- outputs and the minimum values that the template asks for add up to the coinbase value and what
-- the mandatory outputs pay, as 64-bit numbers.
pub ecash_outputs-total :
    (sha : Sha256) (template : BlockTemplate) (script network : List ℕ)
    (extra outputs : List CoinbaseOutput)
    → ltb_ℤ (less_mandatory template.coinbase_value template.coinbase_txn) (pos 0) ≡ false
    → ecash_outputs sha template script network extra ≡ ok outputs
    → (mandatory : List CoinbaseOutput) × (mandatory_outputs sha network template.coinbase_txn
        ≡ ok mandatory)
      × ((total outputs + minimum_sum template.coinbase_txn) % 2 ^ 64
          ≡ (uint64_of template.coinbase_value + total mandatory) % 2 ^ 64)
unfolding ecash_outputs
ecash_outputs-total sha template script network extra outputs enough h =
    let (mandatory, m, e) = >>=_ok (mandatory_outputs sha network template.coinbase_txn) _ h in
    let reward = less_mandatory template.coinbase_value template.coinbase_txn in
    let first = less_extra_outputs (pool_reward template) extra in
    let whole : (record { value = first; script = script }) ∷ (mandatory ++ extra) ≡ outputs = cc in
    let sum : (uint64_of first + total (mandatory ++ extra)) % 2 ^ 64 ≡ total outputs =
      unfold total in ap total whole in
    (
      mandatory,
      m,
      omega (
        arith,
        sum,
        total-append mandatory extra,
        less_extra_outputs-total (pool_reward template) extra,
        ap uint64_of (pool_reward_not_clamped template enough),
        less_mandatory_add template.coinbase_value template.coinbase_txn,
      ),
    )
