-- ===== src/Coin/Template.antt =====
-- pkg/noderpc/types.go: the response of getblocktemplate. A map of the source is the list of its
-- entries.
use forgenx_engine.Prelude.{ℕ, List, Option}
use forgenx_engine.Prelude.Int.{ℤ}

pub record BlockTemplateTransaction : Type 0 where
  pub data_hex : List ℕ
  pub tx_id : List ℕ
  pub hash : List ℕ
  pub fee : ℤ
  pub sig_ops : ℤ
  pub weight : ℤ

pub record MinerFund : Type 0 where
  pub addresses : List (List ℕ)
  pub minimum_value : ℤ

pub record StakingRewardsScript : Type 0 where
  pub hex : List ℕ

pub record StakingRewards : Type 0 where
  pub payout_script : StakingRewardsScript
  pub minimum_value : ℤ

-- A nil pointer is `none`.
pub record CoinbaseTxn : Type 0 where
  pub miner_fund : Option MinerFund
  pub staking_rewards : Option StakingRewards

pub record RttData : Type 0 where
  pub prev_header_time : List ℤ
  pub prev_bits : List ℕ
  pub node_time : ℤ
  pub next_target : List ℕ

pub record BlockTemplate : Type 0 where
  pub version : ℕ
  pub previous_block_hash : List ℕ
  pub transactions : List BlockTemplateTransaction
  pub coinbase_aux : List (List ℕ × List ℕ)
  pub coinbase_value : ℤ
  pub target : List ℕ
  pub min_time : ℤ
  pub mutable_fields : List (List ℕ)
  pub nonce_range : List ℕ
  pub sig_op_limit : ℤ
  pub size_limit : ℤ
  pub weight_limit : ℤ
  pub cur_time : ℤ
  pub bits : List ℕ
  pub height : ℤ
  pub default_witness_commitment : List ℕ
  pub rules : List (List ℕ)
  pub coinbase_txn : Option CoinbaseTxn
  pub rtt : Option RttData
