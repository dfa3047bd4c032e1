-- ===== src/Coin/Tests.antt =====
-- Runs of pkg/coin at concrete inputs.
use forgenx_engine.Prelude.{
  ℕ, ◌+◌, ◌%◌, ◌^◌, ◌≡◌, ◌≢◌, ◌⊎◌, refl, List, [], ◌∷◌, arith, true, false, none, some, Result, ok,
}
use forgenx_engine.Prelude.Bytes.{zeros}
use forgenx_engine.Prelude.Int.{pos, ltb_ℤ, ◌-ℤ◌}
use forgenx_engine.Prelude.Hex.{hex_decode, from_hex_digit}
use forgenx_engine.Coinbase.Script.{p2pkh_script}
use forgenx_engine.Coin.Text.{last_index, to_upper, upper_char, index_of, to_lower, lower_char}
use forgenx_engine.Coin.CashAddr.{cash_addr_decode, split_prefix, cash_addr_charset_rev}
use forgenx_engine.Coin.Base58.{
  base58_check_decode, base58_decode, base58_number, base58_alphabet_rev, leading_ones, big_bytes,
}
use forgenx_engine.Coinbase.Merkle.{Sha256}
use forgenx_engine.Coinbase.Builder.{CoinbaseOutput, uint64_of, build_coinbase_parts}
use forgenx_engine.Coin.Errors.{CoinError}
use forgenx_engine.Coin.Template.{BlockTemplate, MinerFund, StakingRewards}
use forgenx_engine.Coin.Types.{AddressParams, address_params, is_testnet}
use forgenx_engine.Coin.SegwitLaws.{PaysToWitness, segwit_to_script-validated}
use forgenx_engine.Coin.Segwit.{decode_segwit_address}
use forgenx_engine.Coin.Fractal.{
  validate_address as fractal_validate, address_to_script as fractal_script, fractal_address_params,
  payload_to_script,
}
use forgenx_engine.Coin.FractalLaws.{IsStandard, address_to_script-validated}
use forgenx_engine.Coin.Bech32.{bech32_decode, split_bech32, decode_bech32_address, decode_chars}
use forgenx_engine.Coin.Outputs.{
  int64_sub, less_extra_outputs, commitment_output, commitment_outputs, plain_outputs,
  segwit_outputs, build_segwit_coinbase, build_plain_coinbase,
}
use forgenx_engine.Coin.OutputLaws.{total, build_segwit_coinbase-total}
use forgenx_engine.Coin.Block.{build_segwit_block, with_commitment_witness}
use forgenx_engine.Coin.BlockLaws.{transaction_bytes, block_hex, build_segwit_block_lem}
use forgenx_engine.Coin.Standard.{
  validate_segwit, segwit_to_script, validate_cash, cash_to_script, validate_base58,
}
use forgenx_engine.Coin.AddressLaws.{PaysToHash, cash_to_script-validated}
use forgenx_engine.Coin.ECash.{
  less_miner_fund, less_staking_rewards, less_mandatory, pool_reward, staking_outputs,
  address_to_script, legacy_to_script, miner_fund_outputs, mandatory_outputs, ecash_outputs,
  network_prefix,
}
use forgenx_engine.Coin.ECashLaws.{minimum_sum, ecash_outputs-total}

-- The P2WPKH address of BIP173: `antt nf` of this is version 0 and its twenty bytes.
decoded : Result CoinError (ℕ × List ℕ)
decoded =
    decode_bech32_address
      (b'b' ∷ b'c' ∷ b'1' ∷ b'q' ∷ b'w' ∷ b'5' ∷ b'0' ∷ b'8' ∷ b'd' ∷ b'6' ∷ b'q' ∷ b'e' ∷ b'j'
        ∷ b'x' ∷ b't' ∷ b'd' ∷ b'g' ∷ b'4' ∷ b'y' ∷ b'5' ∷ b'r' ∷ b'3' ∷ b'z' ∷ b'a' ∷ b'r' ∷ b'v'
        ∷ b'a' ∷ b'r' ∷ b'y' ∷ b'0' ∷ b'c' ∷ b'5' ∷ b'x' ∷ b'w' ∷ b'7' ∷ b'k' ∷ b'v' ∷ b'8' ∷ b'f'
        ∷ b'3' ∷ b't' ∷ b'4' ∷ [])
      (b'b' ∷ b'c' ∷ [])

-- A commitment of two bytes, and two transactions.
abbrev template : BlockTemplate
template = record {
  transactions =
      (record {
        data_hex = b'0' ∷ b'a' ∷ b'0' ∷ b'b' ∷ [];
        tx_id = [];
        hash = [];
        fee = pos 0;
        sig_ops = pos 0;
        weight = pos 8;
      })
      ∷ (record {
        data_hex = b'0' ∷ b'c' ∷ [];
        tx_id = [];
        hash = [];
        fee = pos 1;
        sig_ops = pos 0;
        weight = pos 4;
      })
      ∷ [];
  coinbase_value = pos 5000;
  height = pos 100;
  default_witness_commitment = b'6' ∷ b'a' ∷ b'2' ∷ b'4' ∷ [];
  version = 0x2000_0000;
  previous_block_hash = [];
  coinbase_aux = [];
  target = [];
  min_time = pos 0;
  mutable_fields = [];
  nonce_range = [];
  sig_op_limit = pos 80_000;
  size_limit = pos 4_000_000;
  weight_limit = pos 4_000_000;
  cur_time = pos 0;
  bits = [];
  rules = [];
  rtt = none;
  coinbase_txn = none;
}

abbrev paid : Result CoinError (List ℕ)
paid = ok (7 ∷ 8 ∷ [])

abbrev donation : List CoinbaseOutput
donation = (record { value = pos 50; script = 1 ∷ 2 ∷ [] }) ∷ []

built :
    build_segwit_coinbase template [] 4 4 donation paid true
    ≡ ok (
        build_coinbase_parts
          (pos 100)
          []
          4
          4
          ((record { value = pos 4950; script = 7 ∷ 8 ∷ [] })
            ∷ (record { value = pos 50; script = 1 ∷ 2 ∷ [] })
            ∷ (record { value = pos 0; script = 0x6a ∷ 0x24 ∷ [] })
            ∷ [])
          true)
unfolding build_segwit_coinbase segwit_outputs plain_outputs commitment_outputs commitment_output
    hex_decode from_hex_digit less_extra_outputs int64_sub ◌-ℤ◌
built = refl

build_segwit_coinbase-total_example :
    (script : List ℕ) × (outputs : List CoinbaseOutput) × (paid ≡ ok script)
    × (segwit_outputs template script donation ≡ ok outputs)
    × (build_coinbase_parts (pos 100) [] 4 4 outputs true
        ≡ build_coinbase_parts
            (pos 100)
            []
            4
            4
            ((record { value = pos 4950; script = 7 ∷ 8 ∷ [] })
              ∷ (record { value = pos 50; script = 1 ∷ 2 ∷ [] })
              ∷ (record { value = pos 0; script = 0x6a ∷ 0x24 ∷ [] })
              ∷ [])
            true)
    × (total outputs ≡ 5000)
build_segwit_coinbase-total_example =
    build_segwit_coinbase-total template [] 4 4 donation paid true _ built

plain_built :
    build_plain_coinbase template [] 4 4 donation paid
    ≡ ok
        (build_coinbase_parts (pos 100) [] 4 4 (plain_outputs template (7 ∷ 8 ∷ []) donation) false)
unfolding build_plain_coinbase
plain_built = refl

build_segwit_block_lem_example :
    build_segwit_block (1 ∷ []) (2 ∷ []) template
    ≡ block_hex
        (1 ∷ [])
        3
        (with_commitment_witness (2 ∷ []) template)
        (transaction_bytes template.transactions)
build_segwit_block_lem_example = build_segwit_block_lem (1 ∷ []) (2 ∷ []) template (omega arith)

-- A hash that is zero everywhere, so that zero bytes carry a valid checksum.
constant : Sha256
constant = record {
  sum = λ payload. zeros 32;
  length_sum = λ payload. refl;
  bytes_sum = λ payload. omega arith;
}

-- Twenty-five zero bytes in Base58.
abbrev ones : List ℕ
ones =
    b'1' ∷ b'1' ∷ b'1' ∷ b'1' ∷ b'1' ∷ b'1' ∷ b'1' ∷ b'1' ∷ b'1' ∷ b'1' ∷ b'1' ∷ b'1' ∷ b'1' ∷ b'1'
    ∷ b'1' ∷ b'1' ∷ b'1' ∷ b'1' ∷ b'1' ∷ b'1' ∷ b'1' ∷ b'1' ∷ b'1' ∷ b'1' ∷ b'1' ∷ []

abbrev main_versions : AddressParams
main_versions = record { hrp = []; p2pkh_version = 0; p2sh_version = 5 }

abbrev bch_prefix : List ℕ
bch_prefix = b'b' ∷ b'i' ∷ b't' ∷ b'c' ∷ b'o' ∷ b'i' ∷ b'n' ∷ b'c' ∷ b'a' ∷ b's' ∷ b'h' ∷ []

ones_valid : validate_cash constant main_versions bch_prefix ones ≡ ok (tt {0})
unfolding validate_cash validate_base58 constant cash_addr_decode split_prefix index_of to_lower
    lower_char decode_chars cash_addr_charset_rev base58_check_decode base58_decode base58_number
    base58_alphabet_rev leading_ones big_bytes
ones_valid = refl

cash_to_script-validated_example :
    (script : List ℕ) × (cash_to_script constant main_versions bch_prefix ones ≡ ok script)
    × PaysToHash script
cash_to_script-validated_example =
    cash_to_script-validated constant main_versions bch_prefix ones ones_valid

ones_valid_segwit : validate_segwit constant main_versions ones ≡ ok (tt {0})
unfolding validate_segwit validate_base58 constant decode_bech32_address bech32_decode split_bech32
    last_index to_lower lower_char to_upper upper_char base58_check_decode base58_decode
    base58_number base58_alphabet_rev index_of leading_ones big_bytes
ones_valid_segwit = refl

segwit_to_script-validated_example :
    ((version : ℕ) × (program : List ℕ) × (version ≢ 0)
      × (decode_bech32_address ones [] ≡ ok (version, program)))
    ⊎ ((script : List ℕ) × (segwit_to_script constant main_versions ones ≡ ok script)
        × (PaysToHash script ⊎ PaysToWitness script))
segwit_to_script-validated_example =
    segwit_to_script-validated constant main_versions ones ones_valid_segwit

fractal_valid : fractal_validate constant ones [] ≡ ok (tt {0})
unfolding fractal_validate fractal_script fractal_address_params payload_to_script constant
    decode_segwit_address split_bech32 last_index to_lower lower_char to_upper upper_char
    base58_check_decode base58_decode base58_number base58_alphabet_rev index_of leading_ones
    big_bytes
fractal_valid = refl

address_to_script-validated_example :
    (script : List ℕ) × (fractal_script constant ones [] ≡ ok script) × IsStandard script
address_to_script-validated_example = address_to_script-validated constant ones [] fractal_valid

abbrev fund : MinerFund
fund = record { addresses = ones ∷ []; minimum_value = pos 400 }

abbrev staking : StakingRewards
staking = record { payout_script = record { hex = b'5' ∷ b'1' ∷ [] }; minimum_value = pos 500 }

abbrev ecash_template : BlockTemplate
ecash_template = record {
  transactions = [];
  coinbase_value = pos 5000;
  height = pos 100;
  default_witness_commitment = [];
  version = 0x2000_0000;
  previous_block_hash = [];
  coinbase_aux = [];
  target = [];
  min_time = pos 0;
  mutable_fields = [];
  nonce_range = [];
  sig_op_limit = pos 80_000;
  size_limit = pos 4_000_000;
  weight_limit = pos 4_000_000;
  cur_time = pos 0;
  bits = [];
  rules = [];
  rtt = none;
  coinbase_txn = some (record { miner_fund = some fund; staking_rewards = some staking });
}

abbrev ecash_paid : List CoinbaseOutput
ecash_paid =
    (record { value = pos 4050; script = 7 ∷ 8 ∷ [] })
    ∷ (record { value = pos 400; script = p2pkh_script (zeros 20) })
    ∷ (record { value = pos 500; script = 0x51 ∷ [] })
    ∷ (record { value = pos 50; script = 1 ∷ 2 ∷ [] })
    ∷ []

ecash_built : ecash_outputs constant ecash_template (7 ∷ 8 ∷ []) [] donation ≡ ok ecash_paid
unfolding ecash_outputs mandatory_outputs miner_fund_outputs staking_outputs address_to_script
    pool_reward less_mandatory less_miner_fund less_staking_rewards legacy_to_script constant
    cash_addr_decode split_prefix index_of to_lower network_prefix is_testnet address_params
    lower_char decode_chars cash_addr_charset_rev base58_check_decode base58_decode base58_number
    base58_alphabet_rev leading_ones big_bytes hex_decode from_hex_digit less_extra_outputs
    int64_sub ◌-ℤ◌
ecash_built = refl

not_clamped :
    ltb_ℤ (less_mandatory ecash_template.coinbase_value ecash_template.coinbase_txn) (pos 0) ≡ false
unfolding less_mandatory less_miner_fund less_staking_rewards int64_sub ◌-ℤ◌
not_clamped = refl

ecash_outputs-total_example :
    (mandatory : List CoinbaseOutput) × (mandatory_outputs constant [] ecash_template.coinbase_txn
      ≡ ok mandatory)
    × ((total ecash_paid + minimum_sum ecash_template.coinbase_txn) % 2 ^ 64
        ≡ (uint64_of (pos 5000) + total mandatory) % 2 ^ 64)
ecash_outputs-total_example =
    ecash_outputs-total constant ecash_template (7 ∷ 8 ∷ []) [] donation ecash_paid not_clamped
      ecash_built
