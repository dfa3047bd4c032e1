-- ===== src/Coin/Block.antt =====
-- BuildBlock of the coins of pkg/coin: the block of a solved header, in hex.
use forgenx_engine.Prelude.{ℕ, ◌+◌, List, [], ◌∷◌, ◌++◌, Result, some_or, ok, ◌>>=◌, length}
use forgenx_engine.Prelude.Bytes.{u64}
use forgenx_engine.Prelude.Hex.{hex_encode, hex_decode}
use forgenx_engine.Coinbase.Script.{serialize_var_int}
use forgenx_engine.Coinbase.Builder.{add_witness_data}
use forgenx_engine.Coin.Template.{BlockTemplate, BlockTemplateTransaction}
use forgenx_engine.Coin.Errors.{CoinError, bad_transaction}

-- The loop over the transactions.
unfoldable pub append_transactions :
    List ℕ → List BlockTemplateTransaction → Result CoinError (List ℕ)
append_transactions block [] = ok block
append_transactions block (tx ∷ txs) = do
  tx_data ← some_or (hex_decode tx.data_hex) bad_transaction
  append_transactions (block ++ tx_data) txs

unfoldable pub build_plain_block :
    (header coinbase_tx : List ℕ) → BlockTemplate → Result CoinError (List ℕ)
build_plain_block header coinbase_tx template = do
  block ←
      append_transactions
        (header ++ (serialize_var_int (u64 (length template.transactions + 1)) ++ coinbase_tx))
        template.transactions
  ok (hex_encode block)

unfoldable pub with_commitment_witness : List ℕ → BlockTemplate → List ℕ
with_commitment_witness coinbase_tx template = elim template.default_witness_commitment [
  | [] ↦ coinbase_tx
  | c ∷ text ↦ add_witness_data coinbase_tx
]

unfoldable pub build_segwit_block :
    (header coinbase_tx : List ℕ) → BlockTemplate → Result CoinError (List ℕ)
build_segwit_block header coinbase_tx template =
    build_plain_block header (with_commitment_witness coinbase_tx template) template
