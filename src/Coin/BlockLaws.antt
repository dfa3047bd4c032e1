-- ===== src/Coin/BlockLaws.antt =====
-- pkg/coin: BuildBlock, of the SegWit and generic coins.
use forgenx_engine.Prelude.{
  ℕ, ◌+◌, ◌≡◌, ◌<◌, ◌^◌, List, [], ◌∷◌, ◌++◌, append_assoc, append-nil, refl, ap, ◌∙◌, arith,
  Result, ok, err, Option, none, some, inl, inr, ◌>>=◌, length, Option-cases,
}
use forgenx_engine.Prelude.Bytes.{u64}
use forgenx_engine.Prelude.Hex.{hex_encode, hex_decode}
use forgenx_engine.Coinbase.Script.{serialize_var_int}
use forgenx_engine.Coin.Errors.{CoinError, bad_transaction}
use forgenx_engine.Coin.Template.{BlockTemplate, BlockTemplateTransaction}
use forgenx_engine.Coin.Block.{
  append_transactions, build_plain_block, build_segwit_block, with_commitment_witness,
}

-- The bytes of two decoded texts, one behind the other.
join : Option (List ℕ) → Option (List ℕ) → Option (List ℕ)
join none later = none
join (some bytes) none = none
join (some bytes) (some later) = some (bytes ++ later)

-- The bytes of the transactions, one behind the other, if every one of them decodes.
pub transaction_bytes : List BlockTemplateTransaction → Option (List ℕ)
transaction_bytes [] = some []
transaction_bytes (tx ∷ txs) = join (hex_decode tx.data_hex) (transaction_bytes txs)

behind : List ℕ → Option (List ℕ) → Result CoinError (List ℕ)
behind block none = err bad_transaction
behind block (some bytes) = ok (block ++ bytes)

behind-join :
    (block bytes : List ℕ) (later : Option (List ℕ))
    → behind (block ++ bytes) later ≡ behind block (join (some bytes) later)
unfolding behind join
behind-join block bytes none = refl
behind-join block bytes (some later) = ap ok (append_assoc block bytes later)

append_transactions_lem :
    (block : List ℕ) (txs : List BlockTemplateTransaction)
    → append_transactions block txs ≡ behind block (transaction_bytes txs)
unfolding append_transactions transaction_bytes
append_transactions_lem block [] = unfold behind in rw append-nil
append_transactions_lem block (tx ∷ txs) = elim (Option-cases (hex_decode tx.data_hex)) [
  | inl n ↦ unfold behind join in rw n
  | inr (bytes, s) ↦ rw s (
      append_transactions_lem (block ++ bytes) txs
      ∙ behind-join block bytes (transaction_bytes txs))
]

-- The block in hex: the header, the number of transactions with the coinbase among them, the
-- coinbase, and the bytes of the others.
pub block_hex :
    (header : List ℕ) (count : ℕ) (coinbase_tx : List ℕ)
    → Option (List ℕ)
    → Result CoinError (List ℕ)
block_hex header count coinbase_tx none = err bad_transaction
block_hex header count coinbase_tx (some bytes) =
    ok (hex_encode (header ++ (serialize_var_int count ++ (coinbase_tx ++ bytes))))

block_hex-behind :
    (header : List ℕ) (count : ℕ) (coinbase_tx : List ℕ) (bytes : Option (List ℕ))
    → (behind (header ++ (serialize_var_int count ++ coinbase_tx)) bytes >>= λ block.
        ok (hex_encode block))
      ≡ block_hex header count coinbase_tx bytes
unfolding behind block_hex
block_hex-behind header count coinbase_tx none = refl
block_hex-behind header count coinbase_tx (some bytes) = rw (
  append_assoc header (serialize_var_int count ++ coinbase_tx) bytes,
  append_assoc (serialize_var_int count) coinbase_tx bytes,
)

-- For fewer than 2^64 transactions, the block of a SegWit coin is, in hex, the header, the number of transactions with the coinbase
-- among them, the coinbase, which has its witness if the template has a commitment, and the
-- template's transactions in order; it is an error exactly when one of these does not decode.
pub build_segwit_block_lem :
    (header coinbase_tx : List ℕ) (template : BlockTemplate)
    → length template.transactions + 1 < 2 ^ 64
    → build_segwit_block header coinbase_tx template
      ≡ block_hex header
          (length template.transactions + 1)
          (with_commitment_witness coinbase_tx template)
          (transaction_bytes template.transactions)
unfolding build_segwit_block build_plain_block
build_segwit_block_lem header coinbase_tx template fits =
    let count : u64 (length template.transactions + 1) ≡ length template.transactions + 1 =
      omega arith in
    rw (count, append_transactions_lem _ template.transactions)
      (block_hex-behind header (length template.transactions + 1)
        (with_commitment_witness coinbase_tx template) (transaction_bytes template.transactions))
