-- ===== src/Coinbase/Tests.antt =====
-- Runs of pkg/coinbase at concrete inputs.
use forgenx_engine.Prelude.{
  ◌≤◌, ℕ, ◌+◌, ◌<◌, ◌≡◌, List, [], ◌∷◌, ◌++◌, arith, length, true, some, ◌⊎◌,
}
use forgenx_engine.Prelude.Hex.{hex_encode}
use forgenx_engine.Prelude.Int.{pos}
use forgenx_engine.Coinbase.Script.{serialize_var_int, serialize_height, high_bit_set, height_bytes}
use forgenx_engine.Coinbase.VarInt.{read_var_int, read_var_int-serialize_var_int}
use forgenx_engine.Coinbase.Height.{IsScriptNumber, serialize_height-IsScriptNumber}
use forgenx_engine.Coinbase.Builder.{
  CoinbaseOutput, build_coinbase_parts, assemble_coinbase, add_witness_data,
}
use forgenx_engine.Coinbase.Parse.{read_tx}
use forgenx_engine.Coinbase.Layout.{
  IsBuildable, script_sig_of, coinbase_tx, read_tx-assemble_coinbase,
}
use forgenx_engine.Coinbase.Witness.{Parts, witness_stack, add_witness_data_lem}

abbrev text : List ℕ
text = b'/' ∷ b'F' ∷ b'/' ∷ []

abbrev nonce₁ : List ℕ
nonce₁ = 1 ∷ 2 ∷ 3 ∷ 4 ∷ []

abbrev nonce₂ : List ℕ
nonce₂ = 5 ∷ 6 ∷ 7 ∷ 8 ∷ []

abbrev outputs : List CoinbaseOutput
outputs = (record { value = pos 312_500_000; script = 0 ∷ 1 ∷ 2 ∷ [] }) ∷ []

buildable : IsBuildable (pos 840_000) text nonce₁ nonce₂ outputs
unfolding script_sig_of serialize_height high_bit_set height_bytes
buildable = record {
  text_bytes = omega arith;
  en1_bytes = omega arith;
  en2_bytes = omega arith;
  script_bytes = (omega arith, tt);
  script_sig_fits = omega arith;
  count_fits = omega arith;
  scripts_fit = (omega arith, tt);
}

read_tx-assemble_coinbase_example :
    let (coinb1, coinb2) = build_coinbase_parts (pos 840_000) text 4 4 outputs true in
    (tx : List ℕ) × (assemble_coinbase coinb1 (hex_encode nonce₁) (hex_encode nonce₂) coinb2
      ≡ some tx)
    × (read_tx tx ≡ some (coinbase_tx (pos 840_000) text nonce₁ nonce₂ outputs, []))
read_tx-assemble_coinbase_example =
    read_tx-assemble_coinbase (pos 840_000) text nonce₁ nonce₂ outputs true buildable

serialize_height-IsScriptNumber_example :
    (bs : List ℕ) × (serialize_height (pos 840_000) ≡ length bs ∷ bs) × IsScriptNumber 840_000 bs
serialize_height-IsScriptNumber_example =
    serialize_height-IsScriptNumber 840_000 (omega arith) (omega arith)

read_var_int-serialize_var_int_example :
    read_var_int (serialize_var_int 70_000 ++ 9 ∷ []) ≡ (70_000, length (serialize_var_int 70_000))
read_var_int-serialize_var_int_example =
    read_var_int-serialize_var_int 70_000 (9 ∷ []) (omega arith)

abbrev twelve : List ℕ
twelve = 1 ∷ 0 ∷ 0 ∷ 0 ∷ 7 ∷ 8 ∷ 9 ∷ 10 ∷ 0 ∷ 0 ∷ 0 ∷ 0 ∷ []

add_witness_data_example :
    ((length twelve < 10) × (add_witness_data twelve ≡ twelve))
    ⊎ ((10 ≤ length twelve)
        × (p : Parts twelve) × (add_witness_data twelve
            ≡ p.version ++ (0x00 ∷ 0x01 ∷ (p.body ++ (witness_stack ++ p.locktime))))
        × (length (add_witness_data twelve) ≡ length twelve + 36))
add_witness_data_example = add_witness_data_lem twelve
