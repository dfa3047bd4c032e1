-- ===== src/Coinbase/Layout.antt =====
-- pkg/coinbase/builder.go: the layout of the coinbase.
use forgenx_engine.Prelude.{
  ℕ, ◌<◌, ◌^◌, ◌+◌, ◌≡◌, refl, List, [], ◌∷◌, ◌++◌, append_assoc, some, length, length-append,
  arith, Bool, map,
}
use forgenx_engine.Prelude.Bytes.{u64, zeros, IsBytes, IsBytes-append, All, le64}
use forgenx_engine.Prelude.Hex.{hex_encode, hex_decode-hex_encode_append, hex_decode-hex_encode}
use forgenx_engine.Prelude.Int.{ℤ}
use forgenx_engine.Coinbase.Script.{
  serialize_var_int, serialize_height, put_uint32_le, put_uint64_le,
}
use forgenx_engine.Coinbase.Builder.{
  CoinbaseOutput, uint64_of, serialize_outputs, coinb1_bytes, coinb2_bytes, build_coinbase_parts,
  assemble_coinbase,
}
use forgenx_engine.Coinbase.VarInt.{read_var_int-serialize_var_int, serialize_var_int-IsBytes}
use forgenx_engine.Coinbase.Height.{serialize_height-IsBytes}
use forgenx_engine.Coinbase.Parse.{
  split, split-append, read_script-serialize, TxOutput, read_outputs, read_output_list, Tx, read_tx,
}

-- An output as a reader of the transaction sees it.
pub output_of : CoinbaseOutput → TxOutput
output_of out = record { amount = put_uint64_le (uint64_of out.value); script = out.script }

abbrev pub ScriptFits : CoinbaseOutput → Type 0
ScriptFits out = length out.script < 2 ^ 64

read_outputs-serialize :
    (outputs : List CoinbaseOutput) (rest : List ℕ)
    → All ScriptFits outputs
    → read_outputs (length outputs) (serialize_outputs outputs ++ rest)
      ≡ some (map output_of outputs, rest)
unfolding read_outputs serialize_outputs output_of split put_uint64_le
read_outputs-serialize [] rest h = refl
read_outputs-serialize (out ∷ outputs) rest h = rw (
  append_assoc (serialize_var_int (length out.script)) (out.script ++ serialize_outputs outputs)
      rest,
  append_assoc out.script (serialize_outputs outputs) rest,
  read_script-serialize out.script (serialize_outputs outputs ++ rest) h.0,
  read_outputs-serialize outputs rest h.1,
)

read_output_list-serialize :
    (outputs : List CoinbaseOutput) (rest : List ℕ)
    → length outputs < 2 ^ 64
    → All ScriptFits outputs
    → read_output_list (serialize_var_int (length outputs) ++ (serialize_outputs outputs ++ rest))
      ≡ some (map output_of outputs, rest)
unfolding read_output_list
read_output_list-serialize outputs rest h all =
    rw
      (
        read_var_int-serialize_var_int (length outputs) (serialize_outputs outputs ++ rest) h,
        split-append,
      )
      (read_outputs-serialize outputs rest all)

-- What stands before the script of the input: version 1, one input, no previous transaction.
header : List ℕ → List ℕ
header rest = put_uint32_le 1 ++ (0x01 ∷ (zeros 32 ++ (0xff ∷ 0xff ∷ 0xff ∷ 0xff ∷ rest)))

footer : List CoinbaseOutput → List ℕ
footer outputs =
    serialize_var_int (length outputs) ++ (serialize_outputs outputs ++ 0 ∷ 0 ∷ 0 ∷ 0 ∷ [])

-- The script of the input: the height, the pool's text, and the two extranonces.
unfoldable pub script_sig_of : ℤ → (text en1 en2 : List ℕ) → List ℕ
script_sig_of height text en1 en2 = serialize_height height ++ (text ++ (en1 ++ en2))

length-script_sig_of :
    (height : ℤ) (text en1 en2 : List ℕ)
    → length (script_sig_of height text en1 en2)
      ≡ length (serialize_height height) + length text + (length en1 + length en2)
unfolding script_sig_of
length-script_sig_of height text en1 en2 = omega (
  arith,
  length-append (serialize_height height) (text ++ (en1 ++ en2)),
  length-append text (en1 ++ en2),
  length-append en1 en2,
)

-- The transaction that the layout stands for.
pub coinbase_tx : ℤ → (text en1 en2 : List ℕ) → List CoinbaseOutput → Tx
coinbase_tx height text en1 en2 outputs = record {
  version = 1 ∷ 0 ∷ 0 ∷ 0 ∷ [];
  input_count = 1 ∷ [];
  prev_tx = zeros 32;
  prev_index = 0xff ∷ 0xff ∷ 0xff ∷ 0xff ∷ [];
  script_sig = script_sig_of height text en1 en2;
  sequence = 0xff ∷ 0xff ∷ 0xff ∷ 0xff ∷ [];
  outputs = map output_of outputs;
  locktime = 0 ∷ 0 ∷ 0 ∷ 0 ∷ [];
}

read_tx-layout :
    (height : ℤ) (text en1 en2 : List ℕ) (outputs : List CoinbaseOutput)
    → length (script_sig_of height text en1 en2) < 2 ^ 64
    → length outputs < 2 ^ 64
    → All ScriptFits outputs
    → read_tx (
        header (
          serialize_var_int (length (script_sig_of height text en1 en2))
          ++ (script_sig_of height text en1 en2 ++ (0xff ∷ 0xff ∷ 0xff ∷ 0xff ∷ footer outputs))))
      ≡ some (coinbase_tx height text en1 en2 outputs, [])
unfolding read_tx header footer coinbase_tx split put_uint32_le
read_tx-layout height text en1 en2 outputs fits count scripts = rw (
  read_script-serialize (script_sig_of height text en1 en2) _ fits,
  read_output_list-serialize outputs (0 ∷ 0 ∷ 0 ∷ 0 ∷ []) count scripts,
)

coinb1-append :
    (height : ℤ) (text en1 en2 rest : List ℕ)
    → length (script_sig_of height text en1 en2) < 2 ^ 64
    → coinb1_bytes height text (length en1) (length en2) ++ (en1 ++ (en2 ++ rest))
      ≡ header (
          serialize_var_int (length (script_sig_of height text en1 en2))
          ++ (script_sig_of height text en1 en2 ++ rest))
unfolding coinb1_bytes header put_uint32_le
coinb1-append height text en1 en2 rest fits =
    let len : u64 (length (serialize_height height) + length text + (length en1 + length en2))
        ≡ length (script_sig_of height text en1 en2) =
      omega (arith, length-script_sig_of height text en1 en2) in
    rw len (unfold script_sig_of in simp append_assoc)

coinb1_bytes-IsBytes :
    (height : ℤ) (text : List ℕ) (n1 n2 : ℕ)
    → IsBytes text
    → IsBytes (coinb1_bytes height text n1 n2)
unfolding header coinb1_bytes put_uint32_le
coinb1_bytes-IsBytes height text n1 n2 h = IsBytes-append (header []) _ (omega arith) (
    IsBytes-append (serialize_var_int _) _ (serialize_var_int-IsBytes _)
      (IsBytes-append (serialize_height height) text (serialize_height-IsBytes height) h))

serialize_outputs-IsBytes :
    (outputs : List CoinbaseOutput)
    → All (λ out. IsBytes out.script) outputs
    → IsBytes (serialize_outputs outputs)
unfolding serialize_outputs put_uint64_le
serialize_outputs-IsBytes [] h = tt
serialize_outputs-IsBytes (out ∷ outputs) h =
    IsBytes-append (le64 (uint64_of out.value)) _ (omega arith) (
      IsBytes-append (serialize_var_int (length out.script)) _ (serialize_var_int-IsBytes _)
        (IsBytes-append out.script _ h.0 (serialize_outputs-IsBytes outputs h.1)))

coinb2_bytes-IsBytes :
    (outputs : List CoinbaseOutput)
    → All (λ out. IsBytes out.script) outputs
    → IsBytes (coinb2_bytes outputs)
unfolding coinb2_bytes
coinb2_bytes-IsBytes outputs h = IsBytes-append (0xff ∷ 0xff ∷ 0xff ∷ 0xff ∷ []) _ (omega arith) (
    IsBytes-append (serialize_var_int (length outputs)) _ (serialize_var_int-IsBytes _) (
      IsBytes-append (serialize_outputs outputs) _ (serialize_outputs-IsBytes outputs h)
        (omega arith)))

-- The hypotheses under which Go's lengths and bytes are what the model takes them for.
pub record IsBuildable (height : ℤ) (text en1 en2 : List ℕ) (outputs : List CoinbaseOutput)
    : Type 0 where
  pub text_bytes : IsBytes text
  pub en1_bytes : IsBytes en1
  pub en2_bytes : IsBytes en2
  pub script_bytes : All (λ out. IsBytes out.script) outputs
  pub script_sig_fits : length (script_sig_of height text en1 en2) < 2 ^ 64
  pub count_fits : length outputs < 2 ^ 64
  pub scripts_fit : All ScriptFits outputs

assembled : ℤ → (text en1 en2 : List ℕ) → List CoinbaseOutput → List ℕ
assembled height text en1 en2 outputs =
    coinb1_bytes height text (length en1) (length en2) ++ (en1 ++ (en2 ++ coinb2_bytes outputs))

assemble_coinbase-build_coinbase_parts :
    (height : ℤ) (text en1 en2 : List ℕ) (outputs : List CoinbaseOutput) (segwit : Bool)
    → IsBuildable height text en1 en2 outputs
    → let (coinb1, coinb2) =
        build_coinbase_parts height text (length en1) (length en2) outputs segwit in
      assemble_coinbase coinb1 (hex_encode en1) (hex_encode en2) coinb2
      ≡ some (assembled height text en1 en2 outputs)
unfolding build_coinbase_parts assemble_coinbase assembled
assemble_coinbase-build_coinbase_parts height text en1 en2 outputs segwit b =
    hex_decode-hex_encode_append _ _ _ (coinb1_bytes-IsBytes height text _ _ b.text_bytes) (
      hex_decode-hex_encode_append en1 _ _ b.en1_bytes (
        hex_decode-hex_encode_append en2 _ _ b.en2_bytes
          (hex_decode-hex_encode _ (coinb2_bytes-IsBytes outputs b.script_bytes))))

-- For texts, extranonces and scripts of bytes, and lengths and counts below 2^64 (IsBuildable), the
-- two halves of build_coinbase_parts, put by assemble_coinbase round two extranonces of the
-- announced sizes, decode to bytes that a reader of transactions takes for exactly one
-- transaction, with nothing left over: its input's script is the height, the pool's text and the
-- extranonces, and its outputs are those given, in order.
pub read_tx-assemble_coinbase :
    (height : ℤ) (text en1 en2 : List ℕ) (outputs : List CoinbaseOutput) (segwit : Bool)
    → IsBuildable height text en1 en2 outputs
    → let (coinb1, coinb2) =
        build_coinbase_parts height text (length en1) (length en2) outputs segwit in
      (tx : List ℕ) × (assemble_coinbase coinb1 (hex_encode en1) (hex_encode en2) coinb2 ≡ some tx)
      × (read_tx tx ≡ some (coinbase_tx height text en1 en2 outputs, []))
unfolding assembled
read_tx-assemble_coinbase height text en1 en2 outputs segwit b = (
  assembled height text en1 en2 outputs,
  assemble_coinbase-build_coinbase_parts height text en1 en2 outputs segwit b,
  rw (coinb1-append height text en1 en2 (coinb2_bytes outputs) b.script_sig_fits) (
      unfold coinb2_bytes footer in
      read_tx-layout height text en1 en2 outputs b.script_sig_fits b.count_fits b.scripts_fit),
)
