-- ===== src/Coinbase/Builder.antt =====
-- pkg/coinbase/builder.go: the coinbase transaction in two halves, its assembly, and the witness
-- data of a submitted block. Texts and hex strings are lists of their bytes. The length of a Go
-- slice is below 2^63, so `uint64` of it is that number.
use forgenx_engine.Prelude.{
  ℕ, ◌+◌, ◌-◌, ◌^◌, List, [], ◌∷◌, ◌++◌, Option, Bool, ltb, if◌then◌else◌, length, drop,
}
use forgenx_engine.Prelude.Bytes.{u64, zeros, slice}
use forgenx_engine.Prelude.Hex.{hex_encode, hex_decode}
use forgenx_engine.Prelude.Int.{ℤ, pos, negsuc}
use forgenx_engine.Coinbase.Script.{
  serialize_var_int, serialize_height, put_uint32_le, put_uint64_le,
}

pub record CoinbaseOutput : Type 0 where
  pub value : ℤ  -- int64
  pub script : List ℕ

-- `uint64(v)` of an int64.
abbrev pub uint64_of : ℤ → ℕ
uint64_of (pos n) = u64 n
uint64_of (negsuc n) = 2 ^ 64 - 1 - u64 n

-- The body of the loop over the outputs, appended for each.
unfoldable pub serialize_outputs : List CoinbaseOutput → List ℕ
serialize_outputs [] = []
serialize_outputs (out ∷ outputs) =
    put_uint64_le (uint64_of out.value)
    ++ (serialize_var_int (length out.script) ++ (out.script ++ serialize_outputs outputs))

unfoldable pub coinb1_bytes :
    (height : ℤ) (coinbase_text : List ℕ) (extra_nonce1_size extra_nonce2_size : ℕ) → List ℕ
coinb1_bytes height coinbase_text extra_nonce1_size extra_nonce2_size =
    let height_bytes = serialize_height height in
    let total_extra_nonce_size = extra_nonce1_size + extra_nonce2_size in
    let script_sig_len = length height_bytes + length coinbase_text + total_extra_nonce_size in
    put_uint32_le 1
    ++ (0x01
        ∷ (zeros 32
            ++ (0xff
                ∷ 0xff
                ∷ 0xff
                ∷ 0xff
                ∷ (serialize_var_int (u64 script_sig_len) ++ (height_bytes ++ coinbase_text)))))

unfoldable pub coinb2_bytes : List CoinbaseOutput → List ℕ
coinb2_bytes outputs =
    0xff
    ∷ 0xff
    ∷ 0xff
    ∷ 0xff
    ∷ (serialize_var_int (length outputs)
        ++ (serialize_outputs outputs ++ 0x00 ∷ 0x00 ∷ 0x00 ∷ 0x00 ∷ []))

-- `segwit` is taken and not used, as in the source.
unfoldable pub build_coinbase_parts :
    (height : ℤ) (coinbase_text : List ℕ) (extra_nonce1_size extra_nonce2_size : ℕ)
    → List CoinbaseOutput
    → (segwit : Bool) → List ℕ × List ℕ
unfolding coinb1_bytes coinb2_bytes
build_coinbase_parts height coinbase_text extra_nonce1_size extra_nonce2_size outputs segwit = (
  hex_encode (coinb1_bytes height coinbase_text extra_nonce1_size extra_nonce2_size),
  hex_encode (coinb2_bytes outputs),
)

unfoldable pub assemble_coinbase :
    (coinb1_hex extra_nonce1 extra_nonce2 coinb2_hex : List ℕ) → Option (List ℕ)
assemble_coinbase coinb1_hex extra_nonce1 extra_nonce2 coinb2_hex =
    hex_decode (coinb1_hex ++ (extra_nonce1 ++ (extra_nonce2 ++ coinb2_hex)))

unfoldable pub add_witness_data : List ℕ → List ℕ
add_witness_data cb =
    if ltb (length cb) 10
    then cb
    else slice cb 0 4
      ++ (0x00
          ∷ 0x01
          ∷ (slice cb 4 (length cb - 4) ++ (0x01 ∷ 0x20 ∷ (zeros 32 ++ drop (length cb - 4) cb))))
