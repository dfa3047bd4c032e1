-- ===== src/Sv2/Encode.antt =====
-- The messages of pkg/stratumv2/messages.go that the server sends: the encoders. A buffer is made
-- of zeros, and each field is copied to its offset.
use forgenx_engine.Prelude.{ℕ, ◌+◌, List, Result, ok, ◌>>=◌, length}
use forgenx_engine.Prelude.Bytes.{zeros, copy_at, le16, le32, le64}
use forgenx_engine.Sv2.Wire.{WireError, encode_str0_255, encode_b0_32, encode_u256}

-- putU16LE, putU32LE and putU64LE of codec.go.
unfoldable pub put_u16_le : List ℕ → ℕ → ℕ → List ℕ
put_u16_le buf offset v = copy_at buf offset (le16 v)

unfoldable pub put_u32_le : List ℕ → ℕ → ℕ → List ℕ
put_u32_le buf offset v = copy_at buf offset (le32 v)

unfoldable pub put_u64_le : List ℕ → ℕ → ℕ → List ℕ
put_u64_le buf offset v = copy_at buf offset (le64 v)

unfoldable pub encode_setup_connection_success : (used_version flags : ℕ) → List ℕ
encode_setup_connection_success used_version flags =
    put_u32_le (put_u16_le (zeros 6) 0 used_version) 2 flags

unfoldable pub encode_setup_connection_error : (flags : ℕ) → List ℕ → Result WireError (List ℕ)
encode_setup_connection_error flags err_code = do
  code_bytes ← encode_str0_255 err_code
  ok (copy_at (put_u32_le (zeros (4 + length code_bytes)) 0 flags) 4 code_bytes)

unfoldable pub encode_open_standard_mining_channel_success :
    (request_id channel_id : ℕ)
    → (target_bytes extranonce_prefix : List ℕ) → (group_channel_id : ℕ) → Result WireError (List ℕ)
encode_open_standard_mining_channel_success request_id channel_id target_bytes extranonce_prefix
      group_channel_id =
    do
      target_enc ← encode_u256 target_bytes
      prefix_enc ← encode_b0_32 extranonce_prefix
      let b₁ = zeros (4 + 4 + length target_enc + length prefix_enc + 4)
      let b₂ = put_u32_le b₁ 0 request_id
      let b₃ = put_u32_le b₂ 4 channel_id
      let b₄ = copy_at b₃ 8 target_enc
      let off = 8 + length target_enc
      let b₅ = copy_at b₄ off prefix_enc
      ok (put_u32_le b₅ (off + length prefix_enc) group_channel_id)

unfoldable pub encode_open_standard_mining_channel_error :
    (request_id : ℕ) → List ℕ → Result WireError (List ℕ)
encode_open_standard_mining_channel_error request_id err_code = do
  code_bytes ← encode_str0_255 err_code
  ok (copy_at (put_u32_le (zeros (4 + length code_bytes)) 0 request_id) 4 code_bytes)

unfoldable pub encode_open_extended_mining_channel_success :
    (request_id channel_id : ℕ)
    → (target_bytes : List ℕ) → (extranonce_size : ℕ) → (extranonce_prefix : List ℕ)
    → (group_channel_id : ℕ) → Result WireError (List ℕ)
encode_open_extended_mining_channel_success request_id channel_id target_bytes extranonce_size
      extranonce_prefix group_channel_id =
    do
      target_enc ← encode_u256 target_bytes
      prefix_enc ← encode_b0_32 extranonce_prefix
      let b₁ = zeros (4 + 4 + length target_enc + 2 + length prefix_enc + 4)
      let b₂ = put_u32_le b₁ 0 request_id
      let b₃ = put_u32_le b₂ 4 channel_id
      let b₄ = copy_at b₃ 8 target_enc
      let off = 8 + length target_enc
      let b₅ = put_u16_le b₄ off extranonce_size
      let off₁ = off + 2
      let b₆ = copy_at b₅ off₁ prefix_enc
      ok (put_u32_le b₆ (off₁ + length prefix_enc) group_channel_id)

unfoldable pub encode_open_extended_mining_channel_error :
    (request_id : ℕ) → List ℕ → Result WireError (List ℕ)
encode_open_extended_mining_channel_error = encode_open_standard_mining_channel_error

unfoldable pub encode_set_target : (channel_id : ℕ) → List ℕ → Result WireError (List ℕ)
encode_set_target channel_id target_bytes = do
  target_enc ← encode_u256 target_bytes
  ok (copy_at (put_u32_le (zeros (4 + length target_enc)) 0 channel_id) 4 target_enc)

-- The hash is an array of 32 bytes.
unfoldable pub encode_set_new_prev_hash :
    (channel_id job_id : ℕ) → List ℕ → (min_ntime n_bits : ℕ) → List ℕ
encode_set_new_prev_hash channel_id job_id prev_hash min_ntime n_bits =
    let b₁ = put_u32_le (zeros 48) 0 channel_id in
    let b₂ = put_u32_le b₁ 4 job_id in
    let b₃ = copy_at b₂ 8 prev_hash in
    let b₄ = put_u32_le b₃ 40 min_ntime in put_u32_le b₄ 44 n_bits

unfoldable pub encode_submit_shares_success :
    (channel_id last_seq_num new_submits_accepted new_shares_sum_diff : ℕ) → List ℕ
encode_submit_shares_success channel_id last_seq_num new_submits_accepted new_shares_sum_diff =
    let b₁ = put_u32_le (zeros 20) 0 channel_id in
    let b₂ = put_u32_le b₁ 4 last_seq_num in
    let b₃ = put_u32_le b₂ 8 new_submits_accepted in put_u64_le b₃ 12 new_shares_sum_diff

unfoldable pub encode_submit_shares_error :
    (channel_id seq_num : ℕ) → List ℕ → Result WireError (List ℕ)
encode_submit_shares_error channel_id seq_num err_code = do
  code_bytes ← encode_str0_255 err_code
  let b₁ = put_u32_le (zeros (4 + 4 + length code_bytes)) 0 channel_id
  let b₂ = put_u32_le b₁ 4 seq_num
  ok (copy_at b₂ 8 code_bytes)
