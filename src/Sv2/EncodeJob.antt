-- ===== src/Sv2/EncodeJob.antt =====
-- EncodeNewMiningJob and EncodeNewExtendedMiningJob of pkg/stratumv2/messages.go.
use forgenx_engine.Prelude.{ℕ, ◌+◌, List, [], ◌∷◌, Bool, Result, ok, ◌>>=◌, if◌then◌else◌, length}
use forgenx_engine.Prelude.Bytes.{zeros, copy_at}
use forgenx_engine.Sv2.Wire.{WireError, encode_b0_64k, encode_seq_u256}
use forgenx_engine.Sv2.Encode.{put_u32_le}

-- OPTION[u32] at an offset: the flag, then the value if it is set; the new buffer and offset.
unfoldable pub put_option : List ℕ → ℕ → Bool → ℕ → List ℕ × ℕ
put_option b off min_ntime_set min_ntime =
    if min_ntime_set
    then (put_u32_le (copy_at b off (1 ∷ [])) (off + 1) min_ntime, off + 1 + 4)
    else (copy_at b off (0 ∷ []), off + 1)

unfoldable pub option_len : Bool → ℕ
option_len min_ntime_set = if min_ntime_set then 1 + 4 else 1

-- The Merkle root is an array of 32 bytes.
unfoldable pub encode_new_mining_job :
    (channel_id job_id : ℕ) (min_ntime_set : Bool) (min_ntime version : ℕ) → List ℕ → List ℕ
unfolding put_option option_len
encode_new_mining_job channel_id job_id min_ntime_set min_ntime version merkle_root =
    let b₁ = zeros (4 + 4 + option_len min_ntime_set + 4 + 32) in
    let b₂ = put_u32_le b₁ 0 channel_id in
    let b₃ = put_u32_le b₂ 4 job_id in
    let (b₄, off) = put_option b₃ 8 min_ntime_set min_ntime in
    let b₅ = put_u32_le b₄ off version in copy_at b₅ (off + 4) merkle_root

unfoldable pub encode_new_extended_mining_job :
    (channel_id job_id : ℕ) (min_ntime_set : Bool) (min_ntime version : ℕ)
    → (version_rolling_allowed : Bool) → (merkle_path : List (List ℕ))
    → (coinbase_tx_prefix coinbase_tx_suffix : List ℕ) → Result WireError (List ℕ)
unfolding put_option option_len
encode_new_extended_mining_job channel_id job_id min_ntime_set min_ntime version
      version_rolling_allowed merkle_path coinbase_tx_prefix coinbase_tx_suffix =
    do
      let merkle_enc = encode_seq_u256 merkle_path
      prefix_enc ← encode_b0_64k coinbase_tx_prefix
      suffix_enc ← encode_b0_64k coinbase_tx_suffix
      let size =
          4
          + 4
          + option_len min_ntime_set
          + 4
          + 1
          + length merkle_enc
          + length prefix_enc
          + length suffix_enc
      let b₁ = zeros size
      let b₂ = put_u32_le b₁ 0 channel_id
      let b₃ = put_u32_le b₂ 4 job_id
      let (b₄, off) = put_option b₃ 8 min_ntime_set min_ntime
      let b₅ = put_u32_le b₄ off version
      let off₁ = off + 4
      let b₆ = copy_at b₅ off₁ ((if version_rolling_allowed then 1 else 0) ∷ [])
      let off₂ = off₁ + 1
      let b₇ = copy_at b₆ off₂ merkle_enc
      let off₃ = off₂ + length merkle_enc
      let b₈ = copy_at b₇ off₃ prefix_enc
      let off₄ = off₃ + length prefix_enc
      ok (copy_at b₈ off₄ suffix_enc)
