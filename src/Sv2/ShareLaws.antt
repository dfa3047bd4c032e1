-- ===== src/Sv2/ShareLaws.antt =====
-- ValidateShare of pkg/stratumv2/pow.go.
use forgenx_engine.Prelude.{ℕ, ◌^◌, ◌<◌, ◌≡◌, refl, List, some, ok, leb, length}
use forgenx_engine.Prelude.Bytes.{from_le}
use forgenx_engine.Prelude.Float.{Floats}
use forgenx_engine.Coinbase.Merkle.{Sha256}
use forgenx_engine.Sv2.Pow.{build_header, hash_block_header}
use forgenx_engine.Sv2.Target.{
  ShareResult, n_bits_to_target, target_to_bytes, bytes_to_target, share_result, validate_share,
}
use forgenx_engine.Sv2.ByteLaws.{set_bytes-reverse}
use forgenx_engine.Sv2.TargetLaws.{bytes_to_target-target_to_bytes}

module _ (fl : Floats) (sha : Sha256) where
  -- A share is checked against any pool target below 2^256 that TargetToBytes wrote: it meets the
  -- pool target or the block target exactly if the double hash of its header, read as a
  -- little-endian number, is at most that target.
  pub validate_share_lem :
      (version : ℕ) (prev_hash merkle_root : List ℕ) (n_time n_bits nonce t : ℕ) (b : List ℕ)
      (network_n_bits : ℕ)
      → t < 2 ^ 256
      → target_to_bytes t ≡ some b
      → (r : ShareResult fl) × (validate_share fl sha version prev_hash merkle_root n_time n_bits
            nonce b network_n_bits
          ≡ ok r)
        × (r.hash
            ≡ hash_block_header sha
                (build_header version prev_hash merkle_root n_time n_bits nonce))
        × (r.meets_pool ≡ leb (from_le r.hash) t)
        × (r.meets_block ≡ leb (from_le r.hash) (n_bits_to_target network_n_bits))
  unfolding validate_share share_result
  validate_share_lem version prev_hash merkle_root n_time n_bits nonce t b network_n_bits small e =
      let hash =
        hash_block_header sha (build_header version prev_hash merkle_root n_time n_bits nonce) in
      let (b', e', size, bytes, value) = bytes_to_target-target_to_bytes t small in
      let same : b' ≡ b = cc in
      let size' : length b ≡ 32 = rw same at size in
      let value' : bytes_to_target b ≡ t = rw same at value in
      (
        share_result fl sha hash b network_n_bits,
        rw size',
        refl,
        rw (value', set_bytes-reverse hash),
        rw (set_bytes-reverse hash),
      )
