-- ===== src/Sv2/Pow.antt =====
-- pkg/stratumv2/pow.go: block headers, targets as bytes, and the Merkle root of a branch.
use forgenx_engine.Prelude.{ℕ, List, [], ◌∷◌, ◌++◌}
use forgenx_engine.Prelude.Bytes.{zeros, copy_at, le32}
use forgenx_engine.Coinbase.Merkle.{Sha256}

module _ (sha : Sha256) where
  -- Both arguments are arrays of 32 bytes.
  unfoldable pub merkle_hash_pair : List ℕ → List ℕ → List ℕ
  merkle_hash_pair a b =
      let combined = copy_at (copy_at (zeros 64) 0 a) 32 b in sha.sum (sha.sum combined)

  unfoldable pub compute_merkle_root : List ℕ → List (List ℕ) → List ℕ
  compute_merkle_root current [] = current
  compute_merkle_root current (node ∷ branch) =
      compute_merkle_root (merkle_hash_pair current node) branch

  unfoldable pub hash_coinbase_tx : (coinbase1 extranonce1 extranonce2 coinbase2 : List ℕ) → List ℕ
  hash_coinbase_tx coinbase1 extranonce1 extranonce2 coinbase2 =
      sha.sum (sha.sum (coinbase1 ++ (extranonce1 ++ (extranonce2 ++ coinbase2))))

  unfoldable pub hash_block_header : List ℕ → List ℕ
  hash_block_header header = sha.sum (sha.sum header)

-- The hashes are arrays of 32 bytes, the numbers uint32.
unfoldable pub build_header :
    (version : ℕ) (prev_hash merkle_root : List ℕ) (n_time n_bits nonce : ℕ) → List ℕ
build_header version prev_hash merkle_root n_time n_bits nonce =
    let hdr₁ = copy_at (zeros 80) 0 (le32 version) in
    let hdr₂ = copy_at hdr₁ 4 prev_hash in
    let hdr₃ = copy_at hdr₂ 36 merkle_root in
    let hdr₄ = copy_at hdr₃ 68 (le32 n_time) in
    let hdr₅ = copy_at hdr₄ 72 (le32 n_bits) in copy_at hdr₅ 76 (le32 nonce)
