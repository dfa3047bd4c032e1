-- ===== src/Engine/Branches.antt =====
-- computeStratumMerkleBranches of pkg/engine/jobmanager.go: the sibling hashes that a miner needs
-- to compute the Merkle root from the hash of its own coinbase.
use forgenx_engine.Prelude.{ℕ, zero, suc, List, [], ◌∷◌, ◌++◌, length}
use forgenx_engine.Prelude.Bytes.{zeros}
use forgenx_engine.Coinbase.Script.{double_sha256}
use forgenx_engine.Coinbase.Merkle.{Sha256}

module _ (sha : Sha256) where
  -- The inner loop: pairs by index, and a last one alone is paired with itself.
  unfoldable pub next_level : List (List ℕ) → List (List ℕ)
  next_level [] = []
  next_level (left ∷ []) = double_sha256 sha.sum (left ++ left) ∷ []
  next_level (left ∷ right ∷ level) = double_sha256 sha.sum (left ++ right) ∷ next_level level

  -- `for len(currentLevel) > 1`, on fuel: each round takes the hash at index 1.
  unfoldable pub branch_loop : ℕ → List (List ℕ) → List (List ℕ)
  branch_loop zero level = []
  branch_loop (suc fuel) [] = []
  branch_loop (suc fuel) (h ∷ []) = []
  branch_loop (suc fuel) (h ∷ branch ∷ level) =
      branch ∷ branch_loop fuel (next_level (h ∷ branch ∷ level))

  unfoldable pub compute_stratum_merkle_branches : List (List ℕ) → List (List ℕ)
  compute_stratum_merkle_branches [] = []
  compute_stratum_merkle_branches (tx ∷ txs) = branch_loop (length (tx ∷ txs)) (zeros 32 ∷ tx ∷ txs)
