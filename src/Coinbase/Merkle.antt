-- ===== src/Coinbase/Merkle.antt =====
-- The Merkle roots of pkg/coinbase/builder.go. SHA-256 is the standard library's: a parameter.
use forgenx_engine.Prelude.{
  ℕ, zero, suc, ◌-◌, ◌%◌, ◌≡◌, List, [], ◌∷◌, ◌++◌, ltb, ◌==◌, if◌then◌else◌, length, get_or, take,
}
use forgenx_engine.Prelude.Bytes.{zeros, copy_at, IsBytes}
use forgenx_engine.Coinbase.Script.{double_sha256}

-- `sha256.Sum256`: any 32 bytes for each input.
pub record Sha256 : Type 0 where
  pub sum : List ℕ → List ℕ
  pub length_sum : (payload : List ℕ) → length (sum payload) ≡ 32
  pub bytes_sum : (payload : List ℕ) → IsBytes (sum payload)

-- `copy(result, h)` into 32 zero bytes.
unfoldable pub to_hash : List ℕ → List ℕ
to_hash h = copy_at (zeros 32) 0 h

-- `copy(combined[:32], a)` and `copy(combined[32:], b)` into 64 zero bytes.
unfoldable pub combine : List ℕ → List ℕ → List ℕ
combine a b =
    let combined = zeros 64 in
    let combined' = copy_at combined 0 (take 32 a) in copy_at combined' 32 (take 32 b)

module _ (sha : Sha256) where
  unfoldable pub hash_pair : List ℕ → List ℕ → List ℕ
  hash_pair a b = double_sha256 sha.sum (combine a b)

  -- The inner loop of MerkleRoot, over a list of even length.
  unfoldable pub pair_up : List (List ℕ) → List (List ℕ)
  pair_up [] = []
  pair_up (a ∷ []) = []
  pair_up (a ∷ b ∷ hashes) = hash_pair a b ∷ pair_up hashes

  -- `hashes = append(hashes, hashes[len(hashes)-1])` on an odd count.
  unfoldable pub even_out : List (List ℕ) → List (List ℕ)
  even_out hashes =
      if length hashes % 2 == 0 then hashes else hashes ++ get_or hashes (length hashes - 1) [] ∷ []

  -- `for len(hashes) > 1`, on fuel.
  unfoldable pub merkle_loop : ℕ → List (List ℕ) → List (List ℕ)
  merkle_loop zero hashes = hashes
  merkle_loop (suc fuel) hashes =
      let rest = merkle_loop fuel (pair_up (even_out hashes)) in
      if ltb 1 (length hashes) then rest else hashes

  -- The list at least halves, so its length is fuel enough.
  unfoldable pub merkle_root : List (List ℕ) → List ℕ
  merkle_root [] = zeros 32
  merkle_root (h ∷ []) = to_hash h
  merkle_root (h ∷ h' ∷ hashes) =
      get_or (merkle_loop (length (h ∷ h' ∷ hashes)) (h ∷ h' ∷ hashes)) 0 []

  unfoldable pub fold_branches : List ℕ → List (List ℕ) → List ℕ
  fold_branches result [] = result
  fold_branches result (branch ∷ branches) = fold_branches (hash_pair result branch) branches

  unfoldable pub compute_merkle_root_from_branches : List ℕ → List (List ℕ) → List ℕ
  compute_merkle_root_from_branches coinbase_hash branches =
      fold_branches (to_hash coinbase_hash) branches
