-- ===== src/Engine/Tests.antt =====
-- A branch of three transactions beside the coinbase, with a hash that counts its bytes.
use forgenx_engine.Prelude.{ℕ, ◌≡◌, refl, List, [], ◌∷◌, arith, length}
use forgenx_engine.Prelude.Bytes.{u8, zeros}
use forgenx_engine.Coinbase.Merkle.{Sha256, merkle_root, compute_merkle_root_from_branches}
use forgenx_engine.Engine.Branches.{compute_stratum_merkle_branches}
use forgenx_engine.Engine.BranchLaws.{merkle_root-branches}
use forgenx_engine.Sv2.Pow.{compute_merkle_root}

counting : Sha256
counting = record {
  sum = λ payload. u8 (length payload) ∷ zeros 31;
  length_sum = λ payload. refl;
  bytes_sum = λ payload. omega arith;
}

abbrev others : List (List ℕ)
others = (1 ∷ zeros 31) ∷ (2 ∷ zeros 31) ∷ (3 ∷ zeros 31) ∷ []

merkle_root-branches_example :
    (compute_merkle_root_from_branches counting
        (9 ∷ zeros 31)
        (compute_stratum_merkle_branches counting others)
      ≡ merkle_root counting ((9 ∷ zeros 31) ∷ others))
    × (compute_merkle_root counting (9 ∷ zeros 31) (compute_stratum_merkle_branches counting others)
        ≡ merkle_root counting ((9 ∷ zeros 31) ∷ others))
merkle_root-branches_example =
    merkle_root-branches counting (9 ∷ zeros 31) others refl (refl, (refl, (refl, tt)))
