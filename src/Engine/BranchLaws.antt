-- ===== src/Engine/BranchLaws.antt =====
-- pkg/engine/jobmanager.go, pkg/stratumv2/pow.go and pkg/coinbase: Merkle branches and roots.
use forgenx_engine.Prelude.{
  ℕ, zero, suc, ◌-◌, ◌%◌, ◌≤◌, ◌≡◌, refl, sym, ap, ap₂, ◌∙◌, List, [], ◌∷◌, ◌++◌, arith, length,
  lt→ltb, ◌==◌, take, append-nil, Bool-cases, inl, inr,
}
use forgenx_engine.Prelude.Bytes.{zeros, copy_at, copy_at-field, All, take-length_append}
use forgenx_engine.Coinbase.Script.{double_sha256}
use forgenx_engine.Coinbase.Merkle.{
  Sha256, to_hash, combine, hash_pair, pair_up, even_out, merkle_loop, merkle_root, fold_branches,
  compute_merkle_root_from_branches,
}
use forgenx_engine.Engine.Branches.{next_level, branch_loop, compute_stratum_merkle_branches}
use forgenx_engine.Sv2.Pow.{merkle_hash_pair, compute_merkle_root}

abbrev pub IsHash : List ℕ → Type 0
IsHash h = length h ≡ 32

take_self : (h : List ℕ) → IsHash h → take 32 h ≡ h
take_self h p = rw (append-nil, p) at (take-length_append h [])

pub to_hash-IsHash : (h : List ℕ) → IsHash h → to_hash h ≡ h
unfolding to_hash
to_hash-IsHash h p = copy_at-field [] h 0 32 0 refl (omega (arith, p)) ∙ append-nil h

written : (a b : List ℕ) → IsHash a → IsHash b → copy_at (copy_at (zeros 64) 0 a) 32 b ≡ a ++ b
written a b p q =
    rw (copy_at-field [] a 0 64 32 refl (omega (arith, p)))
      (copy_at-field a b 32 32 0 (sym p) (omega (arith, q)) ∙ append-nil (a ++ b))

combine-IsHash : (a b : List ℕ) → IsHash a → IsHash b → combine a b ≡ a ++ b
unfolding combine
combine-IsHash a b p q = rw (take_self a p, take_self b q) (written a b p q)

module _ (sha : Sha256) where
  double_sha256-IsHash : (x : List ℕ) → IsHash (double_sha256 sha.sum x)
  unfolding double_sha256
  double_sha256-IsHash x = sha.length_sum (sha.sum x)

  hash_pair-IsHash :
      (a b : List ℕ) → IsHash a → IsHash b → hash_pair sha a b ≡ double_sha256 sha.sum (a ++ b)
  unfolding hash_pair
  hash_pair-IsHash a b p q = rw (combine-IsHash a b p q)

  next_level-IsHash : (level : List (List ℕ)) → All IsHash level → All IsHash (next_level sha level)
  unfolding next_level
  next_level-IsHash [] h = tt
  next_level-IsHash (a ∷ []) h = (double_sha256-IsHash (a ++ a), tt)
  next_level-IsHash (a ∷ b ∷ level) h =
      (double_sha256-IsHash (a ++ b), next_level-IsHash level h.1.1)

  length-next_level : (level : List (List ℕ)) → length (next_level sha level) ≤ length level
  unfolding next_level
  length-next_level [] = omega arith
  length-next_level (a ∷ []) = omega arith
  length-next_level (a ∷ b ∷ level) = omega (arith, length-next_level level)

  even_out_pair :
      (a b : List ℕ) (level : List (List ℕ))
      → even_out sha (a ∷ b ∷ level) ≡ a ∷ b ∷ even_out sha level
  unfolding even_out
  even_out_pair a b [] = refl
  even_out_pair a b (c ∷ level) =
      let n = length level in
      let parity : suc (suc (suc n)) % 2 ≡ suc n % 2 = omega arith in
      let long : suc (suc (suc n)) - 1 ≡ suc (suc n) = omega arith in
      let short : suc n - 1 ≡ n = omega arith in
      rw (parity, long, short) (elim (Bool-cases (suc n % 2 == 0)) [ inl e ↦ rw e | inr e ↦ rw e ])

  pair_up-even_out :
      (level : List (List ℕ))
      → All IsHash level
      → pair_up sha (even_out sha level) ≡ next_level sha level
  unfolding pair_up next_level
  pair_up-even_out [] h = unfold even_out in refl
  pair_up-even_out (a ∷ []) h = unfold even_out in ap (λ x. x ∷ []) (hash_pair-IsHash a a h.0 h.0)
  pair_up-even_out (a ∷ b ∷ level) h =
      rw (even_out_pair a b level)
        (ap₂ (λ x y. x ∷ y) (hash_pair-IsHash a b h.0 h.1.0) (pair_up-even_out level h.1.1))

  -- The running hash stands at the head of every level; the rest does not depend on it.
  merkle_loop-branch_loop :
      (f g : ℕ) (h p : List ℕ) (level : List (List ℕ))
      → length level ≤ f
      → length level ≤ g
      → All IsHash (h ∷ p ∷ level)
      → merkle_loop sha f (h ∷ level) ≡ fold_branches sha h (branch_loop sha g (p ∷ level)) ∷ []
  unfolding merkle_loop branch_loop fold_branches next_level
  merkle_loop-branch_loop zero zero h p [] lf lg k = refl
  merkle_loop-branch_loop zero (suc g) h p [] lf lg k = refl
  merkle_loop-branch_loop zero g h p (b ∷ level) lf lg k = absurd (omega arith)
  merkle_loop-branch_loop (suc f) zero h p [] lf lg k = refl
  merkle_loop-branch_loop (suc f) (suc g) h p [] lf lg k = refl
  merkle_loop-branch_loop (suc f) zero h p (b ∷ level) lf lg k = absurd (omega arith)
  merkle_loop-branch_loop (suc f) (suc g) h p (b ∷ level) lf lg k =
      let d = double_sha256 sha.sum in
      rw
        (
          lt→ltb 1 (suc (suc (length level))) (omega arith),
          pair_up-even_out (h ∷ b ∷ level) (k.0, k.1.1),
        )
        (merkle_loop-branch_loop f g (d (h ++ b)) (d (p ++ b)) (next_level sha level)
            (omega (arith, length-next_level level)) (omega (arith, length-next_level level))
            (
              double_sha256-IsHash (h ++ b),
              (double_sha256-IsHash (p ++ b), next_level-IsHash level k.1.1.1),
            )
          ∙ ap (λ x. fold_branches sha x (branch_loop sha g (next_level sha (p ∷ b ∷ level))) ∷ [])
              (sym (hash_pair-IsHash h b k.0 k.1.1.0)))

  merkle_hash_pair-IsHash : (a b : List ℕ) → IsHash (merkle_hash_pair sha a b)
  unfolding merkle_hash_pair
  merkle_hash_pair-IsHash a b = sha.length_sum _

  hash_pair-eq-merkle_hash_pair :
      (a b : List ℕ) → IsHash a → IsHash b → hash_pair sha a b ≡ merkle_hash_pair sha a b
  unfolding merkle_hash_pair double_sha256
  hash_pair-eq-merkle_hash_pair a b p q =
      hash_pair-IsHash a b p q ∙ ap (λ x. sha.sum (sha.sum x)) (sym (written a b p q))

  fold_branches-compute_merkle_root :
      (h : List ℕ) (branches : List (List ℕ))
      → IsHash h
      → All IsHash branches
      → fold_branches sha h branches ≡ compute_merkle_root sha h branches
  unfolding fold_branches compute_merkle_root
  fold_branches-compute_merkle_root h [] p k = refl
  fold_branches-compute_merkle_root h (b ∷ branches) p k =
      ap (λ x. fold_branches sha x branches) (hash_pair-eq-merkle_hash_pair h b p k.0)
      ∙ fold_branches-compute_merkle_root (merkle_hash_pair sha h b) branches
          (merkle_hash_pair-IsHash h b) k.1

  branch_loop-IsHash :
      (fuel : ℕ) (level : List (List ℕ))
      → All IsHash level
      → All IsHash (branch_loop sha fuel level)
  unfolding branch_loop
  branch_loop-IsHash zero level k = tt
  branch_loop-IsHash (suc fuel) [] k = tt
  branch_loop-IsHash (suc fuel) (h ∷ []) k = tt
  branch_loop-IsHash (suc fuel) (h ∷ b ∷ level) k =
      (k.1.0, branch_loop-IsHash fuel _ (next_level-IsHash (h ∷ b ∷ level) k))

  branches-IsHash :
      (txs : List (List ℕ)) → All IsHash txs → All IsHash (compute_stratum_merkle_branches sha txs)
  unfolding compute_stratum_merkle_branches
  branches-IsHash [] k = tt
  branches-IsHash (tx ∷ txs) k = branch_loop-IsHash _ _ (refl, k)

  root-by_folding :
      (h : List ℕ) (txs : List (List ℕ))
      → IsHash h
      → All IsHash txs
      → fold_branches sha h (compute_stratum_merkle_branches sha txs) ≡ merkle_root sha (h ∷ txs)
  unfolding merkle_root compute_stratum_merkle_branches
  root-by_folding h [] p k = unfold fold_branches in sym (to_hash-IsHash h p)
  root-by_folding h (tx ∷ txs) p k = rw (
      merkle_loop-branch_loop (length (h ∷ tx ∷ txs)) (length (tx ∷ txs)) h (zeros 32) (tx ∷ txs)
        (omega arith) (omega arith) (p, (refl, k)))

  -- For 32-byte hashes, the branch that compute_stratum_merkle_branches makes of the other
  -- transactions takes the coinbase's hash to the Merkle root of all of them, both by
  -- compute_merkle_root_from_branches and by Stratum V2's compute_merkle_root.
  pub merkle_root-branches :
      (coinbase_hash : List ℕ) (txs : List (List ℕ))
      → IsHash coinbase_hash
      → All IsHash txs
      → (compute_merkle_root_from_branches sha coinbase_hash
            (compute_stratum_merkle_branches sha txs)
          ≡ merkle_root sha (coinbase_hash ∷ txs))
        × (compute_merkle_root sha coinbase_hash (compute_stratum_merkle_branches sha txs)
            ≡ merkle_root sha (coinbase_hash ∷ txs))
  merkle_root-branches h txs p k =
      let whole = root-by_folding h txs p k in
      (
        unfold compute_merkle_root_from_branches in rw (to_hash-IsHash h p) whole,
        sym (fold_branches-compute_merkle_root h _ p (branches-IsHash txs k)) ∙ whole,
      )
