-- ===== src/Engine/Jobs/PruneLaws.antt =====
-- pkg/engine/jobmanager.go: the size of the map of jobs behind pruning.
use forgenx_engine.Prelude.{
  ℕ, zero, suc, ◌≤◌, ◌<◌, ◌≡◌, true, List, [], ◌∷◌, arith, if_both, length, inl, inr, ◌⊎◌,
}
use forgenx_engine.Prelude.Table.{Table, remove, same_text_self}
use forgenx_engine.Coin.Text.{same_text}
use forgenx_engine.Engine.Jobs.{JobData, oldest, prune_loop, prune_jobs}

remove-length : (k : List ℕ) (m : Table ℕ) → length (remove k m) ≤ length m
unfolding remove
remove-length k [] = omega arith
remove-length k ((j, w) ∷ m) = ground (arith, remove-length k m)

abbrev pub HasKey : List ℕ → Table ℕ → Type 0
HasKey k [] = ⊥
HasKey k ((j, w) ∷ m) = (same_text j k ≡ true) ⊎ HasKey k m

remove-shorter : (k : List ℕ) (m : Table ℕ) → HasKey k m → length (remove k m) < length m
unfolding remove
remove-shorter k [] h = elim h [ ]
remove-shorter k ((j, w) ∷ m) (inl e) = rw e (omega (arith, remove-length k m))
remove-shorter k ((j, w) ∷ m) (inr h) = ground (arith, remove-shorter k m h, remove-length k m)

-- The oldest entry is one of those looked through.
pub oldest-HasKey :
    (store : List JobData) (best : List ℕ × ℕ) (jobs : Table ℕ)
    → (same_text (best.0) ((oldest store best jobs).0) ≡ true)
      ⊎ HasKey ((oldest store best jobs).0) jobs
unfolding oldest
oldest-HasKey store best [] = inl (same_text_self (best.0))
oldest-HasKey store best (entry ∷ jobs) =
    if_both
      (λ (picked : List ℕ × ℕ).
        (same_text (best.0) ((oldest store picked jobs).0) ≡ true)
        ⊎ HasKey ((oldest store picked jobs).0) (entry ∷ jobs))
      _ entry best (inr (oldest-HasKey store entry jobs))
      (elim (oldest-HasKey store best jobs) [ inl same ↦ inl same | inr key ↦ inr (inr key) ])

prune_loop-length :
    (fuel : ℕ) (store : List JobData) (max : ℕ) (jobs : Table ℕ)
    → length jobs ≤ fuel
    → length (prune_loop fuel store max jobs) ≤ max
unfolding prune_loop
prune_loop-length zero store max [] h = omega arith
prune_loop-length zero store max (entry ∷ jobs) h = elim h [ ]
prune_loop-length (suc fuel) store max [] h = omega arith
prune_loop-length (suc fuel) store max (entry ∷ jobs) h =
    let fewer =
      remove-shorter ((oldest store entry jobs).0) (entry ∷ jobs)
        (oldest-HasKey store entry jobs) in
    let ih =
      prune_loop-length fuel store max (remove ((oldest store entry jobs).0) (entry ∷ jobs))
        (omega arith) in
    ground (arith, ih)

-- The loop ends: pruning leaves at most as many jobs as the history may have.
pub length-prune_jobs :
    (store : List JobData) (max : ℕ) (jobs : Table ℕ) → length (prune_jobs store max jobs) ≤ max
unfolding prune_jobs
length-prune_jobs store max jobs = prune_loop-length (length jobs) store max jobs (omega arith)
