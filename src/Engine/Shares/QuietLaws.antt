-- ===== src/Engine/Shares/QuietLaws.antt =====
-- pkg/engine/sharevalidator.go: shares for which nothing is submitted.
use forgenx_engine.Prelude.{
  ℕ, ◌-◌, ◌*◌, ◌^◌, ◌<◌, ◌≢◌, ◌||◌, ap, bit_and, ltb, arith, ◌≡◌, refl, List, [], ◌∷◌, Bool, true,
  false, Option, none, some, ok, err, inl, inr, Bool-cases,
}
use forgenx_engine.Prelude.Float.{Floats}
use forgenx_engine.Coinbase.Merkle.{Sha256}
use forgenx_engine.Prelude.Table.{same_text_eq}
use forgenx_engine.Coin.Text.{same_text}
use forgenx_engine.Coin.Difficulty.{bits_to_hex, set_bytes, hash_meets_target}
use forgenx_engine.Sv2.Target.{n_bits_to_target}
use forgenx_engine.Sv2.TargetLaws.{compact_to_big-eq-n_bits_to_target}
use forgenx_engine.Coin.Interface.{Coin}
use forgenx_engine.Engine.Jobs.{JobManager}
use forgenx_engine.Engine.Shares.{
  Answer, err_job_not_found, err_low_difficulty, err_malformed_request, err_other, ShareSubmission,
  ShareSession, Refusal, answer_of, unknown_job, stale, no_coinbase, low_difficulty, malformed,
  invalid_version, invalid_n_bits, Graces, Accepted, check_share, logged, counted_as,
}
use forgenx_engine.Engine.Shares.EffectLaws.{submits_nothing, submits_nothing-append}
use forgenx_engine.Engine.Shares.Submit.{
  Node, Effect, sampled, job_n_bits, sample_after, meets_block, cooling_down, reorganised,
  found_block, block_effects, accept, refuse, validate_share,
}

or_right : (a b : Bool) → b ≡ true → (a || b) ≡ true
or_right a b h = ground arith

module _ (fl : Floats) (coin : Coin) where
  refuse-submits_nothing :
      (share : ShareSubmission) (r : Refusal) → submits_nothing fl (refuse fl coin share r) ≡ true
  unfolding refuse logged counted_as
  refuse-submits_nothing share unknown_job = refl
  refuse-submits_nothing share stale = refl
  refuse-submits_nothing share no_coinbase = refl
  refuse-submits_nothing share low_difficulty = refl
  refuse-submits_nothing share malformed = refl
  refuse-submits_nothing share invalid_version = refl
  refuse-submits_nothing share invalid_n_bits = refl

  sample_after-submits_nothing :
      (now : ℕ) (diff : fl.F) (out : List (Effect fl) × Bool)
      → submits_nothing fl (out.0) ≡ true
      → submits_nothing fl (sample_after fl coin now diff out) ≡ true
  sample_after-submits_nothing now diff (effects, true) h =
      submits_nothing-append fl effects (sampled now diff ∷ []) h refl
  sample_after-submits_nothing now diff (effects, false) h = h

  accept-submits_nothing :
      (now : ℕ) (node : Node) (last_submit : Option ℕ) (session : ShareSession fl) (worker : List ℕ)
      (a : Accepted fl)
      → submits_nothing fl ((block_effects fl coin now node last_submit worker a).0) ≡ true
      → submits_nothing fl (accept fl coin now node last_submit session worker a) ≡ true
  unfolding accept
  accept-submits_nothing now node last_submit session worker a h =
      sample_after-submits_nothing now session.difficulty
        (block_effects fl coin now node last_submit worker a) h

  no_block :
      (now : ℕ) (node : Node) (last_submit : Option ℕ) (worker : List ℕ) (a : Accepted fl)
      → meets_block fl coin a ≡ false
      → submits_nothing fl ((block_effects fl coin now node last_submit worker a).0) ≡ true
  unfolding block_effects
  no_block now node last_submit worker a h = rw h refl

  -- Reasons on eCash for which a block is not submitted.
  ecash_waits :
      (now : ℕ) (node : Node) (last_submit : Option ℕ) (worker : List ℕ) (a : Accepted fl)
      → (cooling_down fl coin now last_submit || reorganised fl coin node a) ≡ true
      → submits_nothing fl ((block_effects fl coin now node last_submit worker a).0) ≡ true
  unfolding block_effects found_block
  ecash_waits now node last_submit worker a h = elim (Bool-cases (meets_block fl coin a)) [
    | inl e ↦ elim (Bool-cases (cooling_down fl coin now last_submit)) [
      | inl cool ↦ rw (e, cool) refl
      | inr warm ↦
          let moved : reorganised fl coin node a ≡ true = rw warm at h in rw (e, warm, moved) refl
    ]
    | inr e ↦ rw e refl
  ]

  -- The answer that a miner gets for each reason of a refusal.
  pub data IsAnswer : Refusal → Answer → Type 0 where
    for_unknown_job : IsAnswer unknown_job err_job_not_found
    for_stale : IsAnswer stale err_job_not_found
    for_no_coinbase : IsAnswer no_coinbase err_job_not_found
    for_low_difficulty : IsAnswer low_difficulty err_low_difficulty
    for_malformed : IsAnswer malformed err_malformed_request
    for_invalid_version : IsAnswer invalid_version err_other
    for_invalid_n_bits : IsAnswer invalid_n_bits err_other

  answer_of-IsAnswer : {r : Refusal} {answer : Answer} → IsAnswer r answer → answer_of r ≡ answer
  unfolding answer_of
  answer_of-IsAnswer for_unknown_job = refl
  answer_of-IsAnswer for_stale = refl
  answer_of-IsAnswer for_no_coinbase = refl
  answer_of-IsAnswer for_low_difficulty = refl
  answer_of-IsAnswer for_malformed = refl
  answer_of-IsAnswer for_invalid_version = refl
  answer_of-IsAnswer for_invalid_n_bits = refl

  -- Why a share is no block to submit: it was refused; its hash is above the target of its job; or it
  -- is of eCash, and a block was submitted less than thirty seconds ago, or the node has another tip
  -- than the job builds on.
  pub data NoBlock (sha : Sha256) (now : ℕ) (graces : Graces) (jm : JobManager fl) (node : Node)
      (last_submit : Option ℕ) (session : ShareSession fl) (share : ShareSubmission)
      : Option Answer → Type 0 where
    refused :
        (r : Refusal) (answer : Answer)
        → check_share fl sha now graces jm session share ≡ err r
        → IsAnswer r answer
        → NoBlock sha now graces jm node last_submit session share (some answer)
    above_target :
        (a : Accepted fl) (n_bits : ℕ)
        → check_share fl sha now graces jm session share ≡ ok a
        → bits_to_hex a.job.job.n_bits ≡ some n_bits
        → bit_and n_bits 0x00800000 ≡ 0
        → n_bits_to_target n_bits < set_bytes a.block_hash_be
        → NoBlock sha now graces jm node last_submit session share none
    after_block :
        (a : Accepted fl) (last : ℕ)
        → check_share fl sha now graces jm session share ≡ ok a
        → coin.symbol ≡ b'X' ∷ b'E' ∷ b'C' ∷ []
        → last_submit ≡ some last
        → now - last < 30 * 10 ^ 9
        → NoBlock sha now graces jm node last_submit session share none
    on_other_tip :
        (a : Accepted fl) (best : List ℕ)
        → check_share fl sha now graces jm session share ≡ ok a
        → coin.symbol ≡ b'X' ∷ b'E' ∷ b'C' ∷ []
        → node.best_block_hash ≡ some best
        → best ≢ a.job.template.previous_block_hash
        → NoBlock sha now graces jm node last_submit session share none

  above-meets_block :
      (a : Accepted fl) (n_bits : ℕ)
      → bits_to_hex a.job.job.n_bits ≡ some n_bits
      → bit_and n_bits 0x00800000 ≡ 0
      → n_bits_to_target n_bits < set_bytes a.block_hash_be
      → meets_block fl coin a ≡ false
  unfolding meets_block job_n_bits hash_meets_target
  above-meets_block a n_bits is_n clear above =
      rw (is_n, compact_to_big-eq-n_bits_to_target n_bits clear) (ground arith)

  recent-cooling_down :
      (now last : ℕ) (last_submit : Option ℕ)
      → coin.symbol ≡ b'X' ∷ b'E' ∷ b'C' ∷ []
      → last_submit ≡ some last
      → now - last < 30 * 10 ^ 9
      → cooling_down fl coin now last_submit ≡ true
  unfolding cooling_down
  recent-cooling_down now last last_submit xec_is was soon =
      let near : ltb (now - last) (30 * 10 ^ 9) ≡ true = ground arith in rw (was, xec_is, near) refl

  other_tip-reorganised :
      (node : Node) (a : Accepted fl) (best : List ℕ)
      → coin.symbol ≡ b'X' ∷ b'E' ∷ b'C' ∷ []
      → node.best_block_hash ≡ some best
      → best ≢ a.job.template.previous_block_hash
      → reorganised fl coin node a ≡ true
  unfolding reorganised
  other_tip-reorganised node a best xec_is best_is other =
      elim (Bool-cases (same_text best a.job.template.previous_block_hash)) [
        | inl e ↦ absurd (other (same_text_eq best a.job.template.previous_block_hash e))
        | inr e ↦ rw (xec_is, best_is, e) refl
      ]

  -- Nothing is submitted for a share that is refused, which gets the answer of its reason; for an
  -- accepted one whose hash is above the target of its job, where the sign bit of that is clear; or
  -- on eCash within thirty seconds of a block, or where the node's tip is not the one that the job
  -- builds on.
  pub validate_share-submits_nothing :
      (sha : Sha256) (now : ℕ) (graces : Graces) (jm : JobManager fl) (node : Node)
      (last_submit : Option ℕ) (session : ShareSession fl) (share : ShareSubmission)
      (answer : Option Answer)
      → NoBlock sha now graces jm node last_submit session share answer
      → (submits_nothing fl
            ((validate_share fl coin sha now graces jm node last_submit session share).1)
          ≡ true)
        × ((validate_share fl coin sha now graces jm node last_submit session share).0 ≡ answer)
  unfolding validate_share
  validate_share-submits_nothing sha now graces jm node last_submit session share answer
        (refused r reply e is_answer) =
      (rw e (refuse-submits_nothing share r), rw e (ap some (answer_of-IsAnswer is_answer)))
  validate_share-submits_nothing sha now graces jm node last_submit session share answer
        (above_target a n_bits e is_n clear above) =
      let quiet = accept-submits_nothing now node last_submit session share.worker_name a (
        no_block now node last_submit share.worker_name a
          (above-meets_block a n_bits is_n clear above)) in
      (rw e quiet, rw e refl)
  validate_share-submits_nothing sha now graces jm node last_submit session share answer
        (after_block a last e xec_is was soon) =
      let cool = recent-cooling_down now last last_submit xec_is was soon in
      let quiet =
        accept-submits_nothing now node last_submit session share.worker_name a
          (ecash_waits now node last_submit share.worker_name a (rw cool refl)) in
      (rw e quiet, rw e refl)
  validate_share-submits_nothing sha now graces jm node last_submit session share answer
        (on_other_tip a best e xec_is best_is other) =
      let moved = other_tip-reorganised node a best xec_is best_is other in
      let quiet = accept-submits_nothing now node last_submit session share.worker_name a (
        ecash_waits now node last_submit share.worker_name a
          (or_right (cooling_down fl coin now last_submit) _ moved)) in
      (rw e quiet, rw e refl)
