-- ===== src/Engine/Shares.antt =====
-- pkg/engine/sharevalidator.go, ValidateShare: the checks of a share, up to the point where it is
-- accepted. Times are nanoseconds, and the clock is read once for a share.
pub mod Submit
pub mod CheckLaws
pub mod RefusalLaws
pub mod ConditionLaws
pub mod VerdictLaws
pub mod EffectLaws
pub mod SubmitLaws
pub mod QuietLaws
use forgenx_engine.Prelude.{
  ℕ, ◌+◌, ◌-◌, List, [], ◌∷◌, ◌++◌, Bool, true, false, not, ◌&&◌, ◌||◌, Option, none, some, Result,
  ok, err, ◌>>=◌, ◌>>◌, fail_if, some_or, bit_xor, ltb, ◌==◌, if◌then◌else◌,
}
use forgenx_engine.Prelude.Int.{ℤ, pos}
use forgenx_engine.Prelude.Bytes.{le32, zeros, copy_at}
use forgenx_engine.Prelude.Hex.{hex_decode}
use forgenx_engine.Prelude.Table.{Table, lookup}
use forgenx_engine.Prelude.Float.{Floats}
use forgenx_engine.Coinbase.Script.{double_sha256, reverse_bytes}
use forgenx_engine.Coinbase.Merkle.{Sha256, to_hash}
use forgenx_engine.Coin.Text.{same_text}
use forgenx_engine.Coin.Difficulty.{max_target, bits_to_hex, set_bytes, hash_meets_difficulty}
use forgenx_engine.Coin.Template.{BlockTemplate}
use forgenx_engine.Engine.Words.{swap_endian_words}
use forgenx_engine.Engine.Jobs.{Job, JobData, JobManager, get_job}

-- `stratum.ShareSubmission`.
pub record ShareSubmission : Type 0 where
  pub worker_name : List ℕ
  pub job_id : List ℕ
  pub extra_nonce2 : List ℕ
  pub n_time : List ℕ
  pub nonce : List ℕ
  pub version_bits : List ℕ

-- What the validator asks of a session. JobDifficulty is `none` where the session does not record
-- the difficulties of jobs, or does not know that of this one.
pub record ShareSession (fl : Floats) : Type 0 where
  pub mining_address : List ℕ
  pub extra_nonce1 : List ℕ
  pub difficulty : fl.F
  pub prev_difficulty : fl.F
  pub diff_changed_at : ℕ
  pub job_difficulty : List ℕ → Option fl.F

-- A refused share: the answer to the miner, and the reason in the log of rejections where there is
-- one. The answers `invalid_version` and `invalid_n_bits` are errors of the job.
pub data Refusal : Type 0 where
  unknown_job : Refusal
  stale : Refusal
  no_coinbase : Refusal
  low_difficulty : Refusal
  malformed : Refusal
  invalid_version : Refusal
  invalid_n_bits : Refusal

pub data Answer : Type 0 where
  err_job_not_found : Answer
  err_low_difficulty : Answer
  err_malformed_request : Answer
  err_other : Answer

unfoldable pub answer_of : Refusal → Answer
answer_of unknown_job = err_job_not_found
answer_of stale = err_job_not_found
answer_of no_coinbase = err_job_not_found
answer_of low_difficulty = err_low_difficulty
answer_of malformed = err_malformed_request
answer_of invalid_version = err_other
answer_of invalid_n_bits = err_other

-- The kind that Stats.RecordShare counts a refused share under; an error of the job is not counted.
pub data ShareKind : Type 0 where
  share_valid : ShareKind
  share_stale : ShareKind
  share_invalid : ShareKind

unfoldable pub counted_as : Refusal → Option ShareKind
counted_as unknown_job = some share_stale
counted_as stale = some share_stale
counted_as no_coinbase = some share_stale
counted_as low_difficulty = some share_invalid
counted_as malformed = some share_invalid
counted_as invalid_version = none
counted_as invalid_n_bits = none

-- Whether the refusal is in the log of rejections.
unfoldable pub logged : Refusal → Bool
logged malformed = false
logged invalid_version = false
logged invalid_n_bits = false
logged refusal = true

-- A durations of zero turns the grace off.
pub record Graces : Type 0 where
  pub stale_share_grace : ℕ
  pub low_diff_share_grace : ℕ

-- An accepted share.
pub record Accepted (fl : Floats) : Type 0 where
  pub job : JobData
  pub coinbase_bytes : List ℕ
  pub header : List ℕ
  pub block_hash_be : List ℕ
  pub actual_diff : fl.F

-- The version that a share rolled; bits that are not four bytes of hex are not used.
abbrev rolled : ℕ → Option ℕ → ℕ
rolled base none = base
rolled base (some bits) = bit_xor base bits

unfoldable pub final_version : ℕ → List ℕ → ℕ
final_version base [] = base
final_version base (c ∷ version_bits) = rolled base (bits_to_hex (c ∷ version_bits))

module _ (sha : Sha256) where
  abbrev pub fold_branch : List ℕ → Option (List ℕ) → List ℕ
  fold_branch root none = root
  fold_branch root (some branch) =
      double_sha256 sha.sum (copy_at (copy_at (zeros 64) 0 root) 32 branch)

  unfoldable pub fold_branches_hex : List ℕ → List (List ℕ) → List ℕ
  fold_branches_hex root [] = root
  fold_branches_hex root (branch_hex ∷ branches) =
      fold_branches_hex (fold_branch root (hex_decode branch_hex)) branches

  -- The 80 bytes of the header, and the errors on the way.
  unfoldable pub construct_header :
      Job → ShareSubmission → (coinbase_hash : List ℕ) → Result Refusal (List ℕ)
  construct_header job share coinbase_hash = do
    base ← some_or (bits_to_hex job.version) invalid_version
    n_time ← some_or (bits_to_hex share.n_time) malformed
    bits ← some_or (bits_to_hex job.n_bits) invalid_n_bits
    nonce ← some_or (bits_to_hex share.nonce) malformed
    ok (
        le32 (final_version base share.version_bits)
        ++ (swap_endian_words job.prev_hash
            ++ (fold_branches_hex (to_hash coinbase_hash) job.merkle_branches
                ++ (le32 n_time ++ (le32 bits ++ le32 nonce)))))

module _ (fl : Floats) where
  -- Stale work is taken for a while behind a new block.
  unfoldable pub is_stale : (now : ℕ) → Graces → JobManager fl → JobData → Bool
  is_stale now graces jm job =
      not (same_text job.template.previous_block_hash jm.current_tip)
      && not
          (ltb 0 graces.stale_share_grace && ltb (now - jm.tip_changed_at) graces.stale_share_grace)

  -- The second half of the coinbase: in solo mode that of the session's payout address.
  unfoldable pub coinb2_of : JobManager fl → ShareSession fl → JobData → Result Refusal (List ℕ)
  coinb2_of jm session job =
      if jm.solo_mode
      then some_or (lookup session.mining_address job.address_coinb2s) no_coinbase
      else ok job.data_coinb2

  unfoldable pub actual_difficulty : ℕ → fl.F
  actual_difficulty hash = if ltb 0 hash then fl.quo max_target hash else fl.of_nat 0

  -- The difficulty before the last change counts for a while.
  unfoldable pub within_grace : (now : ℕ) → Graces → ShareSession fl → List ℕ → Bool
  within_grace now graces session hash =
      ltb 0 graces.low_diff_share_grace
      && (fl.lt (fl.of_nat 0) session.prev_difficulty
          && (ltb (now - session.diff_changed_at) graces.low_diff_share_grace
              && hash_meets_difficulty fl hash session.prev_difficulty))

  abbrev pub meets_job : fl.F → List ℕ → Option fl.F → Bool
  meets_job session_diff hash none = false
  meets_job session_diff hash (some d) = fl.lt d session_diff && hash_meets_difficulty fl hash d

  unfoldable pub meets_difficulty :
      (now : ℕ) → Graces → ShareSession fl → (job_id hash : List ℕ) → Bool
  meets_difficulty now graces session job_id hash =
      hash_meets_difficulty fl hash session.difficulty
      || (within_grace now graces session hash
          || meets_job session.difficulty hash (session.job_difficulty job_id))

  abbrev pub accepted_share : JobData → (coinbase_bytes header block_hash_be : List ℕ) → Accepted fl
  accepted_share job coinbase_bytes header hash = record {
    job = job;
    coinbase_bytes = coinbase_bytes;
    header = header;
    block_hash_be = hash;
    actual_diff = actual_difficulty (set_bytes hash);
  }

  -- The difficulty check of an assembled share.
  unfoldable pub check_difficulty :
      (sha : Sha256) (now : ℕ)
      → Graces
      → ShareSession fl
      → ShareSubmission
      → JobData
      → (coinbase_bytes header : List ℕ) → Result Refusal (Accepted fl)
  check_difficulty sha now graces session share job coinbase_bytes header =
      let hash = reverse_bytes (double_sha256 sha.sum header) in
      fail_if (not (meets_difficulty now graces session share.job_id hash)) low_difficulty
      >> ok (accepted_share job coinbase_bytes header hash)

  unfoldable pub check_share :
      (sha : Sha256) (now : ℕ)
      → Graces
      → JobManager fl
      → ShareSession fl
      → ShareSubmission
      → Result Refusal (Accepted fl)
  check_share sha now graces jm session share = do
    job ← some_or (get_job fl share.job_id jm) unknown_job
    fail_if (is_stale now graces jm job) stale
    coinb2 ← coinb2_of jm session job
    coinbase_bytes ←
        some_or
          (hex_decode (job.data_coinb1 ++ (session.extra_nonce1 ++ (share.extra_nonce2 ++ coinb2))))
          malformed
    header ← construct_header sha job.job share (double_sha256 sha.sum coinbase_bytes)
    check_difficulty sha now graces session share job coinbase_bytes header
