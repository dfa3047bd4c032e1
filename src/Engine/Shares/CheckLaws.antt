-- ===== src/Engine/Shares/CheckLaws.antt =====
-- pkg/engine/sharevalidator.go: what an accepted share is.
use forgenx_engine.Prelude.{ℕ, ◌≡◌, List, ◌++◌, true, false, some, ok}
use forgenx_engine.Prelude.Hex.{hex_decode}
use forgenx_engine.Prelude.Bytes.{le32}
use forgenx_engine.Prelude.Float.{Floats}
use forgenx_engine.Coinbase.Script.{double_sha256, reverse_bytes}
use forgenx_engine.Coinbase.Merkle.{Sha256, to_hash}
use forgenx_engine.Coin.Difficulty.{bits_to_hex}
use forgenx_engine.Engine.Words.{swap_endian_words}
use forgenx_engine.Engine.Jobs.{Job, JobManager, get_job}
use forgenx_engine.Engine.Shares.{
  ShareSubmission, ShareSession, Graces, Accepted, final_version, fold_branches_hex, is_stale,
  coinb2_of, meets_difficulty,
}

-- The header that a job and a share make with the hash of a coinbase, from the numbers in them.
pub record IsHeader (sha : Sha256) (job : Job) (share : ShareSubmission)
    (coinbase_hash header : List ℕ) : Type 0 where
  pub base : ℕ
  pub n_time : ℕ
  pub bits : ℕ
  pub nonce : ℕ
  pub version_is : bits_to_hex job.version ≡ some base
  pub n_time_is : bits_to_hex share.n_time ≡ some n_time
  pub bits_is : bits_to_hex job.n_bits ≡ some bits
  pub nonce_is : bits_to_hex share.nonce ≡ some nonce
  pub header_is :
      header
      ≡ le32 (final_version base share.version_bits)
        ++ (swap_endian_words job.prev_hash
            ++ (fold_branches_hex sha (to_hash coinbase_hash) job.merkle_branches
                ++ (le32 n_time ++ (le32 bits ++ le32 nonce))))

module _ (sha : Sha256) (fl : Floats) where
  -- A share that was accepted.
  pub record IsAccepted (now : ℕ) (graces : Graces) (jm : JobManager fl) (session : ShareSession fl)
      (share : ShareSubmission) (a : Accepted fl) : Type 0 where
    pub known : get_job fl share.job_id jm ≡ some a.job
    pub fresh : is_stale fl now graces jm a.job ≡ false
    pub coinb2 : List ℕ
    pub coinb2_is : coinb2_of fl jm session a.job ≡ ok coinb2
    pub coinbase_is :
        hex_decode (a.job.data_coinb1 ++ (session.extra_nonce1 ++ (share.extra_nonce2 ++ coinb2)))
        ≡ some a.coinbase_bytes
    pub header_is : IsHeader sha a.job.job share (double_sha256 sha.sum a.coinbase_bytes) a.header
    pub hash_is : a.block_hash_be ≡ reverse_bytes (double_sha256 sha.sum a.header)
    pub meets : meets_difficulty fl now graces session share.job_id a.block_hash_be ≡ true
