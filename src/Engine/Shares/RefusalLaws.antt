-- ===== src/Engine/Shares/RefusalLaws.antt =====
-- pkg/engine/sharevalidator.go: shares that are refused, and the headers of both protocols.
use forgenx_engine.Prelude.{
  Bool-cases, inl, inr, if◌then◌else◌, ℕ, ◌≡◌, refl, sym, ap, ◌∙◌, List, [], ◌∷◌, ◌++◌, true, false,
  none, some, ok, err, length, map,
}
use forgenx_engine.Prelude.Hex.{hex_encode, hex_decode, hex_decode-hex_encode}
use forgenx_engine.Prelude.Bytes.{All, IsBytes}
use forgenx_engine.Prelude.Table.{lookup}
use forgenx_engine.Prelude.Float.{Floats}
use forgenx_engine.Coinbase.Script.{double_sha256, reverse_bytes}
use forgenx_engine.Coinbase.Merkle.{Sha256, to_hash}
use forgenx_engine.Sv2.Pow.{build_header, merkle_hash_pair, compute_merkle_root}
use forgenx_engine.Sv2.PowLaws.{build_header_lem}
use forgenx_engine.Engine.BranchLaws.{to_hash-IsHash}
use forgenx_engine.Engine.Words.{swap_endian_words}
use forgenx_engine.Engine.Jobs.{Job, JobData, JobManager, get_job}
use forgenx_engine.Engine.Shares.{
  ShareSubmission, ShareSession, no_coinbase, malformed, low_difficulty, unknown_job, stale, Graces,
  accepted_share, final_version, fold_branch, fold_branches_hex, construct_header, is_stale,
  coinb2_of, meets_difficulty, check_difficulty, check_share,
}
use forgenx_engine.Engine.Shares.CheckLaws.{IsHeader}

pub construct_header-ok :
    (sha : Sha256) (job : Job) (share : ShareSubmission) (coinbase_hash header : List ℕ)
    → IsHeader sha job share coinbase_hash header
    → construct_header sha job share coinbase_hash ≡ ok header
unfolding construct_header
construct_header-ok sha job share coinbase_hash header h =
    rw (h.version_is, h.n_time_is, h.bits_is, h.nonce_is, h.header_is) refl

module _ (sha : Sha256) (fl : Floats) where
  -- The conditions of the checks, up to the hash.
  pub record IsChecked (now : ℕ) (graces : Graces) (jm : JobManager fl) (session : ShareSession fl)
      (share : ShareSubmission) (job : JobData) (bytes header : List ℕ) : Type 0 where
    pub known : get_job fl share.job_id jm ≡ some job
    pub fresh : is_stale fl now graces jm job ≡ false
    pub coinb2 : List ℕ
    pub coinb2_is : coinb2_of fl jm session job ≡ ok coinb2
    pub coinbase_is :
        hex_decode (job.data_coinb1 ++ (session.extra_nonce1 ++ (share.extra_nonce2 ++ coinb2)))
        ≡ some bytes
    pub header_is : IsHeader sha job.job share (double_sha256 sha.sum bytes) header

  -- A share for a known and fresh job, with a coinbase of its session and a header, is accepted with
  -- that coinbase and that header if its hash meets the difficulty, and refused for low difficulty if
  -- not: no other outcome is left.
  pub check_share-IsChecked :
      (now : ℕ) (graces : Graces) (jm : JobManager fl) (session : ShareSession fl)
      (share : ShareSubmission) (job : JobData) (bytes header : List ℕ)
      → IsChecked now graces jm session share job bytes header
      → check_share fl sha now graces jm session share ≡ (
          if meets_difficulty fl now graces session share.job_id
            (reverse_bytes (double_sha256 sha.sum header))
          then ok
              (accepted_share fl job bytes header (reverse_bytes (double_sha256 sha.sum header)))
          else err low_difficulty)
  unfolding check_share check_difficulty
  check_share-IsChecked now graces jm session share job bytes header c =
      let made =
        construct_header-ok sha job.job share (double_sha256 sha.sum bytes) header c.header_is in
      let hash = reverse_bytes (double_sha256 sha.sum header) in
      rw (c.known, c.fresh, c.coinb2_is, c.coinbase_is, made)
        (elim (Bool-cases (meets_difficulty fl now graces session share.job_id hash)) [
          | inl met ↦ rw met refl
          | inr unmet ↦ rw unmet refl
        ])

  no_coinbase_lem :
      (jm : JobManager fl) (session : ShareSession fl) (job : JobData)
      → jm.solo_mode ≡ true
      → lookup session.mining_address job.address_coinb2s ≡ none
      → coinb2_of fl jm session job ≡ err no_coinbase
  unfolding coinb2_of
  no_coinbase_lem jm session job solo missing = rw (solo, missing) refl

  -- The refusals before the hash, in the order of the checks, and the answer each has in the log.
  pub check_share-refused :
      (now : ℕ) (graces : Graces) (jm : JobManager fl) (session : ShareSession fl)
      (share : ShareSubmission)
      → (get_job fl share.job_id jm ≡ none
          → check_share fl sha now graces jm session share ≡ err unknown_job)
        × ((job : JobData)
            → get_job fl share.job_id jm ≡ some job
            → is_stale fl now graces jm job ≡ true
            → check_share fl sha now graces jm session share ≡ err stale)
        × ((job : JobData)
            → get_job fl share.job_id jm ≡ some job
            → is_stale fl now graces jm job ≡ false
            → jm.solo_mode ≡ true
            → lookup session.mining_address job.address_coinb2s ≡ none
            → check_share fl sha now graces jm session share ≡ err no_coinbase)
        × ((job : JobData) (coinb2 : List ℕ)
            → get_job fl share.job_id jm ≡ some job
            → is_stale fl now graces jm job ≡ false
            → coinb2_of fl jm session job ≡ ok coinb2
            → hex_decode
                (job.data_coinb1 ++ (session.extra_nonce1 ++ (share.extra_nonce2 ++ coinb2)))
              ≡ none
            → check_share fl sha now graces jm session share ≡ err malformed)
  unfolding check_share
  check_share-refused now graces jm session share = (
    λ unknown. rw unknown refl,
    λ job known old. rw (known, old) refl,
    λ job known fresh solo missing.
        let none_is : coinb2_of fl jm session job ≡ err no_coinbase =
          no_coinbase_lem jm session job solo missing in
        rw (known, fresh, none_is) refl,
    λ job coinb2 known fresh c2 bad. rw (known, fresh, c2, bad) refl,
  )

-- The Merkle root of a share of Stratum V1 is that of Stratum V2 on the same branch.
fold_branches_hex-eq :
    (sha : Sha256) (branches : List (List ℕ)) (root : List ℕ)
    → All IsBytes branches
    → fold_branches_hex sha root (map hex_encode branches) ≡ compute_merkle_root sha root branches
unfolding fold_branches_hex compute_merkle_root merkle_hash_pair double_sha256
fold_branches_hex-eq sha [] root h = refl
fold_branches_hex-eq sha (branch ∷ branches) root h =
    ap (λ o. fold_branches_hex sha (fold_branch sha root o) (map hex_encode branches))
      (hex_decode-hex_encode branch h.0)
    ∙ fold_branches_hex-eq sha branches _ h.1

length-compute_merkle_root :
    (sha : Sha256) (branches : List (List ℕ)) (root : List ℕ)
    → length root ≡ 32
    → length (compute_merkle_root sha root branches) ≡ 32
unfolding compute_merkle_root merkle_hash_pair
length-compute_merkle_root sha [] root h = h
length-compute_merkle_root sha (branch ∷ branches) root h =
    length-compute_merkle_root sha branches _ (sha.length_sum _)

-- For a job with a previous hash of 32 bytes and the branch `branches` in hex, the header that the
-- Stratum V1 validator makes is the one that BuildHeader and ComputeMerkleRoot of Stratum V2 make of
-- the same numbers, and has 80 bytes.
pub construct_header-build_header :
    (sha : Sha256) (job : Job) (share : ShareSubmission) (coinbase_hash header : List ℕ)
    (branches : List (List ℕ)) (h : IsHeader sha job share coinbase_hash header)
    → length (swap_endian_words job.prev_hash) ≡ 32
    → length coinbase_hash ≡ 32
    → All IsBytes branches
    → job.merkle_branches ≡ map hex_encode branches
    → (construct_header sha job share coinbase_hash ≡ ok header)
      × (header
          ≡ build_header
              (final_version h.base share.version_bits)
              (swap_endian_words job.prev_hash)
              (compute_merkle_root sha coinbase_hash branches)
              h.n_time
              h.bits
              h.nonce)
      × (length header ≡ 80)
construct_header-build_header sha job share coinbase_hash header branches h prev size bytes are =
    let root = compute_merkle_root sha coinbase_hash branches in
    let same : fold_branches_hex sha (to_hash coinbase_hash) job.merkle_branches ≡ root =
      rw (are, to_hash-IsHash coinbase_hash size)
        (fold_branches_hex-eq sha branches coinbase_hash bytes) in
    let (built, length_is) =
      build_header_lem (final_version h.base share.version_bits) (swap_endian_words job.prev_hash)
        root h.n_time h.bits h.nonce prev
        (length-compute_merkle_root sha branches coinbase_hash size) in
    let whole : header ≡ build_header _ _ root h.n_time h.bits h.nonce =
      h.header_is ∙ rw same (sym built) in
    (construct_header-ok sha job share coinbase_hash header h, whole, ap length whole ∙ length_is)
