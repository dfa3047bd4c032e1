-- ===== src/Engine/Shares/VerdictLaws.antt =====
-- pkg/engine/sharevalidator.go: the verdict on a share.
use forgenx_engine.Prelude.{
  ℕ, ◌-◌, ◌≤◌, ◌≡◌, ◌≢◌, List, ◌++◌, true, none, some, Result, ok, err, inl, inr, Bool-cases,
  Option-cases,
}
use forgenx_engine.Prelude.Hex.{hex_decode}
use forgenx_engine.Prelude.Table.{lookup}
use forgenx_engine.Prelude.Float.{Floats}
use forgenx_engine.Coinbase.Script.{double_sha256, reverse_bytes}
use forgenx_engine.Coinbase.Merkle.{Sha256}
use forgenx_engine.Engine.Jobs.{JobData, JobManager, get_job}
use forgenx_engine.Engine.Shares.{
  ShareSubmission, ShareSession, Refusal, unknown_job, stale, no_coinbase, low_difficulty,
  malformed, Graces, Accepted, accepted_share, meets_difficulty, check_difficulty, check_share,
}
use forgenx_engine.Engine.Shares.CheckLaws.{IsHeader}
use forgenx_engine.Engine.Shares.ConditionLaws.{
  IsBadNumber, construct_header-cases, IsFresh, is_stale-cases, IsOwn, coinb2_of-cases, Meets,
  meets_difficulty-true, meets_difficulty-holds,
}

module _ (sha : Sha256) (fl : Floats) (now : ℕ) (graces : Graces) (jm : JobManager fl)
    (session : ShareSession fl) (share : ShareSubmission) where
  abbrev hash_of : List ℕ → List ℕ
  hash_of header = reverse_bytes (double_sha256 sha.sum header)

  abbrev coinbase_hex : JobData → List ℕ → List ℕ
  coinbase_hex job coinb2 =
      job.data_coinb1 ++ (session.extra_nonce1 ++ (share.extra_nonce2 ++ coinb2))

  -- A share for a fresh job of the manager, with the coinbase of its session in bytes.
  pub record IsAssembled (job : JobData) (bytes : List ℕ) : Type 0 where
    pub known : get_job fl share.job_id jm ≡ some job
    pub fresh : IsFresh fl now graces jm job
    pub coinb2 : List ℕ
    pub own : IsOwn fl jm session job coinb2
    pub decoded : hex_decode (coinbase_hex job coinb2) ≡ some bytes

  -- The verdicts, each with the conditions that call for it.
  pub data Verdict : Result Refusal (Accepted fl) → Type 0 where
    no_job : get_job fl share.job_id jm ≡ none → Verdict (err unknown_job)
    too_old :
        (job : JobData)
        → get_job fl share.job_id jm ≡ some job
        → job.template.previous_block_hash ≢ jm.current_tip
        → graces.stale_share_grace ≤ now - jm.tip_changed_at
        → Verdict (err stale)
    not_served :
        (job : JobData)
        → get_job fl share.job_id jm ≡ some job
        → IsFresh fl now graces jm job
        → jm.solo_mode ≡ true
        → lookup session.mining_address job.address_coinb2s ≡ none
        → Verdict (err no_coinbase)
    not_hex :
        (job : JobData) (coinb2 : List ℕ)
        → get_job fl share.job_id jm ≡ some job
        → IsFresh fl now graces jm job
        → IsOwn fl jm session job coinb2
        → hex_decode (coinbase_hex job coinb2) ≡ none
        → Verdict (err malformed)
    bad_number :
        (job : JobData) (bytes : List ℕ) (r : Refusal)
        → IsAssembled job bytes
        → IsBadNumber job.job share r
        → Verdict (err r)
    too_easy :
        (job : JobData) (bytes header : List ℕ)
        → IsAssembled job bytes
        → IsHeader sha job.job share (double_sha256 sha.sum bytes) header
        → ¬ Meets fl now graces session share.job_id (hash_of header)
        → Verdict (err low_difficulty)
    good :
        (job : JobData) (bytes header : List ℕ)
        → IsAssembled job bytes
        → IsHeader sha job.job share (double_sha256 sha.sum bytes) header
        → Meets fl now graces session share.job_id (hash_of header)
        → Verdict (ok (accepted_share fl job bytes header (hash_of header)))

  check_difficulty-Verdict :
      (job : JobData) (bytes header : List ℕ)
      → IsAssembled job bytes
      → IsHeader sha job.job share (double_sha256 sha.sum bytes) header
      → Verdict (check_difficulty fl sha now graces session share job bytes header)
  unfolding check_difficulty
  check_difficulty-Verdict job bytes header a h =
      elim (Bool-cases (meets_difficulty fl now graces session share.job_id (hash_of header))) [
        | inl met ↦ rw met (
            good job bytes header a h
              (meets_difficulty-holds fl now graces session share.job_id (hash_of header) met))
        | inr unmet ↦ rw unmet (
            too_easy job bytes header a h (λ m.
              let met =
                meets_difficulty-true fl now graces session share.job_id (hash_of header) m in
              cc))
      ]

  -- Every share gets the verdict that its conditions call for: unknown, stale, without a coinbase,
  -- malformed, of a bad job, of low difficulty, or accepted with the coinbase and the header that job
  -- and share make. The conditions are written out without the tests of the code.
  pub check_share-Verdict : Verdict (check_share fl sha now graces jm session share)
  unfolding check_share
  check_share-Verdict = elim (Option-cases (get_job fl share.job_id jm)) [
    | inl unknown ↦ rw unknown (no_job unknown)
    | inr (job, known) ↦ elim (is_stale-cases fl now graces jm job) [
      | inr (old, moved, late) ↦ rw (known, old) (too_old job known moved late)
      | inl (young, fresh) ↦ elim (coinb2_of-cases fl jm session job) [
        | inr (failed, solo, missing) ↦
            rw (known, young, failed) (not_served job known fresh solo missing)
        | inl (coinb2, c2, own) ↦ elim (Option-cases (hex_decode (coinbase_hex job coinb2))) [
          | inl bad ↦ rw (known, young, c2, bad) (not_hex job coinb2 known fresh own bad)
          | inr (bytes, decoded) ↦
              let a : IsAssembled job bytes = record {
                known = known;
                fresh = fresh;
                coinb2 = coinb2;
                own = own;
                decoded = decoded;
              } in
              elim (construct_header-cases sha job.job share (double_sha256 sha.sum bytes)) [
                | inr (r, failed, bad) ↦
                    rw (known, young, c2, decoded, failed) (bad_number job bytes r a bad)
                | inl (header, made, h) ↦
                    rw (known, young, c2, decoded, made)
                      (check_difficulty-Verdict job bytes header a h)
              ]
        ]
      ]
    ]
  ]
